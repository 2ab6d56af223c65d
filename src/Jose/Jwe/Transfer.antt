-- ===== src/Jose/Jwe/Transfer.antt =====
-- A JWE that is sent in compact form: built, printed, parsed and decrypted.
use mathlib.Core.Path.{subst}
use infosec.Common.{◌≡◌, refl, sym, ◌≢◌, List, [], ◌∷◌, Bytes, byte, x0, Text, replicate}
use infosec.Common.{ok, err, message, ◌>>=◌}
use infosec.Foreign.Encodings.{Codec, IsRoundTrip}
use infosec.Foreign.Encodings.Alphabet.{encode-Without_dot}
use infosec.Traits.{Receiver}
use infosec.Jose.Jwe.Algorithms.{
  KeyAlgorithm, ecdh_es as ecdh_es_algorithm, ecdh_es_a256kw, ecies_es256k as ecies_algorithm,
  a256gcm as a256gcm_content,
}
use infosec.Jose.Jwe.Data.{KeyEncryption, Recipients, one, many, Jwe}
use infosec.Jose.Jwe.Libraries.{Libraries, AreLawful}
use infosec.Jose.Jwe.Random.{pure, pure-eq-ok, >>=-eq-ok as random_bind-eq-ok}
use infosec.Jose.Jwe.Encrypt.{Recipient, okp_key, ecdh_a256kw, ecies_es256k}
use infosec.Jose.Jwe.Builder.{
  JweBuilder, Payload, KeyEncrypter, direct, ecdh_es, ecdh_es_a256_kw, ecies_es256_k, encrypt_each,
  encrypt_key, key_encrypter, new_ecdh_es, build,
}
use infosec.Jose.Jwe.Builder.Built.{IsBuilt, build-IsBuilt}
use infosec.Jose.Jwe.Decrypt.{decrypt}
use infosec.Jose.Jwe.Opening.{Holds}
use infosec.Jose.Jwe.Delivery.{decrypt-build}
use infosec.Jose.Jwe.Compact.{encode, from_str}
use infosec.Jose.Jwe.Compact.RoundTrip.{IsPlain, from_str-encode, encode_many}

module _ (lib : Libraries) where
  open lib use {base64, x25519, rng}

  one_of_ecdh_es :
      (r : Recipient) (encrypter : KeyEncrypter) (recipients : Recipients) (s s₁ s₂ t : rng.State)
      → new_ecdh_es lib r s ≡ ok (encrypter, s₁)
      → encrypt_key lib encrypter s₂ ≡ ok (recipients, t)
      → (public : Bytes) × (recipients ≡ one (direct lib public))
  unfolding new_ecdh_es encrypt_key
  one_of_ecdh_es r encrypter recipients s s₁ s₂ t chosen keys =
      let e = (rng.ephemeral_secret s).0 in
      let public = x25519.ephemeral_public e in
      let made =
        (pure-eq-ok (ecdh_es public (x25519.ephemeral_dh e r.public_key.x)) encrypter _ s₁
          chosen).0 in
      let keys' = subst (λ k. encrypt_key lib k s₂ ≡ ok (recipients, t)) (sym made) keys in
      (public, sym (pure-eq-ok (one (direct lib public)) recipients s₂ t keys').0)

  -- ECDH-ES makes one recipient, and the other algorithms a list.
  abbrev Shape : KeyAlgorithm → Recipients → Type 0
  Shape ecdh_es_algorithm recipients = (public : Bytes) × (recipients ≡ one (direct lib public))
  Shape _ recipients = (list : List KeyEncryption) × (recipients ≡ many list)

  many_of :
      (encrypter made : KeyEncrypter) (recipients : Recipients) (s₀ s₁ s₂ t : rng.State)
      → pure made s₀ ≡ ok (encrypter, s₁)
      → encrypt_key lib encrypter s₂ ≡ ok (recipients, t)
      → encrypt_key lib made s₂ ≡ ok (recipients, t)
  many_of encrypter made recipients s₀ s₁ s₂ t chosen keys =
      subst (λ k. encrypt_key lib k s₂ ≡ ok (recipients, t))
        (sym (pure-eq-ok made encrypter s₀ s₁ chosen).0) keys

  Shape-keys :
      (algorithm : KeyAlgorithm) (rs : List Recipient) (encrypter : KeyEncrypter)
      (recipients : Recipients) (s s₁ s₂ t : rng.State)
      → key_encrypter lib algorithm rs s ≡ ok (encrypter, s₁)
      → encrypt_key lib encrypter s₂ ≡ ok (recipients, t)
      → Shape algorithm recipients
  unfolding key_encrypter encrypt_key
  Shape-keys ecdh_es_algorithm [] encrypter recipients s s₁ s₂ t chosen keys = cc
  Shape-keys ecdh_es_algorithm (q ∷ []) encrypter recipients s s₁ s₂ t chosen keys =
      one_of_ecdh_es q encrypter recipients s s₁ s₂ t chosen keys
  Shape-keys ecdh_es_algorithm (q ∷ _ ∷ _) encrypter recipients s s₁ s₂ t chosen keys = cc
  Shape-keys ecdh_es_a256kw [] encrypter recipients s s₁ s₂ t chosen keys = cc
  Shape-keys ecdh_es_a256kw (q ∷ qs) encrypter recipients s s₁ s₂ t chosen keys =
      let key = (rng.aes_key s).0 in
      let keys' =
        many_of encrypter (ecdh_es_a256_kw (q ∷ qs) key) recipients _ s₁ s₂ t chosen keys in
      let (list, s₃, _, h) =
        random_bind-eq-ok (encrypt_each lib (ecdh_a256kw lib key) (q ∷ qs)) _ s₂ t recipients
          keys' in
      (list, sym (pure-eq-ok (many list) recipients s₃ t h).0)
  Shape-keys ecies_algorithm [] encrypter recipients s s₁ s₂ t chosen keys = cc
  Shape-keys ecies_algorithm (q ∷ qs) encrypter recipients s s₁ s₂ t chosen keys =
      let key = (rng.aes_key s).0 in
      let keys' = many_of encrypter (ecies_es256_k (q ∷ qs) key) recipients _ s₁ s₂ t chosen keys in
      let (list, s₃, _, h) =
        random_bind-eq-ok (encrypt_each lib (ecies_es256k lib key) (q ∷ qs)) _ s₂ t recipients
          keys' in
      (list, sym (pure-eq-ok (many list) recipients s₃ t h).0)

  many_of_other :
      (algorithm : KeyAlgorithm) (recipients : Recipients)
      → algorithm ≢ ecdh_es_algorithm
      → Shape algorithm recipients
      → (list : List KeyEncryption) × (recipients ≡ many list)
  many_of_other ecdh_es_algorithm recipients other shape = absurd (other refl)
  many_of_other ecdh_es_a256kw recipients other shape = shape
  many_of_other ecies_algorithm recipients other shape = shape

  module _ (Json : Type 0) {T : Type 0} (json : Codec T) (laws : AreLawful lib) where
    built-Shape :
        (b : JweBuilder (Payload T)) (s : rng.State) (jwe : Jwe Json)
        → IsBuilt lib Json json b s jwe
        → Shape b.key_algorithm jwe.recipients
    built-Shape b s jwe built =
        Shape-keys b.key_algorithm b.recipients built.encrypter jwe.recipients s built.s₁ built.s₂
          built.t built.chosen built.keys

    pub built-IsPlain :
        (b : JweBuilder (Payload T)) (s : rng.State) (jwe : Jwe Json)
        → b.key_algorithm ≡ ecdh_es_algorithm
        → IsBuilt lib Json json b s jwe
        → IsPlain lib Json jwe
    built-IsPlain b s jwe direct_key built =
        let (public, shape) =
          subst (λ a. Shape a jwe.recipients) direct_key (built-Shape b s jwe built) in
        let c = built.content in
        record {
          enc = b.content_algorithm;
          alg = ecdh_es_algorithm;
          epk = okp_key lib public;
          encrypted_key = base64.encode_string (replicate 32 (byte x0 x0));
          aad = built.aad;
          iv = base64.encode_string c.nonce;
          ciphertext = base64.encode_string c.ciphertext;
          tag = base64.encode_string c.tag;
          shape = λ i. record {
            protected = built.protected i;
            unprotected = built.unprotected i;
            recipients = shape i;
            aad = built.aad_field i;
            iv = c.iv_field i;
            ciphertext = c.ciphertext_field i;
            tag = c.tag_field i;
          };
          serialized = built.serialized;
          key_dotless = encode-Without_dot laws.base64 _;
          iv_dotless = encode-Without_dot laws.base64 _;
          ciphertext_dotless = encode-Without_dot laws.base64 _;
          tag_dotless = encode-Without_dot laws.base64 _;
        }

    -- Where the crates keep their laws: a JWE that `build` made with ECDH-ES, whatever its content
    -- algorithm, is parsed from the compact form that `encode` printed as it was.
    pub from_str-encode-build :
        (b : JweBuilder (Payload T)) (s t : rng.State) (jwe : Jwe Json) (text : Text)
        → b.key_algorithm ≡ ecdh_es_algorithm
        → build lib Json json b s ≡ ok (jwe, t)
        → encode lib Json jwe ≡ ok text
        → from_str lib Json text ≡ ok jwe
    from_str-encode-build b s t jwe text direct_key h e =
        from_str-encode lib Json laws jwe text
          (built-IsPlain b s jwe direct_key (build-IsBuilt lib Json json laws b s t jwe h)) e

    -- Where the crates keep their laws and what JSON wrote is read back: if `build` made a JWE of a
    -- payload with A256GCM under ECDH-ES and `encode` printed it, then the text is parsed and
    -- decrypted to the payload by a receiver with the private key of its recipient.
    pub decrypt-from_str-encode :
        IsRoundTrip json
        → (b : JweBuilder (Payload T)) (s t : rng.State) (jwe : Jwe Json) (text : Text)
          (receiver : Receiver) (r : Recipient)
        → b.content_algorithm ≡ a256gcm_content
        → b.key_algorithm ≡ ecdh_es_algorithm
        → b.recipients ≡ r ∷ []
        → Holds lib ecdh_es_algorithm receiver r.public_key
        → build lib Json json b s ≡ ok (jwe, t)
        → encode lib Json jwe ≡ ok text
        → (do received ← from_str lib Json text; decrypt lib json received receiver)
          ≡ ok b.payload.value
    decrypt-from_str-encode json_laws b s t jwe text receiver r gcm direct_key single held h e =
        let parsed = from_str-encode-build b s t jwe text direct_key h e in
        rw parsed (
          decrypt-build lib Json json laws json_laws b s t jwe receiver r gcm
            (rw (direct_key, single)) (rw direct_key held) h)

    -- Where the crates keep their laws: a JWE that `build` made with a key management algorithm
    -- other than ECDH-ES has no compact form, also with one recipient.
    pub encode-build_many :
        (b : JweBuilder (Payload T)) (s t : rng.State) (jwe : Jwe Json)
        → b.key_algorithm ≢ ecdh_es_algorithm
        → build lib Json json b s ≡ ok (jwe, t)
        → encode lib Json jwe ≡ err (message "compact serialization requires a single recipient")
    encode-build_many b s t jwe other h =
        let (list, e) =
          many_of_other b.key_algorithm jwe.recipients other
            (built-Shape b s jwe (build-IsBuilt lib Json json laws b s t jwe h)) in
        encode_many lib Json jwe list e
