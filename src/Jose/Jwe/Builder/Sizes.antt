-- ===== src/Jose/Jwe/Builder/Sizes.antt =====
-- The sizes of the parts of a JWE that was built.
use infosec.Common.{ℕ, suc, ◌≡◌, refl, sym, ap, ◌∙◌, List, [], ◌∷◌, Bytes, length}
use infosec.Common.{some, ok, err, message, Error}
use infosec.Foreign.Encodings.{Codec}
use infosec.Jose.Jwe.Algorithms.{
  ContentAlgorithm, a256gcm as a256gcm_content, xchacha20_poly1305 as xchacha_content, KeyAlgorithm,
  ecdh_es as ecdh_es_algorithm, ecdh_es_a256kw, ecies_es256k as ecies_algorithm,
}
use infosec.Jose.Jwe.Data.{KeyEncryption, Recipients, one, many, Jwe}
use infosec.Jose.Jwe.Libraries.{Libraries, AreLawful}
use infosec.Jose.Jwe.Random.{Random, >>=-eq-ok, pure-eq-ok}
use infosec.Jose.Jwe.Encrypt.{Recipient, ecdh_a256kw, ecies_es256k}
use infosec.Jose.Jwe.Builder.{
  JweBuilder, Payload, KeyEncrypter, ecdh_es, ecdh_es_a256_kw, ecies_es256_k, encrypt_each,
  encrypt_key, key_encrypter, new_ecdh_es, build,
}
use infosec.Jose.Jwe.Builder.Built.{nonce_length, scheme, build-IsBuilt}
use infosec.Jose.Jwe.Builder.Ready.{IsCount}

-- The entries of a JWE.
abbrev pub entries : Recipients → List KeyEncryption
entries (one e) = e ∷ []
entries (many list) = list

-- Why a number of recipients is refused: there is none, or ECDH-ES has more than one.
pub data Refused : KeyAlgorithm → List Recipient → Error → Type 0 where
  none_set : (a : KeyAlgorithm) → Refused a [] (message "no recipients set")
  several :
      (p q : Recipient) (rs : List Recipient)
      → Refused ecdh_es_algorithm (p ∷ q ∷ rs) (message "ECDH-ES requires a single recipient")

IsCount-or_Refused :
    (a : KeyAlgorithm) (rs : List Recipient) → ¬ IsCount a rs → (e : Error) × Refused a rs e
IsCount-or_Refused a [] n = (_, none_set a)
IsCount-or_Refused ecdh_es_algorithm (r ∷ []) n = absurd (n (r, refl))
IsCount-or_Refused ecdh_es_algorithm (p ∷ q ∷ rs) n = (_, several p q rs)
IsCount-or_Refused ecdh_es_a256kw (r ∷ rs) n = absurd (n (r, rs, refl))
IsCount-or_Refused ecies_algorithm (r ∷ rs) n = absurd (n (r, rs, refl))

module _ (lib : Libraries) where
  open lib use {base64, rng}

  pub key_encrypter-refuses :
      (a : KeyAlgorithm) (rs : List Recipient) (e : Error) (s : rng.State)
      → Refused a rs e
      → key_encrypter lib a rs s ≡ err e
  unfolding key_encrypter
  key_encrypter-refuses a rs e s (none_set _) = refl
  key_encrypter-refuses a rs e s (several p q qs) = refl

  -- A number of recipients that the key management algorithm does not take is an error that says
  -- which it is, whatever the payload and the generators are: none at all, or more than one for
  -- ECDH-ES.
  pub build_refuses :
      (Json : Type 0) {T : Type 0} (json : Codec T) (b : JweBuilder (Payload T)) (s : rng.State)
      → ¬ IsCount b.key_algorithm b.recipients
      → (e : Error) × Refused b.key_algorithm b.recipients e × (build lib Json json b s ≡ err e)
  unfolding build
  build_refuses Json json b s n =
      let (e, r) = IsCount-or_Refused b.key_algorithm b.recipients n in
      (e, r, rw (key_encrypter-refuses b.key_algorithm b.recipients e s r) refl)

  length-encrypt_each :
      (f : Recipient → Random rng.State KeyEncryption) (rs : List Recipient)
      (list : List KeyEncryption) (s t : rng.State)
      → encrypt_each lib f rs s ≡ ok (list, t)
      → length list ≡ length rs
  unfolding encrypt_each
  length-encrypt_each f [] list s t h = ap length (sym (pure-eq-ok [] list s t h).0)
  length-encrypt_each f (r ∷ rs) list s t h =
      let (entry, s₁, _, h₁) = >>=-eq-ok (f r) _ s t list h in
      let (rest, s₂, e₂, h₂) = >>=-eq-ok (encrypt_each lib f rs) _ s₁ t list h₁ in
      ap length (sym (pure-eq-ok (entry ∷ rest) list s₂ t h₂).0)
      ∙ ap suc (length-encrypt_each f rs rest s₁ s₂ e₂)

  encrypter_recipients : KeyEncrypter → ℕ
  encrypter_recipients (ecdh_es _ _) = 1
  encrypter_recipients (ecdh_es_a256_kw rs _) = length rs
  encrypter_recipients (ecies_es256_k rs _) = length rs

  length-entries :
      (k : KeyEncrypter) (rs : Recipients) (s t : rng.State)
      → encrypt_key lib k s ≡ ok (rs, t)
      → length (entries rs) ≡ encrypter_recipients k
  unfolding encrypt_key encrypter_recipients
  length-entries (ecdh_es p q) rs s t h =
      ap (λ x. length (entries x)) (sym (pure-eq-ok _ rs s t h).0)
  length-entries (ecdh_es_a256_kw ps q) rs s t h =
      let (list, s₁, e, h₁) = >>=-eq-ok (encrypt_each lib (ecdh_a256kw lib q) ps) _ s t rs h in
      ap (λ x. length (entries x)) (sym (pure-eq-ok (many list) rs s₁ t h₁).0)
      ∙ length-encrypt_each _ ps list s s₁ e
  length-entries (ecies_es256_k ps q) rs s t h =
      let (list, s₁, e, h₁) = >>=-eq-ok (encrypt_each lib (ecies_es256k lib q) ps) _ s t rs h in
      ap (λ x. length (entries x)) (sym (pure-eq-ok (many list) rs s₁ t h₁).0)
      ∙ length-encrypt_each _ ps list s s₁ e

  length_chosen :
      (a : KeyAlgorithm) (rs : List Recipient) (k : KeyEncrypter) (s t : rng.State)
      → key_encrypter lib a rs s ≡ ok (k, t)
      → encrypter_recipients k ≡ length rs
  unfolding key_encrypter new_ecdh_es encrypter_recipients
  length_chosen a [] k s t h = cc
  length_chosen ecdh_es_algorithm (r ∷ []) k s t h =
      ap encrypter_recipients (sym (pure-eq-ok _ k _ t h).0)
  length_chosen ecdh_es_algorithm (p ∷ q ∷ rs) k s t h = cc
  length_chosen ecdh_es_a256kw (r ∷ rs) k s t h =
      ap encrypter_recipients (sym (pure-eq-ok _ k _ t h).0)
  length_chosen ecies_algorithm (r ∷ rs) k s t h =
      ap encrypter_recipients (sym (pure-eq-ok _ k _ t h).0)

  -- The sizes: the nonce of the content algorithm, a tag of 16 bytes, an entry per recipient.
  pub record HasSizes (Json : Type 0) (n : ℕ) (count : ℕ) (jwe : Jwe Json) : Type 0 where
    pub iv : Bytes
    pub iv_decoded : base64.decode_vec jwe.iv ≡ some iv
    pub iv_length : length iv ≡ n
    pub tag : Bytes
    pub tag_decoded : base64.decode_vec jwe.tag ≡ some tag
    pub tag_length : length tag ≡ 16
    pub entry_count : length (entries jwe.recipients) ≡ count

  length_tag :
      AreLawful lib
      → (a : ContentAlgorithm) (key nonce aad plaintext ciphertext tag : Bytes)
      → (scheme lib a).encrypt key nonce aad plaintext ≡ some (ciphertext, tag)
      → length tag ≡ 16
  length_tag laws a256gcm_content key nonce aad plaintext ciphertext tag h =
      laws.aes_gcm.tag_length _ _ _ _ _ _ h
  length_tag laws xchacha_content key nonce aad plaintext ciphertext tag h =
      laws.xchacha.tag_length _ _ _ _ _ _ h

  -- Where the crates keep their laws: the nonce of a JWE that `build` returned has 12 bytes under
  -- A256GCM and 24 under XChaCha20-Poly1305, its tag has 16 bytes, and it has as many entries as
  -- the builder has recipients.
  pub HasSizes-build :
      AreLawful lib
      → (Json : Type 0) {T : Type 0} (json : Codec T) (b : JweBuilder (Payload T)) (s t : rng.State)
        (jwe : Jwe Json)
      → build lib Json json b s ≡ ok (jwe, t)
      → HasSizes Json (nonce_length b.content_algorithm) (length b.recipients) jwe
  HasSizes-build laws Json json b s t jwe h =
      let built = build-IsBuilt lib Json json laws b s t jwe h in
      let c = built.content in
      record {
        iv = c.nonce;
        iv_decoded = rw c.iv_field (laws.base64.decode-encode c.nonce);
        iv_length = c.nonce_size;
        tag = c.tag;
        tag_decoded = rw c.tag_field (laws.base64.decode-encode c.tag);
        tag_length = length_tag laws b.content_algorithm _ _ _ _ _ _ c.encrypted;
        entry_count =
            length-entries built.encrypter jwe.recipients built.s₂ built.t built.keys
            ∙ length_chosen b.key_algorithm b.recipients built.encrypter s built.s₁ built.chosen;
      }
