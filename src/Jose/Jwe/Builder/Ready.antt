-- ===== src/Jose/Jwe/Builder/Ready.antt =====
-- jose/jwe/encrypt.rs: the key material of the recipients.
use mathlib.Core.Path.{subst}
use infosec.Common.{ℕ, sym, All-map, ◌≡◌, refl, some, List, [], ◌∷◌, Bytes, length, All}
use infosec.Common.{ok}
use infosec.Foreign.Encryption.{Aead}
use infosec.Jose.Jwe.Algorithms.{
  KeyAlgorithm, ecdh_es as ecdh_es_algorithm, ecdh_es_a256kw, ecies_es256k as ecies_algorithm,
}
use infosec.Jose.Jwe.Key.{ecies_public}
use infosec.Jose.Jwe.Data.{KeyEncryption, Recipients, one, many}
use infosec.Jose.Jwe.Libraries.{Libraries, AreLawful}
use infosec.Jose.Jwe.Random.{Random}
use infosec.Jose.Jwe.Encrypt.{Recipient, kw_entry, ecdh_a256kw, ecies_entry, ecies_es256k}
use infosec.Jose.Jwe.Builder.{
  KeyEncrypter, ecdh_es, ecdh_es_a256_kw, ecies_es256_k, cek, direct, new_ecdh_es, encrypt_each,
  encrypt_key, key_encrypter,
}

-- The cipher encrypts everything under keys and nonces of the right length.
abbrev pub Seals : ℕ → Aead → Type 0
Seals n aead =
    (key nonce aad plaintext : Bytes)
    → length key ≡ 32
    → length nonce ≡ n
    → (ciphertext : Bytes) × (tag : Bytes) × (aead.encrypt key nonce aad plaintext
        ≡ some (ciphertext, tag))

-- No crate fails: ciphers and key wrap at the right lengths, and the agreement on secp256k1.
pub record NeverFail (lib : Libraries) : Type 0 where
  pub aes_gcm : Seals 12 lib.aes_gcm
  pub xchacha : Seals 24 lib.xchacha
  pub wrap :
      (kek key : Bytes)
      → length kek ≡ 32
      → length key ≡ 32
      → (wrapped : Bytes) × (lib.key_wrap.wrap kek key ≡ some wrapped)
  pub encapsulate :
      (e : lib.ecies.SecretKey) (key : lib.ecies.PublicKey)
      → (secret : Bytes) × (lib.ecies.encapsulate e key ≡ some secret)

-- ECDH-ES takes one recipient, the other algorithms take at least one.
abbrev pub IsCount : KeyAlgorithm → List Recipient → Type 0
IsCount ecdh_es_algorithm rs = (r : Recipient) × (rs ≡ r ∷ [])
IsCount _ rs = (r : Recipient) × (rest : List Recipient) × (rs ≡ r ∷ rest)

module _ (lib : Libraries) where
  open lib use {base64, protected_json, x25519, ecies, rng}

  -- ECIES-ES256K needs a point of the curve; X25519 takes every key.
  abbrev pub HasKey : KeyAlgorithm → Recipient → Type 0
  HasKey ecies_algorithm r = (key : ecies.PublicKey) × (ecies_public ecies r.public_key ≡ ok key)
  HasKey _ r = Unit

  pub IsCount-key_encrypter :
      (algorithm : KeyAlgorithm) (rs : List Recipient) (encrypter : KeyEncrypter) (s t : rng.State)
      → key_encrypter lib algorithm rs s ≡ ok (encrypter, t)
      → IsCount algorithm rs
  unfolding key_encrypter
  IsCount-key_encrypter ecdh_es_algorithm [] encrypter s t h = cc
  IsCount-key_encrypter ecdh_es_algorithm (r ∷ []) encrypter s t h = (r, refl)
  IsCount-key_encrypter ecdh_es_algorithm (r ∷ _ ∷ _) encrypter s t h = cc
  IsCount-key_encrypter ecdh_es_a256kw [] encrypter s t h = cc
  IsCount-key_encrypter ecdh_es_a256kw (r ∷ rs) encrypter s t h = (r, rs, refl)
  IsCount-key_encrypter ecies_algorithm [] encrypter s t h = cc
  IsCount-key_encrypter ecies_algorithm (r ∷ rs) encrypter s t h = (r, rs, refl)

  module _ (laws : AreLawful lib) (total : NeverFail lib) where
    -- Each recipient gets an entry if the step for a recipient never fails.
    encrypt_each_total :
        (f : Recipient → Random rng.State KeyEncryption) (rs : List Recipient)
        → All
            (λ r. (s : rng.State) → (ke : KeyEncryption) × (t : rng.State) × (f r s ≡ ok (ke, t)))
            rs
        → (s : rng.State)
        → (list : List KeyEncryption) × (t : rng.State) × (encrypt_each lib f rs s ≡ ok (list, t))
    unfolding encrypt_each
    encrypt_each_total f [] all s = ([], s, refl)
    encrypt_each_total f (r ∷ rs) all s =
        let (ke, s₁, e) = all.0 s in
        let (list, t, e') = encrypt_each_total f rs all.1 s₁ in (ke ∷ list, t, rw (e, e'))

    ecdh_a256kw_total :
        (key : Bytes) (r : Recipient)
        → length key ≡ 32
        → (s : rng.State)
        → (ke : KeyEncryption) × (t : rng.State) × (ecdh_a256kw lib key r s ≡ ok (ke, t))
    unfolding ecdh_a256kw
    ecdh_a256kw_total key r size s =
        let (e, t) = rng.ephemeral_secret s in
        let (wrapped, w) =
          total.wrap (x25519.ephemeral_dh e r.public_key.x) key
            (laws.x25519.dh_length e r.public_key.x) size in
        (kw_entry lib r (x25519.ephemeral_public e) wrapped, t, rw w)

    ecies_es256k_total :
        (key : Bytes) (r : Recipient)
        → HasKey ecies_algorithm r
        → (s : rng.State)
        → (ke : KeyEncryption) × (t : rng.State) × (ecies_es256k lib key r s ≡ ok (ke, t))
    unfolding ecies_es256k
    ecies_es256k_total key r (public, p) s =
        let ((e, ephemeral), s₁) = rng.keypair s in
        let (iv, t) = rng.aes_nonce s₁ in
        let (secret, a) = total.encapsulate e public in
        let (encrypted, tag, c) =
          total.aes_gcm secret iv [] key (laws.ecies.secret_length e public secret a)
            (laws.rng.nonce_length s₁) in
        (ecies_entry lib r (ecies.serialize ephemeral) iv tag encrypted, t, rw (p, a, c))

    each_a256kw :
        (key : Bytes) (rs : List Recipient)
        → length key ≡ 32
        → All
            (λ r.
              (s : rng.State)
              → (ke : KeyEncryption) × (t : rng.State) × (ecdh_a256kw lib key r s ≡ ok (ke, t)))
            rs
    each_a256kw key [] size = tt
    each_a256kw key (r ∷ rs) size = (ecdh_a256kw_total key r size, each_a256kw key rs size)

    -- An encrypter with a key of 32 bytes that has an entry for each recipient.
    pub record IsReady (algorithm : KeyAlgorithm) (rs : List Recipient) (s : rng.State)
        : Type 0 where
      pub encrypter : KeyEncrypter
      pub t : rng.State
      pub chosen : key_encrypter lib algorithm rs s ≡ ok (encrypter, t)
      pub size : length (cek encrypter) ≡ 32
      pub keys :
          (s : rng.State)
          → (recipients : Recipients) × (t : rng.State) × (encrypt_key lib encrypter s
              ≡ ok (recipients, t))

    IsReady-direct : (r : Recipient) (s : rng.State) → IsReady ecdh_es_algorithm (r ∷ []) s
    unfolding key_encrypter new_ecdh_es encrypt_key
    IsReady-direct r s =
        let (e, t) = rng.ephemeral_secret s in
        record {
          encrypter = ecdh_es (x25519.ephemeral_public e) (x25519.ephemeral_dh e r.public_key.x);
          t = t;
          chosen = refl;
          size = laws.x25519.dh_length e r.public_key.x;
          keys = λ s. (one (direct lib (x25519.ephemeral_public e)), s, refl);
        }

    IsReady-a256kw :
        (r : Recipient) (rs : List Recipient) (s : rng.State) → IsReady ecdh_es_a256kw (r ∷ rs) s
    unfolding key_encrypter encrypt_key
    IsReady-a256kw r rs s =
        let key = (rng.aes_key s).0 in
        record {
          encrypter = ecdh_es_a256_kw (r ∷ rs) key;
          t = (rng.aes_key s).1;
          chosen = refl;
          size = laws.rng.key_length s;
          keys = λ s'.
              let (list, t, e) =
                encrypt_each_total (ecdh_a256kw lib key) (r ∷ rs)
                  (each_a256kw key (r ∷ rs) (laws.rng.key_length s)) s' in
              (many list, t, rw e);
        }

    IsReady-ecies :
        (r : Recipient) (rs : List Recipient) (s : rng.State)
        → All (HasKey ecies_algorithm) (r ∷ rs)
        → IsReady ecies_algorithm (r ∷ rs) s
    unfolding key_encrypter encrypt_key
    IsReady-ecies r rs s all =
        let key = (rng.aes_key s).0 in
        record {
          encrypter = ecies_es256_k (r ∷ rs) key;
          t = (rng.aes_key s).1;
          chosen = refl;
          size = laws.rng.key_length s;
          keys = λ s'.
              let (list, t, e) =
                encrypt_each_total (ecies_es256k lib key) (r ∷ rs)
                  (All-map (ecies_es256k_total key) (r ∷ rs) all) s' in
              (many list, t, rw e);
        }

    pub ready :
        (algorithm : KeyAlgorithm) (rs : List Recipient) (s : rng.State)
        → IsCount algorithm rs
        → All (HasKey algorithm) rs
        → IsReady algorithm rs s
    ready ecdh_es_algorithm rs s (r, e) all =
        subst (λ l. IsReady ecdh_es_algorithm l s) (sym e) (IsReady-direct r s)
    ready ecdh_es_a256kw rs s (r, rest, e) all =
        subst (λ l. IsReady ecdh_es_a256kw l s) (sym e) (IsReady-a256kw r rest s)
    ready ecies_algorithm rs s (r, rest, e) all =
        subst (λ l. IsReady ecies_algorithm l s) (sym e)
          (IsReady-ecies r rest s (subst (All (HasKey ecies_algorithm)) e all))
