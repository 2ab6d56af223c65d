-- ===== src/Jose/Jwe/Opening.antt =====
-- jose/jwe/encrypt.rs and jose/jwe/decrypt.rs: an entry made for a recipient, and the receiver.
use mathlib.Core.Path.{subst}
use mathlib.Core.Option.{some-injective}
use infosec.Common.{◌≡◌, refl, sym, Option, none, some, List, [], ◌∷◌, Bytes, Text, length}
use infosec.Common.{ok}
use infosec.Traits.{Receiver}
use infosec.Jose.Jwe.Algorithms.{
  KeyAlgorithm, ecdh_es as ecdh_es_algorithm, ecdh_es_a256kw, ecies_es256k as ecies_algorithm,
}
use infosec.Jose.Jwe.Key.{PublicKey}
use infosec.Jose.Jwe.Data.{KeyEncryption, Recipients, one, many}
use infosec.Jose.Jwe.Libraries.{Libraries, AreLawful}
use infosec.Jose.Jwe.Random.{pure, pure-eq-ok, >>=-eq-ok as random_bind-eq-ok}
use infosec.Jose.Jwe.Encrypt.Named.{kid-ecdh_a256kw, kid-ecies_es256k}
use infosec.Jose.Jwe.Encrypt.{Recipient, ecdh_a256kw, ecies_es256k}
use infosec.Jose.Jwe.Builder.{
  KeyEncrypter, cek, direct, ecdh_es, ecdh_es_a256_kw, ecies_es256_k, encrypt_each, encrypt_key,
  key_encrypter, new_ecdh_es,
}
use infosec.Jose.Jwe.Builder.Entries.{recipient_of, find-encrypt_each}
use infosec.Jose.Jwe.Decrypt.{find, find_recipient}
use infosec.Jose.Jwe.Decrypt.Keys.{
  HoldsX25519, HoldsSecp256k1, open_key, open_key-direct, open_key-a256kw, open_key-ecies,
}

-- Whom the entry is for that a receiver takes: under ECDH-ES the only recipient, whatever its key
-- ID, and otherwise the first one with the receiver's key ID.
abbrev pub addressee : KeyAlgorithm → Text → List Recipient → Option Recipient
addressee ecdh_es_algorithm key_id (r ∷ []) = some r
addressee ecdh_es_algorithm key_id _ = none
addressee ecdh_es_a256kw key_id rs = recipient_of key_id rs
addressee ecies_algorithm key_id rs = recipient_of key_id rs

module _ (lib : Libraries) where
  open lib use {x25519, rng}

  -- The receiver has the private key that the algorithm needs.
  abbrev pub Holds : KeyAlgorithm → Receiver → PublicKey → Type 0
  Holds ecdh_es_algorithm = HoldsX25519 lib
  Holds ecdh_es_a256kw = HoldsX25519 lib
  Holds ecies_algorithm = HoldsSecp256k1 lib

  -- The receiver finds an entry in the recipients, and a key of 32 bytes in the entry.
  pub record Opens (receiver : Receiver) (recipients : Recipients) (key : Bytes) : Type 0 where
    pub entry : KeyEncryption
    pub found : find_recipient receiver.key_id recipients ≡ ok entry
    pub opened : open_key lib receiver entry ≡ ok key
    pub size : length key ≡ 32

  module _ (laws : AreLawful lib) (receiver : Receiver) where
    ecdh_es-Opens :
        (r : Recipient) (encrypter : KeyEncrypter) (recipients : Recipients) (s s₁ s₂ t : rng.State)
        → HoldsX25519 lib receiver r.public_key
        → new_ecdh_es lib r s ≡ ok (encrypter, s₁)
        → encrypt_key lib encrypter s₂ ≡ ok (recipients, t)
        → Opens receiver recipients (cek encrypter)
    unfolding new_ecdh_es encrypt_key find_recipient
    ecdh_es-Opens r encrypter recipients s s₁ s₂ t held chosen keys =
        let e = (rng.ephemeral_secret s).0 in
        let public = x25519.ephemeral_public e in
        let key = x25519.ephemeral_dh e r.public_key.x in
        let made = (pure-eq-ok (ecdh_es public key) encrypter _ s₁ chosen).0 in
        let listed =
          (pure-eq-ok (one (direct lib public)) recipients s₂ t
            (subst (λ k. encrypt_key lib k s₂ ≡ ok (recipients, t)) (sym made) keys)).0 in
        subst (λ k. Opens receiver recipients (cek k)) made
          (subst (λ rs. Opens receiver rs key) listed
            (record {
              entry = direct lib public;
              found = refl;
              opened = open_key-direct lib laws receiver r.public_key e held;
              size = laws.x25519.dh_length e r.public_key.x;
            }))

    many-Opens :
        (list : List KeyEncryption) (entry : KeyEncryption) (key : Bytes)
        → find receiver.key_id list ≡ some entry
        → open_key lib receiver entry ≡ ok key
        → length key ≡ 32
        → Opens receiver (many list) key
    unfolding find_recipient
    many-Opens list entry key found opened size = record {
      entry = entry;
      found = rw found;
      opened = opened;
      size = size;
    }

    -- What a drawn key of an encrypter with several recipients gives each of them.
    drawn_key :
        (rs : List Recipient) (encrypter made : KeyEncrypter) (s₀ s₁ : rng.State)
        → pure made s₀ ≡ ok (encrypter, s₁)
        → made ≡ encrypter
    drawn_key rs encrypter made s₀ s₁ h = (pure-eq-ok made encrypter s₀ s₁ h).0

    a256kw-Opens :
        (r : Recipient) (rs : List Recipient) (key : Bytes) (recipients : Recipients)
        (s t : rng.State)
        → recipient_of receiver.key_id rs ≡ some r
        → HoldsX25519 lib receiver r.public_key
        → length key ≡ 32
        → encrypt_key lib (ecdh_es_a256_kw rs key) s ≡ ok (recipients, t)
        → Opens receiver recipients key
    unfolding encrypt_key
    a256kw-Opens r rs key recipients s t addressed held size keys =
        let (list, s₁, each, h) =
          random_bind-eq-ok (encrypt_each lib (ecdh_a256kw lib key) rs) _ s t recipients keys in
        let (entry, s', t', found, made) =
          find-encrypt_each lib (ecdh_a256kw lib key) (kid-ecdh_a256kw lib key) rs list s s₁
            receiver.key_id r each addressed in
        subst (λ x. Opens receiver x key) (pure-eq-ok (many list) recipients s₁ t h).0
          (many-Opens list entry key found
            (open_key-a256kw lib laws receiver r key entry s' t' held size made) size)

    ecies-Opens :
        (r : Recipient) (rs : List Recipient) (key : Bytes) (recipients : Recipients)
        (s t : rng.State)
        → recipient_of receiver.key_id rs ≡ some r
        → HoldsSecp256k1 lib receiver r.public_key
        → length key ≡ 32
        → encrypt_key lib (ecies_es256_k rs key) s ≡ ok (recipients, t)
        → Opens receiver recipients key
    unfolding encrypt_key
    ecies-Opens r rs key recipients s t addressed held size keys =
        let (list, s₁, each, h) =
          random_bind-eq-ok (encrypt_each lib (ecies_es256k lib key) rs) _ s t recipients keys in
        let (entry, s', t', found, made) =
          find-encrypt_each lib (ecies_es256k lib key) (kid-ecies_es256k lib key) rs list s s₁
            receiver.key_id r each addressed in
        subst (λ x. Opens receiver x key) (pure-eq-ok (many list) recipients s₁ t h).0
          (many-Opens list entry key found
            (open_key-ecies lib laws receiver r key entry s' t' held size made) size)

    -- Whatever the algorithm, the addressee can open its entry.
    pub key_encrypter-Opens :
        (algorithm : KeyAlgorithm) (rs : List Recipient) (r : Recipient) (encrypter : KeyEncrypter)
        (recipients : Recipients) (s s₁ s₂ t : rng.State)
        → addressee algorithm receiver.key_id rs ≡ some r
        → Holds algorithm receiver r.public_key
        → key_encrypter lib algorithm rs s ≡ ok (encrypter, s₁)
        → encrypt_key lib encrypter s₂ ≡ ok (recipients, t)
        → Opens receiver recipients (cek encrypter)
    unfolding key_encrypter
    key_encrypter-Opens ecdh_es_algorithm [] r encrypter recipients s s₁ s₂ t a held chosen keys =
        cc
    key_encrypter-Opens ecdh_es_algorithm (q ∷ []) r encrypter recipients s s₁ s₂ t a held chosen
          keys =
        ecdh_es-Opens q encrypter recipients s s₁ s₂ t (rw (some-injective q r a) held) chosen keys
    key_encrypter-Opens ecdh_es_algorithm (q ∷ _ ∷ _) r encrypter recipients s s₁ s₂ t a held chosen
          keys =
        cc
    key_encrypter-Opens ecdh_es_a256kw [] r encrypter recipients s s₁ s₂ t a held chosen keys = cc
    key_encrypter-Opens ecdh_es_a256kw (q ∷ qs) r encrypter recipients s s₁ s₂ t a held chosen
          keys =
        let key = (rng.aes_key s).0 in
        let made = drawn_key (q ∷ qs) encrypter (ecdh_es_a256_kw (q ∷ qs) key) _ s₁ chosen in
        subst (λ k. Opens receiver recipients (cek k)) made
          (a256kw-Opens r (q ∷ qs) key recipients s₂ t a held (laws.rng.key_length s)
            (subst (λ k. encrypt_key lib k s₂ ≡ ok (recipients, t)) (sym made) keys))
    key_encrypter-Opens ecies_algorithm [] r encrypter recipients s s₁ s₂ t a held chosen keys = cc
    key_encrypter-Opens ecies_algorithm (q ∷ qs) r encrypter recipients s s₁ s₂ t a held chosen
          keys =
        let key = (rng.aes_key s).0 in
        let made = drawn_key (q ∷ qs) encrypter (ecies_es256_k (q ∷ qs) key) _ s₁ chosen in
        subst (λ k. Opens receiver recipients (cek k)) made
          (ecies-Opens r (q ∷ qs) key recipients s₂ t a held (laws.rng.key_length s)
            (subst (λ k. encrypt_key lib k s₂ ≡ ok (recipients, t)) (sym made) keys))
