-- ===== src/Jose/Jwe/Decrypt/Keys.antt =====
-- jose/jwe/encrypt.rs and jose/jwe/decrypt.rs: the content encryption key, encrypted and decrypted.
use infosec.Common.{
  Option-cases, inl, inr, ◌≡◌, sym, ap, ◌∙◌, none, some, [], ◌∷◌, ◌++◌, Bytes, length,
  length-append, arith,
}
use infosec.Common.{Outcome, ok, ◌>>=◌}
use infosec.Traits.{Receiver}
use infosec.Jose.Jwe.Key.{
  PublicKey, SecretKey, tag_pubkey_full, from_ecies, ecies_public, ecies_secret, shared_secret,
}
use infosec.Jose.Jwe.Key.Encoding.{slice-x, slice-y, key_of_32, key_of_65}
use infosec.Jose.Jwe.Data.{KeyEncryption}
use infosec.Jose.Jwe.Libraries.{Libraries, AreLawful}
use infosec.Jose.Jwe.Random.{pure-eq-ok}
use infosec.Jose.Jwe.Encrypt.{
  Recipient, okp_key, ec_key, kw_entry, ecies_entry, ecdh_a256kw, ecies_es256k,
}
use infosec.Jose.Jwe.Builder.{direct}
use infosec.Jose.Jwe.Decrypt.{sender_key, find_cek}

module _ (lib : Libraries) where
  open lib use {base64, x25519, ecies, rng, key_wrap, aes_gcm}

  -- The receiver derives its secrets with the private X25519 key of the public key.
  pub record HoldsX25519 (receiver : Receiver) (key : PublicKey) : Type 0 where
    pub secret : SecretKey
    pub derives :
        (sender : PublicKey)
        → receiver.shared_secret sender ≡ shared_secret x25519 ecies secret sender
    pub public : key.x ≡ x25519.static_public (x25519.static_from secret.bytes)

  -- The receiver derives its secrets with the private secp256k1 key of the public key.
  pub record HoldsSecp256k1 (receiver : Receiver) (key : PublicKey) : Type 0 where
    pub secret : SecretKey
    pub own : ecies.SecretKey
    pub parsed : ecies.parse_secret secret.bytes ≡ some own
    pub derives :
        (sender : PublicKey)
        → receiver.shared_secret sender ≡ shared_secret x25519 ecies secret sender
    pub public : key ≡ from_ecies ecies (ecies.public_of own)

  -- How `decrypt` finds the content encryption key in its recipient's entry.
  abbrev pub open_key : Receiver → KeyEncryption → Outcome Bytes
  open_key receiver recipient = do
    sender_public ← sender_key lib recipient.header.epk
    shared_secret ← receiver.shared_secret sender_public
    find_cek lib recipient shared_secret

  module _ (laws : AreLawful lib) where
    open laws use {
      base64 as codes_laws, x25519 as x25519_laws, ecies as ecies_laws, key_wrap as key_wrap_laws,
      aes_gcm as gcm_laws, arrays as array_laws, rng as rng_laws,
    }

    sender_key-okp :
        (key : Bytes)
        → length key ≡ 32
        → sender_key lib (okp_key lib key) ≡ ok (record { x = key; y = none })
    unfolding sender_key
    sender_key-okp key n = rw codes_laws.decode-encode (key_of_32 key n)

    sender_key-ec :
        (key : ecies.PublicKey)
        → sender_key lib (ec_key lib (ecies.serialize key)) ≡ ok (from_ecies ecies key)
    unfolding sender_key from_ecies
    sender_key-ec key =
        let (x, y, e, nx, ny) = ecies_laws.serialized key in
        rw (e, slice-x tag_pubkey_full x y nx, slice-y tag_pubkey_full x y nx ny)
          (simp codes_laws.decode-encode (key_of_65 tag_pubkey_full x y nx ny))

    pub ecies_public-from_ecies :
        (key : ecies.PublicKey) → ecies_public ecies (from_ecies ecies key) ≡ ok key
    unfolding ecies_public from_ecies
    ecies_public-from_ecies key =
        let (x, y, e, nx, ny) = ecies_laws.serialized key in
        let n : length (x ++ y) ≡ 64 = omega (arith, length-append {0} x y) in
        let p : ecies.parse_public (tag_pubkey_full ∷ (x ++ y)) ≡ some key =
          rw e at (ecies_laws.parse-serialize key) in
        rw (e, slice-x tag_pubkey_full x y nx, slice-y tag_pubkey_full x y nx ny, n) (rw p)

    -- ECDH-ES: the receiver agrees on the sender's key.
    pub open_key-direct :
        (receiver : Receiver) (key : PublicKey) (e : x25519.EphemeralSecret)
        → HoldsX25519 receiver key
        → open_key receiver (direct lib (x25519.ephemeral_public e))
          ≡ ok (x25519.ephemeral_dh e key.x)
    unfolding find_cek shared_secret
    open_key-direct receiver key e held = rw (
      sender_key-okp _ (x25519_laws.public_length e),
      held.derives,
      held.public,
      x25519_laws.agree,
    )

    ecdh_a256kw-eq-ok :
        (cek : Bytes) (recipient : Recipient) (ke : KeyEncryption) (s t : rng.State)
        → ecdh_a256kw lib cek recipient s ≡ ok (ke, t)
        → (e : x25519.EphemeralSecret) × (wrapped : Bytes) × (key_wrap.wrap
              (x25519.ephemeral_dh e recipient.public_key.x)
              cek
            ≡ some wrapped)
          × (ke ≡ kw_entry lib recipient (x25519.ephemeral_public e) wrapped)
    unfolding ecdh_a256kw
    ecdh_a256kw-eq-ok cek recipient ke s t h =
        let e = (rng.ephemeral_secret s).0 in
        elim (Option-cases (key_wrap.wrap (x25519.ephemeral_dh e recipient.public_key.x) cek)) [
          | inl n ↦ cc
          | inr (wrapped, w) ↦ (e, wrapped, w, ground arith)
        ]

    open_kw_entry :
        (receiver : Receiver) (recipient : Recipient) (cek wrapped : Bytes)
        (e : x25519.EphemeralSecret)
        → HoldsX25519 receiver recipient.public_key
        → length cek ≡ 32
        → key_wrap.wrap (x25519.ephemeral_dh e recipient.public_key.x) cek ≡ some wrapped
        → open_key receiver (kw_entry lib recipient (x25519.ephemeral_public e) wrapped) ≡ ok cek
    unfolding find_cek shared_secret
    open_kw_entry receiver recipient cek wrapped e held size w =
        let agreed = ap (λ k. x25519.ephemeral_dh e k) held.public ∙ x25519_laws.agree e _ in
        let n = x25519_laws.dh_length e recipient.public_key.x in
        rw (
          sender_key-okp _ (x25519_laws.public_length e),
          held.derives,
          ← agreed,
          codes_laws.decode-encode,
          key_wrap_laws.unwrap-wrap _ _ _ n w,
          size,
        )

    -- ECDH-ES+A256KW: the receiver agrees on the wrapping key, and unwraps.
    pub open_key-a256kw :
        (receiver : Receiver) (recipient : Recipient) (cek : Bytes) (ke : KeyEncryption)
        (s t : rng.State)
        → HoldsX25519 receiver recipient.public_key
        → length cek ≡ 32
        → ecdh_a256kw lib cek recipient s ≡ ok (ke, t)
        → open_key receiver ke ≡ ok cek
    open_key-a256kw receiver recipient cek ke s t held size h =
        let (e, wrapped, w, built) = ecdh_a256kw-eq-ok cek recipient ke s t h in
        rw built (open_kw_entry receiver recipient cek wrapped e held size w)

    shared_secret-from_ecies :
        (secret : SecretKey) (own : ecies.SecretKey) (key : ecies.PublicKey) (shared : Bytes)
        → ecies.parse_secret secret.bytes ≡ some own
        → ecies.decapsulate key own ≡ some shared
        → shared_secret x25519 ecies secret (from_ecies ecies key) ≡ ok (record { bytes = shared })
    unfolding shared_secret from_ecies ecies_secret
    shared_secret-from_ecies secret own key shared p d = rw (ecies_public-from_ecies, p, d)

    -- What `ecies_es256k` did for a recipient with a given key.
    record IsEciesEntry (recipient : Recipient) (cek : Bytes) (key : ecies.PublicKey)
        (ke : KeyEncryption) : Type 0 where
      secret_key : ecies.SecretKey
      shared : Bytes
      agreed : ecies.encapsulate secret_key key ≡ some shared
      iv : Bytes
      iv_size : length iv ≡ 12
      encrypted_key : Bytes
      tag : Bytes
      encrypted : aes_gcm.encrypt shared iv [] cek ≡ some (encrypted_key, tag)
      built :
          ke
          ≡ ecies_entry lib recipient
              (ecies.serialize (ecies.public_of secret_key))
              iv
              tag
              encrypted_key

    ecies_es256k-eq-ok :
        (cek : Bytes) (recipient : Recipient) (ke : KeyEncryption) (s t : rng.State)
        (key : ecies.PublicKey)
        → ecies_public ecies recipient.public_key ≡ ok key
        → ecies_es256k lib cek recipient s ≡ ok (ke, t)
        → IsEciesEntry recipient cek key ke
    unfolding ecies_es256k
    ecies_es256k-eq-ok cek recipient ke s t key public h =
        let secret_key = (rng.keypair s).0.0 in
        let s₁ = (rng.keypair s).1 in
        let iv = (rng.aes_nonce s₁).0 in
        elim (Option-cases (ecies.encapsulate secret_key key)) [
          | inl n ↦ cc (rw (public, n) at h)
          | inr (shared, a) ↦ elim (Option-cases (aes_gcm.encrypt shared iv [] cek)) [
            | inl n ↦ cc (rw (public, a, n) at h)
            | inr ((encrypted_key, tag), e) ↦ record {
              secret_key = secret_key;
              shared = shared;
              agreed = a;
              iv = iv;
              iv_size = rng_laws.nonce_length s₁;
              encrypted_key = encrypted_key;
              tag = tag;
              encrypted = e;
              built =
                  sym (pure-eq-ok _ ke _ t (rw (public, a, e) at h)).0
                  ∙ ap (λ k. ecies_entry lib recipient (ecies.serialize k) iv tag encrypted_key)
                      (rng_laws.paired s);
            }
          ]
        ]

    open_ecies_entry :
        (receiver : Receiver) (recipient : Recipient) (cek : Bytes) (ke : KeyEncryption)
        (held : HoldsSecp256k1 receiver recipient.public_key)
        → length cek ≡ 32
        → (made : IsEciesEntry recipient cek (ecies.public_of held.own) ke)
        → open_key receiver (
            ecies_entry lib recipient
              (ecies.serialize (ecies.public_of made.secret_key))
              made.iv
              made.tag
              made.encrypted_key)
          ≡ ok cek
    unfolding find_cek
    open_ecies_entry receiver recipient cek ke held size made =
        let agreed = ecies_laws.agree made.secret_key held.own made.shared made.agreed in
        let n = ecies_laws.secret_length _ _ _ made.agreed in
        rw
          (
            sender_key-ec,
            held.derives,
            shared_secret-from_ecies held.secret held.own _ made.shared held.parsed agreed,
          )
          (simp (
            codes_laws.decode-encode,
            array_laws.exact 12 made.iv made.iv_size,
            array_laws.exact 16 made.tag (gcm_laws.tag_length _ _ _ _ _ _ made.encrypted),
            array_laws.exact 32 made.shared n,
            gcm_laws.decrypt-encrypt _ _ _ _ _ _ n made.iv_size made.encrypted,
            size,
          ))

    -- ECIES-ES256K: the receiver agrees on the key that encrypts the content encryption key.
    pub open_key-ecies :
        (receiver : Receiver) (recipient : Recipient) (cek : Bytes) (ke : KeyEncryption)
        (s t : rng.State)
        → HoldsSecp256k1 receiver recipient.public_key
        → length cek ≡ 32
        → ecies_es256k lib cek recipient s ≡ ok (ke, t)
        → open_key receiver ke ≡ ok cek
    open_key-ecies receiver recipient cek ke s t held size h =
        let public = ap (ecies_public ecies) held.public ∙ ecies_public-from_ecies _ in
        let made = ecies_es256k-eq-ok cek recipient ke s t _ public h in
        rw made.built (open_ecies_entry receiver recipient cek ke held size made)
