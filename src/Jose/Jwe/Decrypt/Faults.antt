-- ===== src/Jose/Jwe/Decrypt/Faults.antt =====
-- jose/jwe/decrypt.rs: the conditions for a panic of the steps of `decrypt`.
use native.Mathlib.Decide.{ℕ_discrete}
use infosec.Common.{
  ℕ, ◌≡◌, ◌≢◌, ◌⊎◌, inl, inr, ◌↔◌, refl, Option, some, [], Bytes, Text, length, arith,
}
use infosec.Common.{
  Outcome, ok, err, panic, message, caused, foreign, or_err, ok-ne-panic, ◌>>=◌,
  or_err_bind-eq-panic,
}
use infosec.Foreign.Encodings.{Codec}
use infosec.Foreign.Encryption.{IsArrays}
use infosec.Jose.Jwe.Algorithms.{KeyAlgorithm, ecdh_es, ecdh_es_a256kw, ecies_es256k}
use infosec.Jose.Jwe.Key.{SharedSecret, try_into, try_from}
use infosec.Jose.Jwk.{PublicKeyJwk}
use infosec.Jose.Jwe.Data.{KeyEncryption, Recipients, Jwe}
use infosec.Jose.Jwe.Libraries.{Libraries}
use infosec.Jose.Jwe.Decrypt.{
  gcm_decrypt, unwrap_ecies, unwrap_a256kw, find_cek, sender_key, find_recipient, decrypt_content,
}
use infosec.Jose.Jwe.Decrypt.Opened.{entry_of}
use infosec.Jose.Jwe.Decrypt.Panics.{IsUnpacked}

or_err-ne-panic {ℓ} : {A : Type ℓ} (o : Option A) → (reason : _) → or_err o reason ≢ panic
or_err-ne-panic o reason h = ground arith

-- One of three slices has another length than its array.
abbrev pub Misfits : ℕ → Bytes → ℕ → Bytes → ℕ → Bytes → Type 0
Misfits l a m b n c = (length a ≢ l) ⊎ ((length b ≢ m) ⊎ (length c ≢ n))

Misfits-cases :
    (l : ℕ) (a : Bytes) (m : ℕ) (b : Bytes) (n : ℕ) (c : Bytes)
    → Misfits l a m b n c ⊎ ((length a ≡ l) × (length b ≡ m) × (length c ≡ n))
Misfits-cases l a m b n c = elim (ℕ_discrete (length a) l) [
  | no d ↦ inl (inl d)
  | yes e ↦ elim (ℕ_discrete (length b) m) [
    | no d ↦ inl (inr (inl d))
    | yes f ↦ elim (ℕ_discrete (length c) n) [ no d ↦ inl (inr (inr d)) | yes g ↦ inr (e, f, g) ]
  ]
]

module _ (lib : Libraries) where
  open lib use {base64, aes_gcm}

  -- The entry is whole, and its nonce, its tag or the secret has another length than its array.
  pub record EciesMisfits (entry : KeyEncryption) (secret : SharedSecret) : Type 0 where
    pub iv_text : Text
    pub has_iv : entry.header.iv ≡ some iv_text
    pub tag_text : Text
    pub has_tag : entry.header.tag ≡ some tag_text
    pub iv : Bytes
    pub iv_decoded : base64.decode_vec iv_text ≡ some iv
    pub tag : Bytes
    pub tag_decoded : base64.decode_vec tag_text ≡ some tag
    pub encrypted_key : Bytes
    pub decoded : base64.decode_vec entry.encrypted_key ≡ some encrypted_key
    pub misfits : Misfits 12 iv 16 tag 32 secret.bytes

  -- The algorithm is ECIES-ES256K, and the entry's nonce or tag or the secret does not fit.
  abbrev pub KeyMisfits : KeyAlgorithm → KeyEncryption → SharedSecret → Type 0
  KeyMisfits ecdh_es entry secret = ⊥
  KeyMisfits ecdh_es_a256kw entry secret = ⊥
  KeyMisfits ecies_es256k entry secret = EciesMisfits entry secret

  read_calm :
      {T : Type 0} (json : Codec T) (opened : Outcome Bytes)
      → (opened >>= λ buffer. or_err (json.from_slice buffer) foreign) ≡ panic
      → opened ≡ panic
  read_calm json panic h = refl
  read_calm json (err reason) h = cc
  read_calm json (ok buffer) h = absurd (or_err-ne-panic (json.from_slice buffer) foreign h)

  module _ (arrays : IsArrays lib.arrays) where
    from_slice-eq-panic :
        (n : ℕ) (bytes : Bytes) → lib.arrays.from_slice n bytes ≡ panic → length bytes ≢ n
    from_slice-eq-panic n bytes h size = let e = arrays.exact n bytes size in ground arith

    -- Three slices made into arrays, one after the other.
    module _ {A : Type 0} (next : Bytes → Bytes → Bytes → Outcome A) (l : ℕ) (a : Bytes) (m : ℕ)
        (b : Bytes) (n : ℕ) (c : Bytes) where
      abbrev in_turn : Outcome A
      in_turn = do
        x ← lib.arrays.from_slice l a
        y ← lib.arrays.from_slice m b
        z ← lib.arrays.from_slice n c
        next x y z

      in_turn_panics : Misfits l a m b n c → in_turn ≡ panic
      in_turn_panics wrong = elim (ℕ_discrete (length a) l) [
        | no d ↦ rw (arrays.mismatch l a d) refl
        | yes e ↦ elim (ℕ_discrete (length b) m) [
          | no d ↦ rw (arrays.exact l a e, arrays.mismatch m b d) refl
          | yes f ↦ elim wrong [
            | inl d ↦ absurd (d e)
            | inr (inl d) ↦ absurd (d f)
            | inr (inr d) ↦ rw (arrays.exact l a e, arrays.exact m b f, arrays.mismatch n c d) refl
          ]
        ]
      ]

      in_turn-eq-panic :
          ((x y z : Bytes) → next x y z ≢ panic) → (in_turn ≡ panic) ↔ Misfits l a m b n c
      in_turn-eq-panic calm = (
        λ h. elim (Misfits-cases l a m b n c) [
          | inl wrong ↦ wrong
          | inr (e, f, g) ↦
              absurd
                (calm a b c (rw (arrays.exact l a e, arrays.exact m b f, arrays.exact n c g) at h))
        ],
        in_turn_panics,
      )

    gcm_decrypt-eq-panic :
        (key iv aad ciphertext tag : Bytes)
        → (gcm_decrypt lib key iv aad ciphertext tag ≡ panic) ↔ Misfits 32 key 12 iv 16 tag
    unfolding gcm_decrypt
    gcm_decrypt-eq-panic key iv aad ciphertext tag =
        in_turn-eq-panic _ 32 key 12 iv 16 tag
          (λ x y z. or_err-ne-panic (aes_gcm.decrypt x y aad ciphertext z) _)

    opened_calm :
        (ciphertext x y z : Bytes)
        → (or_err (aes_gcm.decrypt z x [] ciphertext y) (caused "issue decrypting") >>= λ buffer.
            try_into 32 buffer (message "issue unwrapping cek"))
          ≢ panic
    opened_calm ciphertext x y z h =
        let (buffer, _, h₁) = or_err_bind-eq-panic (aes_gcm.decrypt z x [] ciphertext y) _ _ h in
        ground arith

    unwrap_a256kw-ne-panic :
        (entry : KeyEncryption) (secret : SharedSecret) → unwrap_a256kw lib entry secret ≢ panic
    unfolding unwrap_a256kw
    unwrap_a256kw-ne-panic entry secret h = ground arith

    unwrap_ecies-eq-panic :
        (entry : KeyEncryption) (secret : SharedSecret)
        → (unwrap_ecies lib entry secret ≡ panic) ↔ EciesMisfits entry secret
    unfolding unwrap_ecies
    unwrap_ecies-eq-panic entry secret = (
      λ h.
          let (iv_text, e₁, h₁) = or_err_bind-eq-panic entry.header.iv _ _ h in
          let (tag_text, e₂, h₂) = or_err_bind-eq-panic entry.header.tag _ _ h₁ in
          let (iv, e₃, h₃) = or_err_bind-eq-panic (base64.decode_vec iv_text) _ _ h₂ in
          let (tag, e₄, h₄) = or_err_bind-eq-panic (base64.decode_vec tag_text) _ _ h₃ in
          let (key, e₅, h₅) = or_err_bind-eq-panic (base64.decode_vec entry.encrypted_key) _ _ h₄ in
          record {
            iv_text = iv_text;
            has_iv = e₁;
            tag_text = tag_text;
            has_tag = e₂;
            iv = iv;
            iv_decoded = e₃;
            tag = tag;
            tag_decoded = e₄;
            encrypted_key = key;
            decoded = e₅;
            misfits =
                (in_turn-eq-panic _ 12 iv 16 tag 32 secret.bytes (λ x y z. opened_calm key x y z)).0
                  h₅;
          },
      λ g.
          rw (g.has_iv, g.has_tag, g.iv_decoded, g.tag_decoded, g.decoded)
            ((in_turn-eq-panic _ 12 g.iv 16 g.tag 32 secret.bytes
                (λ x y z. opened_calm g.encrypted_key x y z)).1
              g.misfits),
    )

    find_cek_fails :
        (alg : KeyAlgorithm) (kid : Option Text) (epk : PublicKeyJwk) (iv tag : Option Text)
        (key : Text) (secret : SharedSecret)
        → (find_cek lib (entry_of alg kid epk iv tag key) secret ≡ panic)
          ↔ KeyMisfits alg (entry_of alg kid epk iv tag key) secret
    unfolding find_cek
    find_cek_fails ecdh_es kid epk iv tag key secret = (λ h. ok-ne-panic _ h, λ x. absurd x)
    find_cek_fails ecdh_es_a256kw kid epk iv tag key secret = (
      λ h. absurd (unwrap_a256kw-ne-panic (entry_of ecdh_es_a256kw kid epk iv tag key) secret h),
      λ x. absurd x,
    )
    find_cek_fails ecies_es256k kid epk iv tag key secret =
        unwrap_ecies-eq-panic (entry_of ecies_es256k kid epk iv tag key) secret

    pub find_cek-eq-panic :
        (entry : KeyEncryption) (secret : SharedSecret)
        → (find_cek lib entry secret ≡ panic) ↔ KeyMisfits entry.header.alg entry secret
    find_cek-eq-panic entry secret =
        let header = entry.header in
        find_cek_fails header.alg header.kid header.epk header.iv header.tag entry.encrypted_key
          secret

    module _ {Json : Type 0} {T : Type 0} (json : Codec T) where
      pub decrypt_content-eq-panic :
          (jwe : Jwe Json) (cek : Bytes)
          → (decrypt_content lib json jwe cek ≡ panic) ↔ (
              (iv : Bytes) × (tag : Bytes) × IsUnpacked lib jwe iv tag
              × Misfits 32 cek 12 iv 16 tag)
      unfolding decrypt_content
      decrypt_content-eq-panic jwe cek = (
        λ h.
            let (iv, e₁, h₁) = or_err_bind-eq-panic (base64.decode_vec jwe.iv) _ _ h in
            let (tag, e₂, h₂) = or_err_bind-eq-panic (base64.decode_vec jwe.tag) _ _ h₁ in
            let (aad, e₃, h₃) = or_err_bind-eq-panic (base64.decode_vec jwe.aad) _ _ h₂ in
            let (text, e₄, h₄) = or_err_bind-eq-panic (base64.decode_vec jwe.ciphertext) _ _ h₃ in
            (
              iv,
              tag,
              record {
                iv_decoded = e₁;
                tag_decoded = e₂;
                aad = aad;
                aad_decoded = e₃;
                ciphertext = text;
                ciphertext_decoded = e₄;
              },
              (gcm_decrypt-eq-panic cek iv aad text tag).0
                  (read_calm json (gcm_decrypt lib cek iv aad text tag) h₄),
            ),
        λ (iv, tag, u, wrong).
            rw (u.iv_decoded, u.tag_decoded, u.aad_decoded, u.ciphertext_decoded)
              (rw ((gcm_decrypt-eq-panic cek iv u.aad u.ciphertext tag).1 wrong) refl),
      )

  pub sender_key-ne-panic : (epk : PublicKeyJwk) → sender_key lib epk ≢ panic
  unfolding sender_key try_from
  sender_key-ne-panic epk h = ground arith

  pub find_recipient-ne-panic : (key_id : Text) (rs : Recipients) → find_recipient key_id rs ≢ panic
  unfolding find_recipient
  find_recipient-ne-panic key_id rs h = ground arith
