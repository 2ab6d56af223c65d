-- ===== src/Jose/Jwe/Decrypt/Refusals.antt =====
-- The errors of the steps of `decrypt`, each by what is wrong.
use native.Mathlib.Decide.{ℕ_discrete}
use mathlib.Core.Path.{subst}
use infosec.Common.{
  ℕ, ◌≡◌, ◌≢◌, refl, sym, ap, ◌∙◌, ◌↔◌, inl, inr, Option, none, some, Bytes, length, arith,
}
use infosec.Common.{
  Outcome, Error, err, message, caused, or_err, ◌>>=◌, or_err_bind-eq-err, err-injective, ok-ne-err,
  panic-ne-err,
}
use infosec.Foreign.Encryption.{IsArrays}
use infosec.Jose.Jwe.Key.{SharedSecret, try_into}
use infosec.Jose.Jwe.Data.{KeyEncryption}
use infosec.Jose.Jwe.Libraries.{Libraries}
use infosec.Jose.Jwe.Decrypt.{gcm_decrypt, unwrap_a256kw}

pub or_err-eq-err {ℓ} :
    {A : Type ℓ} (o : Option A) (e : Error) {reason : Error}
    → or_err o e ≡ err reason
    → (o ≡ none) × (e ≡ reason)
or_err-eq-err none e h = (refl, err-injective e _ h)
or_err-eq-err (some a) e h = absurd (ok-ne-err a _ h)

pub try_into-eq-err :
    (n : ℕ) (bytes : Bytes) (e : Error) {reason : Error}
    → try_into n bytes e ≡ err reason
    → (length bytes ≢ n) × (e ≡ reason)
try_into-eq-err n bytes e h = (λ s. ground arith, ground arith)

pub try_into-wrong :
    (n : ℕ) (bytes : Bytes) (e : Error) → length bytes ≢ n → try_into n bytes e ≡ err e
try_into-wrong n bytes e d = ground arith

module _ (lib : Libraries) where
  open lib use {base64, aes_gcm, key_wrap}

  -- The lengths are those of the arrays, and AES-256-GCM does not open the ciphertext.
  pub record GcmRefuses (key iv aad ciphertext tag : Bytes) : Type 0 where
    pub key_size : length key ≡ 32
    pub iv_size : length iv ≡ 12
    pub tag_size : length tag ≡ 16
    pub refused : aes_gcm.decrypt key iv aad ciphertext tag ≡ none

  -- ECDH-ES+A256KW: the key is not base64url, not wrapped under the secret, or of another length.
  pub data A256kwFails (entry : KeyEncryption) (secret : SharedSecret) : Error → Type 0 where
    undecoded :
        base64.decode_vec entry.encrypted_key ≡ none
        → A256kwFails entry secret (caused "issue decoding `encrypted_key`")
    not_wrapped :
        (wrapped : Bytes)
        → base64.decode_vec entry.encrypted_key ≡ some wrapped
        → key_wrap.unwrap secret.bytes wrapped ≡ none
        → A256kwFails entry secret (caused "issue unwrapping cek")
    wrong_length :
        (wrapped cek : Bytes)
        → base64.decode_vec entry.encrypted_key ≡ some wrapped
        → key_wrap.unwrap secret.bytes wrapped ≡ some cek
        → length cek ≢ 32
        → A256kwFails entry secret (message "issue unwrapping cek")

  a256kw_back :
      (entry : KeyEncryption) (secret : SharedSecret) (e : Error)
      → A256kwFails entry secret e
      → unwrap_a256kw lib entry secret ≡ err e
  unfolding unwrap_a256kw
  a256kw_back entry secret e (undecoded n) = rw n refl
  a256kw_back entry secret e (not_wrapped wrapped d n) = rw (d, n) refl
  a256kw_back entry secret e (wrong_length wrapped cek d u wrong) =
      rw (d, u) (try_into-wrong 32 cek _ wrong)

  pub unwrap_a256kw-eq-err :
      (entry : KeyEncryption) (secret : SharedSecret) (e : Error)
      → (unwrap_a256kw lib entry secret ≡ err e) ↔ A256kwFails entry secret e
  unfolding unwrap_a256kw
  unwrap_a256kw-eq-err entry secret e = (
    λ x. elim (or_err_bind-eq-err (base64.decode_vec entry.encrypted_key) _ _ x) [
      | inl (n, same) ↦ subst (A256kwFails entry secret) same (undecoded n)
      | inr (wrapped, d, y) ↦
          elim (or_err_bind-eq-err (key_wrap.unwrap secret.bytes wrapped) _ _ y) [
            | inl (n, same) ↦ subst (A256kwFails entry secret) same (not_wrapped wrapped d n)
            | inr (cek, u, z) ↦
                let (wrong, same) = try_into-eq-err 32 cek _ z in
                subst (A256kwFails entry secret) same (wrong_length wrapped cek d u wrong)
          ]
    ],
    a256kw_back entry secret e,
  )

  module _ (arrays : IsArrays lib.arrays) where
    from_slice-ne-err : (n : ℕ) (bytes : Bytes) (e : Error) → lib.arrays.from_slice n bytes ≢ err e
    from_slice-ne-err n bytes e h = elim (ℕ_discrete (length bytes) n) [
      | yes s ↦ ok-ne-err bytes e (sym (arrays.exact n bytes s) ∙ h)
      | no d ↦ panic-ne-err e (sym (arrays.mismatch n bytes d) ∙ h)
    ]

    -- An array is made, or the code panics.
    pub array_bind-eq-err :
        {B : Type 0} (n : ℕ) (bytes : Bytes) (next : Bytes → Outcome B) (e : Error)
        → (lib.arrays.from_slice n bytes >>= next) ≡ err e
        → (length bytes ≡ n) × (next bytes ≡ err e)
    array_bind-eq-err n bytes next e h = elim (ℕ_discrete (length bytes) n) [
      | yes s ↦ (s, rw (arrays.exact n bytes s) at h)
      | no d ↦ absurd (panic-ne-err e (rw (arrays.mismatch n bytes d) at h))
    ]

    pub gcm_decrypt-eq-err :
        (key iv aad ciphertext tag : Bytes) (e : Error)
        → (gcm_decrypt lib key iv aad ciphertext tag ≡ err e)
          ↔ (GcmRefuses key iv aad ciphertext tag × (caused "issue decrypting" ≡ e))
    unfolding gcm_decrypt
    gcm_decrypt-eq-err key iv aad ciphertext tag e = (
      λ x.
          let (k, y) = array_bind-eq-err 32 key _ e x in
          let (i, z) = array_bind-eq-err 12 iv _ e y in
          let (t, w) = array_bind-eq-err 16 tag _ e z in
          let (n, same) = or_err-eq-err (aes_gcm.decrypt key iv aad ciphertext tag) _ w in
          (record { key_size = k; iv_size = i; tag_size = t; refused = n }, same),
      λ (g, same).
          rw
            (
              arrays.exact 32 key g.key_size,
              arrays.exact 12 iv g.iv_size,
              arrays.exact 16 tag g.tag_size,
              g.refused,
            )
            (ap err same),
    )
