-- ===== src/Jose/Jwe/Decrypt/EciesRefusals.antt =====
-- The errors of `unwrap_ecies`, each by what is wrong.
use mathlib.Core.Path.{subst}
use infosec.Jose.Jwe.Decrypt.Accepted.{GcmOpens}
use infosec.Common.{◌≡◌, ◌≢◌, refl, inl, inr, none, some, [], Bytes, Text, length}
use infosec.Common.{Error, err, message, caused, or_err, ◌>>=◌, or_err_bind-eq-err}
use infosec.Foreign.Encryption.{IsArrays}
use infosec.Jose.Jwe.Key.{SharedSecret, try_into}
use infosec.Jose.Jwe.Data.{KeyEncryption}
use infosec.Jose.Jwe.Libraries.{Libraries}
use infosec.Jose.Jwe.Decrypt.{unwrap_ecies}
use infosec.Jose.Jwe.Decrypt.Refusals.{
  try_into-eq-err, try_into-wrong, GcmRefuses, array_bind-eq-err,
}

module _ (lib : Libraries) where
  open lib use {base64, aes_gcm}

  -- ECIES-ES256K: a member is missing or not base64url, or the key is not opened, or of another
  -- length.
  pub data EciesFails (entry : KeyEncryption) (secret : SharedSecret) : Error → Type 0 where
    no_iv : entry.header.iv ≡ none → EciesFails entry secret (message "missing `iv`")
    no_tag :
        (iv_text : Text)
        → entry.header.iv ≡ some iv_text
        → entry.header.tag ≡ none
        → EciesFails entry secret (message "missing `iv`")
    iv_undecoded :
        (iv_text tag_text : Text)
        → entry.header.iv ≡ some iv_text
        → entry.header.tag ≡ some tag_text
        → base64.decode_vec iv_text ≡ none
        → EciesFails entry secret (caused "issue decoding `iv`")
    tag_undecoded :
        (iv_text tag_text : Text) (iv : Bytes)
        → entry.header.iv ≡ some iv_text
        → entry.header.tag ≡ some tag_text
        → base64.decode_vec iv_text ≡ some iv
        → base64.decode_vec tag_text ≡ none
        → EciesFails entry secret (caused "issue decoding `tag`")
    key_undecoded :
        (iv_text tag_text : Text) (iv tag : Bytes)
        → entry.header.iv ≡ some iv_text
        → entry.header.tag ≡ some tag_text
        → base64.decode_vec iv_text ≡ some iv
        → base64.decode_vec tag_text ≡ some tag
        → base64.decode_vec entry.encrypted_key ≡ none
        → EciesFails entry secret (caused "issue decoding `encrypted_key`")
    refused :
        (iv_text tag_text : Text) (iv tag key : Bytes)
        → entry.header.iv ≡ some iv_text
        → entry.header.tag ≡ some tag_text
        → base64.decode_vec iv_text ≡ some iv
        → base64.decode_vec tag_text ≡ some tag
        → base64.decode_vec entry.encrypted_key ≡ some key
        → GcmRefuses lib secret.bytes iv [] key tag
        → EciesFails entry secret (caused "issue decrypting")
    ecies_length :
        (iv_text tag_text : Text) (iv tag key cek : Bytes)
        → entry.header.iv ≡ some iv_text
        → entry.header.tag ≡ some tag_text
        → base64.decode_vec iv_text ≡ some iv
        → base64.decode_vec tag_text ≡ some tag
        → base64.decode_vec entry.encrypted_key ≡ some key
        → GcmOpens lib secret.bytes iv [] key tag cek
        → length cek ≢ 32
        → EciesFails entry secret (message "issue unwrapping cek")

  module _ (arrays : IsArrays lib.arrays) where
    -- The steps from the arrays on.
    unwrap_ecies_decoded :
        (entry : KeyEncryption) (secret : SharedSecret) (e : Error) (iv_text tag_text : Text)
        (iv tag : Bytes)
        → entry.header.iv ≡ some iv_text
        → entry.header.tag ≡ some tag_text
        → base64.decode_vec iv_text ≡ some iv
        → base64.decode_vec tag_text ≡ some tag
        → (do
          encrypted_key ←
              or_err
                (base64.decode_vec entry.encrypted_key)
                (caused "issue decoding `encrypted_key`")
          nonce ← lib.arrays.from_slice 12 iv
          tag' ← lib.arrays.from_slice 16 tag
          key ← lib.arrays.from_slice 32 secret.bytes
          buffer ←
              or_err (aes_gcm.decrypt key nonce [] encrypted_key tag') (caused "issue decrypting")
          try_into 32 buffer (message "issue unwrapping cek"))
          ≡ err e
        → EciesFails entry secret e
    unwrap_ecies_decoded entry secret e iv_text tag_text iv tag h₁ h₂ h₃ h₄ x₄ =
        elim (or_err_bind-eq-err (base64.decode_vec entry.encrypted_key) _ _ x₄) [
          | inl (n, same) ↦
              subst (EciesFails entry secret) same
                (key_undecoded iv_text tag_text iv tag h₁ h₂ h₃ h₄ n)
          | inr (key, h₅, x₅) ↦
              let (i, x₆) = array_bind-eq-err lib arrays 12 iv _ e x₅ in
              let (t, x₇) = array_bind-eq-err lib arrays 16 tag _ e x₆ in
              let (k, x₈) = array_bind-eq-err lib arrays 32 secret.bytes _ e x₇ in
              elim (or_err_bind-eq-err (aes_gcm.decrypt secret.bytes iv [] key tag) _ _ x₈) [
                | inl (n, same) ↦ subst (EciesFails entry secret) same (
                    refused iv_text tag_text iv tag key h₁ h₂ h₃ h₄ h₅
                      (record { key_size = k; iv_size = i; tag_size = t; refused = n }))
                | inr (cek, o, x₉) ↦
                    let (wrong, same) = try_into-eq-err 32 cek _ x₉ in
                    subst (EciesFails entry secret) same (
                      ecies_length iv_text tag_text iv tag key cek h₁ h₂ h₃ h₄ h₅
                        (record { key_size = k; iv_size = i; tag_size = t; opened = o }) wrong)
              ]
        ]

    pub unwrap_ecies-eq-err :
        (entry : KeyEncryption) (secret : SharedSecret) (e : Error)
        → unwrap_ecies lib entry secret ≡ err e
        → EciesFails entry secret e
    unfolding unwrap_ecies
    unwrap_ecies-eq-err entry secret e x = elim (or_err_bind-eq-err entry.header.iv _ _ x) [
      | inl (n, same) ↦ subst (EciesFails entry secret) same (no_iv n)
      | inr (iv_text, h₁, x₁) ↦ elim (or_err_bind-eq-err entry.header.tag _ _ x₁) [
        | inl (n, same) ↦ subst (EciesFails entry secret) same (no_tag iv_text h₁ n)
        | inr (tag_text, h₂, x₂) ↦ elim (or_err_bind-eq-err (base64.decode_vec iv_text) _ _ x₂) [
          | inl (n, same) ↦
              subst (EciesFails entry secret) same (iv_undecoded iv_text tag_text h₁ h₂ n)
          | inr (iv, h₃, x₃) ↦ elim (or_err_bind-eq-err (base64.decode_vec tag_text) _ _ x₃) [
            | inl (n, same) ↦
                subst (EciesFails entry secret) same (tag_undecoded iv_text tag_text iv h₁ h₂ h₃ n)
            | inr (tag, h₄, x₄) ↦
                unwrap_ecies_decoded entry secret e iv_text tag_text iv tag h₁ h₂ h₃ h₄ x₄
          ]
        ]
      ]
    ]

    pub ecies_back :
        (entry : KeyEncryption) (secret : SharedSecret) (e : Error)
        → EciesFails entry secret e
        → unwrap_ecies lib entry secret ≡ err e
    unfolding unwrap_ecies
    ecies_back entry secret e (no_iv n) = rw n refl
    ecies_back entry secret e (no_tag iv_text h₁ n) = rw (h₁, n) refl
    ecies_back entry secret e (iv_undecoded iv_text tag_text h₁ h₂ n) = rw (h₁, h₂, n) refl
    ecies_back entry secret e (tag_undecoded iv_text tag_text iv h₁ h₂ h₃ n) =
        rw (h₁, h₂, h₃, n) refl
    ecies_back entry secret e (key_undecoded iv_text tag_text iv tag h₁ h₂ h₃ h₄ n) =
        rw (h₁, h₂, h₃, h₄, n) refl
    ecies_back entry secret e (refused iv_text tag_text iv tag key h₁ h₂ h₃ h₄ h₅ g) =
        rw (h₁, h₂, h₃, h₄, h₅)
          (rw
            (
              arrays.exact 12 iv g.iv_size,
              arrays.exact 16 tag g.tag_size,
              arrays.exact 32 secret.bytes g.key_size,
              g.refused,
            )
            refl)
    ecies_back entry secret e
          (ecies_length iv_text tag_text iv tag key cek h₁ h₂ h₃ h₄ h₅ g wrong) =
        rw (h₁, h₂, h₃, h₄, h₅)
          (rw
            (
              arrays.exact 12 iv g.iv_size,
              arrays.exact 16 tag g.tag_size,
              arrays.exact 32 secret.bytes g.key_size,
              g.opened,
            )
            (try_into-wrong 32 cek _ wrong))
