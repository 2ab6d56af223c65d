-- ===== src/Jose/Jwe/Decrypt/ContentFailed.antt =====
-- The errors of `decrypt_content`, each by what is wrong.
use mathlib.Core.Path.{subst}
use infosec.Common.{◌≡◌, refl, inl, inr, none, some, Bytes}
use infosec.Common.{Error, err, caused, foreign, or_err, ◌>>=◌, >>=-eq-err, or_err_bind-eq-err}
use infosec.Foreign.Encodings.{Codec}
use infosec.Foreign.Encryption.{IsArrays}
use infosec.Jose.Jwe.Data.{Jwe}
use infosec.Jose.Jwe.Libraries.{Libraries}
use infosec.Jose.Jwe.Decrypt.{gcm_decrypt, decrypt_content}
use infosec.Jose.Jwe.Decrypt.Accepted.{GcmOpens, gcm_decrypt-eq-ok}
use infosec.Jose.Jwe.Decrypt.Panics.{IsUnpacked}
use infosec.Jose.Jwe.Decrypt.Refusals.{or_err-eq-err, GcmRefuses, gcm_decrypt-eq-err}

module _ (lib : Libraries) {Json : Type 0} {T : Type 0} (json : Codec T) where
  open lib use {base64}

  -- The content: a part is not base64url, AES-256-GCM does not open it, or it is not JSON.
  pub data ContentFails (jwe : Jwe Json) (cek : Bytes) : Error → Type 0 where
    iv_undecoded :
        base64.decode_vec jwe.iv ≡ none → ContentFails jwe cek (caused "issue decoding `iv`")
    tag_undecoded :
        (iv : Bytes)
        → base64.decode_vec jwe.iv ≡ some iv
        → base64.decode_vec jwe.tag ≡ none
        → ContentFails jwe cek (caused "issue decoding `tag`")
    aad_undecoded :
        (iv tag : Bytes)
        → base64.decode_vec jwe.iv ≡ some iv
        → base64.decode_vec jwe.tag ≡ some tag
        → base64.decode_vec jwe.aad ≡ none
        → ContentFails jwe cek (caused "issue decoding `aad`")
    ciphertext_undecoded :
        (iv tag aad : Bytes)
        → base64.decode_vec jwe.iv ≡ some iv
        → base64.decode_vec jwe.tag ≡ some tag
        → base64.decode_vec jwe.aad ≡ some aad
        → base64.decode_vec jwe.ciphertext ≡ none
        → ContentFails jwe cek (caused "issue decoding `ciphertext`")
    refused :
        (iv tag : Bytes) (u : IsUnpacked lib jwe iv tag)
        → GcmRefuses lib cek iv u.aad u.ciphertext tag
        → ContentFails jwe cek (caused "issue decrypting")
    unread :
        (iv tag buffer : Bytes) (u : IsUnpacked lib jwe iv tag)
        → GcmOpens lib cek iv u.aad u.ciphertext tag buffer
        → json.from_slice buffer ≡ none
        → ContentFails jwe cek foreign

  module _ (arrays : IsArrays lib.arrays) where
    ContentFails-opened :
        (jwe : Jwe Json) (cek iv tag : Bytes) (u : IsUnpacked lib jwe iv tag) (e : Error)
        → (do
          buffer ← gcm_decrypt lib cek iv u.aad u.ciphertext tag
          or_err (json.from_slice buffer) foreign)
          ≡ err e
        → ContentFails jwe cek e
    ContentFails-opened jwe cek iv tag u e h =
        elim (>>=-eq-err (gcm_decrypt lib cek iv u.aad u.ciphertext tag) _ h) [
          | inl f ↦
              let (g, same) = (gcm_decrypt-eq-err lib arrays cek iv u.aad u.ciphertext tag e).0 f in
              subst (ContentFails jwe cek) same (refused iv tag u g)
          | inr (buffer, o, h₁) ↦
              let (n, same) = or_err-eq-err (json.from_slice buffer) _ h₁ in
              subst (ContentFails jwe cek) same (
                unread iv tag buffer u
                  ((gcm_decrypt-eq-ok lib arrays cek iv u.aad u.ciphertext tag buffer).0 o) n)
        ]

    pub ContentFails-decrypt :
        (jwe : Jwe Json) (cek : Bytes) (e : Error)
        → decrypt_content lib json jwe cek ≡ err e
        → ContentFails jwe cek e
    unfolding decrypt_content
    ContentFails-decrypt jwe cek e h = elim (or_err_bind-eq-err (base64.decode_vec jwe.iv) _ _ h) [
      | inl (n, same) ↦ subst (ContentFails jwe cek) same (iv_undecoded n)
      | inr (iv, d₁, h₁) ↦ elim (or_err_bind-eq-err (base64.decode_vec jwe.tag) _ _ h₁) [
        | inl (n, same) ↦ subst (ContentFails jwe cek) same (tag_undecoded iv d₁ n)
        | inr (tag, d₂, h₂) ↦ elim (or_err_bind-eq-err (base64.decode_vec jwe.aad) _ _ h₂) [
          | inl (n, same) ↦ subst (ContentFails jwe cek) same (aad_undecoded iv tag d₁ d₂ n)
          | inr (aad, d₃, h₃) ↦
              elim (or_err_bind-eq-err (base64.decode_vec jwe.ciphertext) _ _ h₃) [
                | inl (n, same) ↦
                    subst (ContentFails jwe cek) same (ciphertext_undecoded iv tag aad d₁ d₂ d₃ n)
                | inr (ciphertext, d₄, h₄) ↦
                    ContentFails-opened jwe cek iv tag
                      (record {
                        iv_decoded = d₁;
                        tag_decoded = d₂;
                        aad = aad;
                        aad_decoded = d₃;
                        ciphertext = ciphertext;
                        ciphertext_decoded = d₄;
                      })
                      e h₄
              ]
        ]
      ]
    ]

    pub content_back :
        (jwe : Jwe Json) (cek : Bytes) (e : Error)
        → ContentFails jwe cek e
        → decrypt_content lib json jwe cek ≡ err e
    unfolding decrypt_content
    content_back jwe cek e (iv_undecoded n) = rw n refl
    content_back jwe cek e (tag_undecoded iv d₁ n) = rw (d₁, n) refl
    content_back jwe cek e (aad_undecoded iv tag d₁ d₂ n) = rw (d₁, d₂, n) refl
    content_back jwe cek e (ciphertext_undecoded iv tag aad d₁ d₂ d₃ n) = rw (d₁, d₂, d₃, n) refl
    content_back jwe cek e (refused iv tag u g) =
        rw (u.iv_decoded, u.tag_decoded, u.aad_decoded, u.ciphertext_decoded)
          (rw ((gcm_decrypt-eq-err lib arrays cek iv u.aad u.ciphertext tag e).1 (g, refl)) refl)
    content_back jwe cek e (unread iv tag buffer u o n) =
        rw (u.iv_decoded, u.tag_decoded, u.aad_decoded, u.ciphertext_decoded)
          (rw ((gcm_decrypt-eq-ok lib arrays cek iv u.aad u.ciphertext tag buffer).1 o, n) refl)
