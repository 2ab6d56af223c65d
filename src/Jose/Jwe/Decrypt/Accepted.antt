-- ===== src/Jose/Jwe/Decrypt/Accepted.antt =====
-- What AES-256-GCM and each key management algorithm accept.
use infosec.Common.{ℕ, ◌≡◌, refl, sym, ap, ◌∙◌, ◌↔◌, some, [], Bytes, Text, length}
use infosec.Common.{ok, >>=-eq-ok, or_err-eq-ok, ok-injective}
use native.Mathlib.Decide.{ℕ_discrete}
use infosec.Foreign.Encryption.{IsArrays}
use infosec.Jose.Jwe.Algorithms.{KeyAlgorithm, ecdh_es, ecdh_es_a256kw, ecies_es256k}
use infosec.Jose.Jwe.Key.{SharedSecret}
use infosec.Jose.Jwe.Key.Texts.{try_into-eq-ok}
use infosec.Jose.Jwe.Data.{KeyEncryption}
use infosec.Jose.Jwe.Libraries.{Libraries}
use infosec.Jose.Jwe.Decrypt.{gcm_decrypt, unwrap_ecies, unwrap_a256kw}

module _ (lib : Libraries) where
  open lib use {base64, aes_gcm, key_wrap}

  -- AES-256-GCM opens the ciphertext, with a key of 32 bytes, a nonce of 12 and a tag of 16.
  pub record GcmOpens (key iv aad ciphertext tag buffer : Bytes) : Type 0 where
    pub key_size : length key ≡ 32
    pub iv_size : length iv ≡ 12
    pub tag_size : length tag ≡ 16
    pub opened : aes_gcm.decrypt key iv aad ciphertext tag ≡ some buffer

  GcmOpens-arrays :
      (key iv aad ciphertext tag k n t buffer out : Bytes)
      → ((length key ≡ 32) × (k ≡ key))
      → ((length iv ≡ 12) × (n ≡ iv))
      → ((length tag ≡ 16) × (t ≡ tag))
      → out ≡ buffer
      → aes_gcm.decrypt k n aad ciphertext t ≡ some buffer
      → GcmOpens key iv aad ciphertext tag out
  GcmOpens-arrays key iv aad ciphertext tag k n t buffer out (ks, kp) (ns, np) (ts, tp) p o =
      record { key_size = ks; iv_size = ns; tag_size = ts; opened = cc }

  -- The entry has a key that is wrapped under the secret.
  pub record A256kwGives (entry : KeyEncryption) (secret : SharedSecret) (cek : Bytes)
      : Type 0 where
    pub wrapped : Bytes
    pub decoded : base64.decode_vec entry.encrypted_key ≡ some wrapped
    pub unwrapped : key_wrap.unwrap secret.bytes wrapped ≡ some cek
    pub size : length cek ≡ 32

  -- The entry has a nonce, a tag and a key that AES-256-GCM opens under the secret.
  pub record EciesGives (entry : KeyEncryption) (secret : SharedSecret) (cek : Bytes) : Type 0 where
    pub iv_text : Text
    pub has_iv : entry.header.iv ≡ some iv_text
    pub iv : Bytes
    pub iv_decoded : base64.decode_vec iv_text ≡ some iv
    pub tag_text : Text
    pub has_tag : entry.header.tag ≡ some tag_text
    pub tag : Bytes
    pub tag_decoded : base64.decode_vec tag_text ≡ some tag
    pub encrypted_key : Bytes
    pub decoded : base64.decode_vec entry.encrypted_key ≡ some encrypted_key
    pub opens : GcmOpens secret.bytes iv [] encrypted_key tag cek
    pub size : length cek ≡ 32

  -- How the entry gives the content encryption key.
  abbrev pub Gives : KeyAlgorithm → KeyEncryption → SharedSecret → Bytes → Type 0
  Gives ecdh_es entry secret cek = cek ≡ secret.bytes
  Gives ecdh_es_a256kw entry secret cek = A256kwGives entry secret cek
  Gives ecies_es256k entry secret cek = EciesGives entry secret cek

  module _ (arrays : IsArrays lib.arrays) where
    from_slice-eq-ok :
        (n : ℕ) (bytes out : Bytes)
        → (lib.arrays.from_slice n bytes ≡ ok out) ↔ ((length bytes ≡ n) × (out ≡ bytes))
    from_slice-eq-ok n bytes out = (
      λ h. elim (ℕ_discrete (length bytes) n) [
        | yes e ↦ (e, sym (ok-injective bytes out (sym (arrays.exact n bytes e) ∙ h)))
        | no d ↦ let m = arrays.mismatch n bytes d in cc
      ],
      λ (e, p). rw p (arrays.exact n bytes e),
    )

    pub gcm_decrypt-eq-ok :
        (key iv aad ciphertext tag buffer : Bytes)
        → (gcm_decrypt lib key iv aad ciphertext tag ≡ ok buffer)
          ↔ GcmOpens key iv aad ciphertext tag buffer
    unfolding gcm_decrypt
    gcm_decrypt-eq-ok key iv aad ciphertext tag buffer = (
      λ h.
          let (k, e₁, h₁) = >>=-eq-ok _ _ h in
          let (n, e₂, h₂) = >>=-eq-ok _ _ h₁ in
          let (t, e₃, h₃) = >>=-eq-ok _ _ h₂ in
          GcmOpens-arrays key iv aad ciphertext tag k n t buffer buffer
            ((from_slice-eq-ok 32 key k).0 e₁) ((from_slice-eq-ok 12 iv n).0 e₂)
            ((from_slice-eq-ok 16 tag t).0 e₃) refl (or_err-eq-ok _ _ h₃),
      λ o. rw (
        arrays.exact 32 key o.key_size,
        arrays.exact 12 iv o.iv_size,
        arrays.exact 16 tag o.tag_size,
        o.opened,
      ),
    )

    pub unwrap_a256kw-eq-ok :
        (entry : KeyEncryption) (secret : SharedSecret) (cek : Bytes)
        → (unwrap_a256kw lib entry secret ≡ ok cek) ↔ A256kwGives entry secret cek
    unfolding unwrap_a256kw
    unwrap_a256kw-eq-ok entry secret cek = (
      λ h.
          let (wrapped, e₁, h₁) = >>=-eq-ok _ _ h in
          let (key, e₂, h₂) = >>=-eq-ok _ _ h₁ in
          let (size, p) = (try_into-eq-ok 32 key cek _).0 h₂ in
          record {
            wrapped = wrapped;
            decoded = or_err-eq-ok _ _ e₁;
            unwrapped = rw p (or_err-eq-ok _ _ e₂);
            size = rw p size;
          },
      λ g. rw (g.decoded, g.unwrapped) ((try_into-eq-ok 32 cek cek _).1 (g.size, refl)),
    )

    pub unwrap_ecies-eq-ok :
        (entry : KeyEncryption) (secret : SharedSecret) (cek : Bytes)
        → (unwrap_ecies lib entry secret ≡ ok cek) ↔ EciesGives entry secret cek
    unfolding unwrap_ecies
    unwrap_ecies-eq-ok entry secret cek = (
      λ h.
          let (iv_text, e₁, h₁) = >>=-eq-ok _ _ h in
          let (tag_text, e₂, h₂) = >>=-eq-ok _ _ h₁ in
          let (iv, e₃, h₃) = >>=-eq-ok _ _ h₂ in
          let (tag, e₄, h₄) = >>=-eq-ok _ _ h₃ in
          let (encrypted_key, e₅, h₅) = >>=-eq-ok _ _ h₄ in
          let (n, e₆, h₆) = >>=-eq-ok _ _ h₅ in
          let (t, e₇, h₇) = >>=-eq-ok _ _ h₆ in
          let (k, e₈, h₈) = >>=-eq-ok _ _ h₇ in
          let (buffer, e₉, h₉) = >>=-eq-ok _ _ h₈ in
          let (size, p) = (try_into-eq-ok 32 buffer cek _).0 h₉ in
          record {
            iv_text = iv_text;
            has_iv = or_err-eq-ok _ _ e₁;
            iv = iv;
            iv_decoded = or_err-eq-ok _ _ e₃;
            tag_text = tag_text;
            has_tag = or_err-eq-ok _ _ e₂;
            tag = tag;
            tag_decoded = or_err-eq-ok _ _ e₄;
            encrypted_key = encrypted_key;
            decoded = or_err-eq-ok _ _ e₅;
            opens =
                GcmOpens-arrays secret.bytes iv [] encrypted_key tag k n t buffer cek
                  ((from_slice-eq-ok 32 secret.bytes k).0 e₈) ((from_slice-eq-ok 12 iv n).0 e₆)
                  ((from_slice-eq-ok 16 tag t).0 e₇) p (or_err-eq-ok _ _ e₉);
            size = ap length p ∙ size;
          },
      λ g.
          rw (g.has_iv, g.has_tag, g.iv_decoded, g.tag_decoded, g.decoded)
            (rw
              (
                arrays.exact 12 g.iv g.opens.iv_size,
                arrays.exact 16 g.tag g.opens.tag_size,
                arrays.exact 32 secret.bytes g.opens.key_size,
                g.opens.opened,
              )
              ((try_into-eq-ok 32 cek cek _).1 (g.size, refl))),
    )
