-- ===== src/Jose/Jwe/Decrypt/Panics.antt =====
-- The received messages that make `decrypt` panic.
use native.Mathlib.Decide.{ℕ_discrete}
use infosec.Common.{◌≡◌, ◌≢◌, ◌⊎◌, inl, inr, some, Bytes, length}
use infosec.Common.{ok, panic}
use infosec.Foreign.Encodings.{Codec}
use infosec.Foreign.Encryption.{IsArrays}
use infosec.Traits.{Receiver}
use infosec.Jose.Jwe.Key.{PublicKey, SharedSecret}
use infosec.Jose.Jwe.Data.{KeyEncryption, Jwe}
use infosec.Jose.Jwe.Libraries.{Libraries}
use infosec.Jose.Jwe.Decrypt.{gcm_decrypt, decrypt_content, decrypt}
use infosec.Jose.Jwe.Decrypt.Accepted.{Gives}
use infosec.Jose.Jwe.Decrypt.Addressed.{IsEntry, IsSender, find_recipient-eq-ok, sender_key-eq-ok}
use infosec.Jose.Jwe.Decrypt.Opened.{find_cek-eq-ok}

module _ (lib : Libraries) where
  open lib use {base64}

  module _ {Json : Type 0} where
    -- The receiver comes to a content encryption key: it has an entry, a secret and the key.
    pub record Reaches (jwe : Jwe Json) (receiver : Receiver) (cek : Bytes) : Type 0 where
      pub entry : KeyEncryption
      pub addressed : IsEntry receiver.key_id jwe.recipients entry
      pub sender : PublicKey
      pub sent : IsSender lib entry.header.epk sender
      pub secret : SharedSecret
      pub derived : receiver.shared_secret sender ≡ ok secret
      pub given : Gives lib entry.header.alg entry secret cek

    -- The four parts of the content are base64url.
    pub record IsUnpacked (jwe : Jwe Json) (iv tag : Bytes) : Type 0 where
      pub iv_decoded : base64.decode_vec jwe.iv ≡ some iv
      pub tag_decoded : base64.decode_vec jwe.tag ≡ some tag
      pub aad : Bytes
      pub aad_decoded : base64.decode_vec jwe.aad ≡ some aad
      pub ciphertext : Bytes
      pub ciphertext_decoded : base64.decode_vec jwe.ciphertext ≡ some ciphertext

  module _ (arrays : IsArrays lib.arrays) where
    gcm_decrypt_nonce :
        (key iv aad ciphertext tag : Bytes)
        → length key ≡ 32
        → length iv ≢ 12
        → gcm_decrypt lib key iv aad ciphertext tag ≡ panic
    unfolding gcm_decrypt
    gcm_decrypt_nonce key iv aad ciphertext tag k n =
        rw (arrays.exact 32 key k, arrays.mismatch 12 iv n)

    gcm_decrypt_panics :
        (key iv aad ciphertext tag : Bytes)
        → length key ≡ 32
        → (length iv ≢ 12) ⊎ (length tag ≢ 16)
        → gcm_decrypt lib key iv aad ciphertext tag ≡ panic
    unfolding gcm_decrypt
    gcm_decrypt_panics key iv aad ciphertext tag k (inl n) =
        gcm_decrypt_nonce key iv aad ciphertext tag k n
    gcm_decrypt_panics key iv aad ciphertext tag k (inr t) = elim (ℕ_discrete (length iv) 12) [
      | yes n ↦ rw (arrays.exact 32 key k, arrays.exact 12 iv n, arrays.mismatch 16 tag t)
      | no n ↦ gcm_decrypt_nonce key iv aad ciphertext tag k n
    ]

    -- Where `from_slice` panics on slices of another length than the array: a JWE whose nonce has not
    -- 12 bytes, or whose tag has not 16, makes `decrypt` panic, if its receiver comes to a key of 32
    -- bytes and its content is base64url. The sender chooses both lengths.
    pub decrypt_panics :
        {Json : Type 0} {T : Type 0} (json : Codec T) (jwe : Jwe Json) (receiver : Receiver)
        (cek iv tag : Bytes)
        → Reaches jwe receiver cek
        → length cek ≡ 32
        → IsUnpacked jwe iv tag
        → (length iv ≢ 12) ⊎ (length tag ≢ 16)
        → decrypt lib json jwe receiver ≡ panic
    unfolding decrypt decrypt_content
    decrypt_panics json jwe receiver cek iv tag r size u wrong =
        rw
          (
            (find_recipient-eq-ok receiver.key_id jwe.recipients r.entry).1 r.addressed,
            (sender_key-eq-ok lib r.entry.header.epk r.sender).1 r.sent,
            r.derived,
            (find_cek-eq-ok lib arrays r.entry r.secret cek).1 r.given,
          )
          (rw (
            u.iv_decoded,
            u.tag_decoded,
            u.aad_decoded,
            u.ciphertext_decoded,
            gcm_decrypt_panics cek iv u.aad u.ciphertext tag size wrong,
          ))
