-- ===== src/Jose/Jwe/Decrypt/Content.antt =====
-- jose/jwe/encrypt.rs and jose/jwe/decrypt.rs: the content under a content encryption key.
use infosec.Common.{ℕ, ◌≡◌, some, Bytes, length, arith}
use infosec.Common.{ok, panic}
use infosec.Foreign.Encodings.{Codec, IsRoundTrip}
use infosec.Foreign.Encryption.{Aead}
use infosec.Jose.Jwe.Data.{Jwe}
use infosec.Jose.Jwe.Libraries.{Libraries, AreLawful}
use infosec.Jose.Jwe.Decrypt.{decrypt_content}

module _ (lib : Libraries) {Json : Type 0} {T : Type 0} (json : Codec T) where
  open lib use {base64}

  -- The JWE holds the payload, encrypted by a scheme under a key, with a nonce of some length.
  pub record IsContent (aead : Aead) (nonce_length : ℕ) (key : Bytes) (payload : T) (jwe : Jwe Json)
      : Type 0 where
    pub buffer : Bytes
    pub serialized : json.to_vec payload ≡ some buffer
    pub nonce : Bytes
    pub nonce_size : length nonce ≡ nonce_length
    pub aad : Bytes
    pub ciphertext : Bytes
    pub tag : Bytes
    pub encrypted : aead.encrypt key nonce aad buffer ≡ some (ciphertext, tag)
    pub iv_field : jwe.iv ≡ base64.encode_string nonce
    pub aad_field : jwe.aad ≡ base64.encode_string aad
    pub ciphertext_field : jwe.ciphertext ≡ base64.encode_string ciphertext
    pub tag_field : jwe.tag ≡ base64.encode_string tag

  module _ (laws : AreLawful lib) where
    open laws use {base64 as codes_laws, aes_gcm, arrays}

    pub decrypt_content-a256gcm :
        IsRoundTrip json
        → (key : Bytes) (payload : T) (jwe : Jwe Json) → length key ≡ 32
        → IsContent lib.aes_gcm 12 key payload jwe
        → decrypt_content lib json jwe key ≡ ok payload
    unfolding decrypt_content
    decrypt_content-a256gcm json_laws key payload jwe size c = simp (
      c.iv_field,
      c.aad_field,
      c.ciphertext_field,
      c.tag_field,
      codes_laws.decode-encode,
      arrays.exact 32 key size,
      arrays.exact 12 c.nonce c.nonce_size,
      arrays.exact 16 c.tag (aes_gcm.tag_length _ _ _ _ _ _ c.encrypted),
      aes_gcm.decrypt-encrypt _ _ _ _ _ _ size c.nonce_size c.encrypted,
      json_laws.from_slice-to_vec _ _ c.serialized,
    )

    pub decrypt_content-xchacha :
        (key : Bytes) (payload : T) (jwe : Jwe Json)
        → length key ≡ 32
        → IsContent lib.xchacha 24 key payload jwe
        → decrypt_content lib json jwe key ≡ panic
    unfolding decrypt_content
    decrypt_content-xchacha key payload jwe size c = simp (
      c.iv_field,
      c.aad_field,
      c.ciphertext_field,
      c.tag_field,
      codes_laws.decode-encode,
      arrays.exact 32 key size,
      arrays.mismatch 12 c.nonce (λ e. omega arith),
    )
