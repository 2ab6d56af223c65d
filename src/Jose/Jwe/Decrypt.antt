-- ===== src/Jose/Jwe/Decrypt.antt =====
-- jose/jwe/decrypt.rs: decryption of a JWE.
pub mod Content
pub mod Keys
pub mod Accepted
pub mod Addressed
pub mod Opened
pub mod Panics
pub mod Faults
pub mod Fatal
pub mod Reads
pub mod Refusals
pub mod EciesRefusals
pub mod Errors
pub mod ContentFailed
pub mod Failed
use infosec.Common.{
  ℕ, Bool, false, Option, none, some, List, [], ◌∷◌, ◌++◌, Bytes, Text, Text-discrete, holds,
  if◌then◌else◌,
}
use infosec.Common.{Outcome, ok, err, message, caused, foreign, or_err, ◌>>=◌, ◌>>◌}
use infosec.Foreign.Encodings.{Codec}
use infosec.Traits.{Receiver}
use infosec.Jose.Jwk.{PublicKeyJwk}
use infosec.Jose.Jwe.Algorithms.{ecdh_es, ecdh_es_a256kw, ecies_es256k}
use infosec.Jose.Jwe.Key.{
  PublicKey, SharedSecret, tag_pubkey_full, try_into, try_from, secret_to_bytes,
}
use infosec.Jose.Jwe.Data.{Header, KeyEncryption, Recipients, one, many, Jwe}
use infosec.Jose.Jwe.Libraries.{Libraries}

-- `r.header.kid == Some(key_id)`
abbrev pub has_kid : Text → Option Text → Bool
has_kid key_id none = false
has_kid key_id (some kid) = holds (Text-discrete kid key_id)

-- `recipients.iter().find(…)`
unfoldable pub find : Text → List KeyEncryption → Option KeyEncryption
find key_id [] = none
find key_id (r ∷ rs) = if has_kid key_id r.header.kid then some r else find key_id rs

-- The recipient of the JWE that the receiver is.
unfoldable pub find_recipient : Text → Recipients → Outcome KeyEncryption
unfolding find
find_recipient key_id (one recipient) = ok recipient
find_recipient key_id (many recipients) =
    or_err (find key_id recipients) (message "no recipient found")

module _ (lib : Libraries) where
  open lib use {base64, aes_gcm, arrays, key_wrap}

  abbrev add_y : Bytes → Option Text → Outcome Bytes
  add_y x none = ok x
  add_y x (some y) = do
    y_bytes ← or_err (base64.decode_vec y) (caused "issue decoding sender public key `y`")
    ok (tag_pubkey_full ∷ (x ++ y_bytes))

  -- The sender's ephemeral public key.
  unfoldable pub sender_key : PublicKeyJwk → Outcome PublicKey
  unfolding try_from
  sender_key epk = do
    x ← or_err (base64.decode_vec epk.x) (caused "issue decoding sender public key `x`")
    public_key ← add_y x epk.y
    try_from public_key

  -- `Aes256Gcm` over slices: a key, a nonce or a tag of another length is a panic.
  unfoldable pub gcm_decrypt : Bytes → Bytes → Bytes → Bytes → Bytes → Outcome Bytes
  gcm_decrypt key iv aad ciphertext tag = do
    key' ← arrays.from_slice 32 key
    nonce ← arrays.from_slice 12 iv
    tag' ← arrays.from_slice 16 tag
    or_err (aes_gcm.decrypt key' nonce aad ciphertext tag') (caused "issue decrypting")

  -- The content encryption key under ECIES-ES256K. The nonce and the tag are made into arrays
  -- before the key is.
  unfoldable pub unwrap_ecies : KeyEncryption → SharedSecret → Outcome Bytes
  unfolding secret_to_bytes
  unwrap_ecies recipient shared_secret = do
    base64_iv ← or_err recipient.header.iv (message "missing `iv`")
    base64_tag ← or_err recipient.header.tag (message "missing `iv`")
    iv ← or_err (base64.decode_vec base64_iv) (caused "issue decoding `iv`")
    tag ← or_err (base64.decode_vec base64_tag) (caused "issue decoding `tag`")
    encrypted_key ←
        or_err (base64.decode_vec recipient.encrypted_key) (caused "issue decoding `encrypted_key`")
    nonce ← arrays.from_slice 12 iv
    tag' ← arrays.from_slice 16 tag
    key ← arrays.from_slice 32 (secret_to_bytes shared_secret)
    buffer ← or_err (aes_gcm.decrypt key nonce [] encrypted_key tag') (caused "issue decrypting")
    try_into 32 buffer (message "issue unwrapping cek")

  -- The content encryption key under ECDH-ES+A256KW.
  unfoldable pub unwrap_a256kw : KeyEncryption → SharedSecret → Outcome Bytes
  unfolding secret_to_bytes
  unwrap_a256kw recipient shared_secret = do
    encrypted_key ←
        or_err (base64.decode_vec recipient.encrypted_key) (caused "issue decoding `encrypted_key`")
    unwrapped ←
        or_err (key_wrap.unwrap (secret_to_bytes shared_secret) encrypted_key)
          (caused "issue unwrapping cek")
    try_into 32 unwrapped (message "issue unwrapping cek")

  -- The content encryption key, by the algorithm in the recipient's header.
  unfoldable pub find_cek : KeyEncryption → SharedSecret → Outcome Bytes
  unfolding secret_to_bytes unwrap_a256kw unwrap_ecies
  find_cek recipient shared_secret = elim recipient.header.alg [
    | ecdh_es ↦ ok (secret_to_bytes shared_secret)
    | ecdh_es_a256kw ↦ unwrap_a256kw recipient shared_secret
    | ecies_es256k ↦ unwrap_ecies recipient shared_secret
  ]

  module _ {Json : Type 0} {T : Type 0} (json : Codec T) where
    -- The content under its key. The algorithm is A256GCM whatever the protected header says.
    unfoldable pub decrypt_content : Jwe Json → Bytes → Outcome T
    unfolding gcm_decrypt
    decrypt_content jwe cek = do
      iv ← or_err (base64.decode_vec jwe.iv) (caused "issue decoding `iv`")
      tag ← or_err (base64.decode_vec jwe.tag) (caused "issue decoding `tag`")
      aad ← or_err (base64.decode_vec jwe.aad) (caused "issue decoding `aad`")
      ciphertext ← or_err (base64.decode_vec jwe.ciphertext) (caused "issue decoding `ciphertext`")
      buffer ← gcm_decrypt cek iv aad ciphertext tag
      or_err (json.from_slice buffer) foreign

    -- `decrypt`
    unfoldable pub decrypt : Jwe Json → Receiver → Outcome T
    decrypt jwe receiver = do
      recipient ← find_recipient receiver.key_id jwe.recipients
      sender_public ← sender_key recipient.header.epk
      shared_secret ← receiver.shared_secret sender_public
      cek ← find_cek recipient shared_secret
      decrypt_content jwe cek
