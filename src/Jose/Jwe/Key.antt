-- ===== src/Jose/Jwe/Key.antt =====
-- jose/jwe/key.rs: public keys, secret keys and shared secrets. `[u8; 32]` and `[u8; 65]` are byte
-- strings, of that length where a key is well formed.
pub mod Encoding
pub mod Texts
pub mod Constructed
use infosec.Common.{
  ℕ, ◌-◌, ◌≡◌, Bool, Option, none, some, List, ◌∷◌, ◌++◌, Bytes, Byte, byte, x0, x4, Text,
}
use infosec.Common.{length, take, drop, ◌==◌, if◌then◌else◌}
use infosec.Common.{Outcome, Error, ok, err, message, caused, foreign, or_err, ◌>>=◌, ◌>>◌}
use infosec.Foreign.Encodings.{Base64}
use infosec.Foreign.Encryption.{X25519, Ecies}

-- TAG_PUBKEY_FULL
abbrev pub tag_pubkey_full : Byte
tag_pubkey_full = byte x0 x4

-- `&bytes[from..to]`
abbrev pub slice : ℕ → ℕ → Bytes → Bytes
slice from to bytes = take (to - from) (drop from bytes)

-- `bytes.try_into()` to an array of `n` bytes.
abbrev pub try_into : ℕ → Bytes → Error → Outcome Bytes
try_into n bytes e = if length bytes == n then ok bytes else err e

pub record SecretKey : Type 0 where
  pub bytes : Bytes

pub record SharedSecret : Type 0 where
  pub bytes : Bytes

pub record PublicKey : Type 0 where
  pub x : Bytes
  pub y : Option Bytes

-- `SharedSecret::to_bytes` and `as_bytes`
unfoldable pub secret_to_bytes : SharedSecret → Bytes
secret_to_bytes s = s.bytes

-- `From<[u8; 32]> for SecretKey`
unfoldable pub secret_key_from : Bytes → SecretKey
secret_key_from val = record { bytes = val }

-- `PublicKey::to_vec`
unfoldable pub to_vec : PublicKey → Bytes
to_vec key = elim key.y [ none ↦ key.x | some y ↦ tag_pubkey_full ∷ (key.x ++ y) ]

-- `PublicKey::to_bytes`
unfoldable pub to_bytes : PublicKey → Bytes
to_bytes key = key.x

-- `From<[u8; 32]> for PublicKey`
unfoldable pub from_x : Bytes → PublicKey
from_x val = record { x = val; y = none }

-- `From<x25519_dalek::PublicKey> for PublicKey`, of the key's bytes, and back.
unfoldable pub from_x25519 : Bytes → PublicKey
from_x25519 val = record { x = val; y = none }

abbrev pub to_x25519 : PublicKey → Bytes
to_x25519 val = val.x

-- `From<[u8; 65]> for PublicKey`: the first byte is not read.
unfoldable pub from_tagged : Bytes → PublicKey
from_tagged val = record { x = slice 1 33 val; y = some (slice 33 65 val) }

-- `TryFrom<&[u8]> for PublicKey`, and `TryFrom<Vec<u8>>`
unfoldable pub try_from : Bytes → Outcome PublicKey
try_from val =
    if length val == 32
    then ok (record { x = slice 0 32 val; y = none })
    else if length val == 65
    then ok (record { x = slice 1 33 val; y = some (slice 33 65 val) })
    else err (message "invalid public key length")

-- `PublicKey::from_slice`
abbrev pub from_slice : Bytes → Outcome PublicKey
from_slice val = try_from val

module _ (base64 : Base64) where
  -- `TryFrom<&str> for SecretKey`, and `TryFrom<&String>`
  unfoldable pub secret_key_from_str : Text → Outcome SecretKey
  unfolding secret_key_from
  secret_key_from_str val = do
    decoded ← or_err (base64.decode_vec val) foreign
    bytes ← try_into 32 decoded (message "invalid key")
    ok (secret_key_from bytes)

  -- `TryFrom<&str> for PublicKey`, and `TryFrom<&String>`
  unfoldable pub public_key_from_str : Text → Outcome PublicKey
  unfolding from_x
  public_key_from_str val = do
    decoded ← or_err (base64.decode_vec val) foreign
    bytes ← try_into 32 decoded (message "invalid key")
    ok (from_x bytes)

module _ (ecies : Ecies) where
  -- `From<ecies::PublicKey> for PublicKey`
  unfoldable pub from_ecies : ecies.PublicKey → PublicKey
  unfolding from_tagged
  from_ecies val = from_tagged (ecies.serialize val)

  -- `TryFrom<PublicKey> for ecies::PublicKey`
  unfoldable pub ecies_public : PublicKey → Outcome ecies.PublicKey
  unfolding to_vec
  ecies_public val = do
    key ← try_into 65 (to_vec val) (message "issue converting public key to array")
    or_err (ecies.parse_public key) (caused "issue parsing public key")

  -- `TryFrom<SecretKey> for ecies::SecretKey`
  unfoldable pub ecies_secret : SecretKey → Outcome ecies.SecretKey
  ecies_secret val = or_err (ecies.parse_secret val.bytes) (caused "issue parsing secret key")

module _ (x25519 : X25519) (ecies : Ecies) where
  -- `SecretKey::shared_secret`
  unfoldable pub shared_secret : SecretKey → PublicKey → Outcome SharedSecret
  unfolding to_bytes
  shared_secret secret sender = elim sender.y [
    | none ↦
        ok (record { bytes = x25519.static_dh (x25519.static_from secret.bytes) (to_bytes sender) })
    | some _ ↦ do
      public ← ecies_public ecies sender
      own ← ecies_secret ecies secret
      aes_key ← or_err (ecies.decapsulate public own) foreign
      ok (record { bytes = aes_key })
  ]
