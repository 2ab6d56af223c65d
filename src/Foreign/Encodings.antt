-- ===== src/Foreign/Encodings.antt =====
-- `base64ct::Base64UrlUnpadded`, `multibase`, and the `serde` formats `serde_json` and `ciborium`.
pub mod Alphabet
use infosec.Common.{ℕ, ◌≡◌, Bool, true, ◌||◌, ◌&&◌, Option, some, Bytes, Text, All, leb, ◌==◌}

-- `to_vec` and `from_slice` of a format at one type that derives `Serialize` and `Deserialize`.
pub record Codec {ℓ} (T : Type ℓ) : Type ℓ where
  pub to_vec : T → Option Bytes
  pub from_slice : Bytes → Option T

-- What was serialized is read back.
pub record IsRoundTrip {ℓ} {T : Type ℓ} (codec : Codec T) : Type ℓ where
  pub from_slice-to_vec :
      (t : T) (bytes : Bytes) → codec.to_vec t ≡ some bytes → codec.from_slice bytes ≡ some t

pub record Base64 : Type 0 where
  pub encode_string : Bytes → Text
  pub decode_vec : Text → Option Bytes

-- The alphabet of RFC 4648, section 5: A-Z, a-z, 0-9, `-` and `_`.
abbrev pub is_url_safe : ℕ → Bool
is_url_safe c =
    leb b'A' c && leb c b'Z'
    || leb b'a' c && leb c b'z'
    || leb b'0' c && leb c b'9'
    || c == b'-'
    || c == b'_'

pub record IsBase64 (base64 : Base64) : Type 0 where
  pub decode-encode : (bytes : Bytes) → base64.decode_vec (base64.encode_string bytes) ≡ some bytes
  pub alphabet : (bytes : Bytes) → All (λ c. is_url_safe c ≡ true) (base64.encode_string bytes)

-- `hex::{encode, decode}`; `Vec::from_hex` is `decode`.
pub record Hex : Type 0 where
  pub encode : Bytes → Text
  pub decode : Text → Option Bytes

-- `multibase::{decode, encode}`. `Base` is the type of the bases.
pub record Multibase : Type 1 where
  pub Base : Type 0
  pub base58_btc : Base
  pub decode : Text → Option (Base × Bytes)
  pub encode : Base → Bytes → Text

pub record IsMultibase (multibase : Multibase) : Type 1 where
  pub decode-encode :
      (base : multibase.Base) (bytes : Bytes)
      → multibase.decode (multibase.encode base bytes) ≡ some (base, bytes)
