-- ===== src/Jose/Jwk.antt =====
-- jose/jwk.rs: JSON web keys, and multibase keys to and from them.
pub mod Multikey
pub mod Refused
pub mod Checks
use infosec.Common.{
  ℕ, ◌+◌, ◌-◌, ◌^◌, Bool, true, false, ◌&&◌, not, Option, none, some, List, [], ◌∷◌, ◌++◌,
}
use infosec.Common.{
  Bytes, Bytes-discrete, byte, x0, x1, xc, xd, xe, Text, codes, length, take, drop,
}
use infosec.Common.{ltb, ◌==◌, holds, if◌then◌else◌}
use infosec.Common.{Outcome, ok, err, panic, message, caused, foreign, or_err, guard, ◌>>=◌, ◌>>◌}
use infosec.Types.{KeyType, okp, Curve, ed25519}
use infosec.Foreign.Encodings.{Base64, Multibase}
use infosec.Jose.Jwe.Algorithms.{KeyAlgorithm}

-- The default is `signature`.
pub data KeyUse : Type 0 where
  signature encryption : KeyUse

pub record PublicKeyJwk : Type 0 where
  pub kid : Option Text
  pub kty : KeyType
  pub crv : Curve
  pub x : Text
  pub y : Option Text
  pub alg : Option KeyAlgorithm
  pub use_ : Option KeyUse

-- `PublicKeyJwk::default()`
abbrev pub default : PublicKeyJwk
default = record { kid = none; kty = okp; crv = ed25519; x = []; y = none; alg = none; use_ = none }

pub record Jwks : Type 0 where
  pub keys : List PublicKeyJwk

-- ED25519_CODEC
abbrev pub ed25519_codec : Bytes
ed25519_codec = byte xe xd ∷ byte x0 x1 ∷ []

-- X25519_CODEC
abbrev pub x25519_codec : Bytes
x25519_codec = byte xe xc ∷ byte x0 x1 ∷ []

-- `a - b` on `usize`, of 64 bits: a panic where overflow is checked (debug builds), and otherwise
-- the wrapped difference.
abbrev pub usize_sub : Bool → ℕ → ℕ → Outcome ℕ
usize_sub overflow_checks a b =
    if ltb a b then (if overflow_checks then panic else ok (a + 2 ^ 64 - b)) else ok (a - b)

module _ (base64 : Base64) (multibase : Multibase) where
  abbrev decode_key : Text → Outcome Bytes
  decode_key key = do
    (_, key_bytes) ← or_err (multibase.decode key) (caused "issue decoding key")
    ok key_bytes

  -- The two checks of `from_multibase`, and the key that it builds.
  unfoldable pub from_key_bytes : Bool → Bytes → Outcome PublicKeyJwk
  from_key_bytes overflow_checks key_bytes = do
    n ← usize_sub overflow_checks (length key_bytes) 2
    guard (n == 32) (message "key is not 32 bytes long")
    let codec = take 2 key_bytes
    guard
        (not (
          not (holds (Bytes-discrete codec ed25519_codec))
          && not (holds (Bytes-discrete codec x25519_codec))))
        (message "not Ed25519")
    ok (record default { kty = okp; crv = ed25519; x = base64.encode_string (drop 2 key_bytes) })

  -- `PublicKeyJwk::from_multibase`
  unfoldable pub from_multibase : Bool → Text → Outcome PublicKeyJwk
  unfolding from_key_bytes
  from_multibase overflow_checks key = do
    key_bytes ← decode_key key
    from_key_bytes overflow_checks key_bytes

  -- `PublicKeyJwk::to_multibase`
  unfoldable pub to_multibase : PublicKeyJwk → Outcome Text
  to_multibase jwk = do
    x ← or_err (base64.decode_vec jwk.x) foreign
    ok (multibase.encode multibase.base58_btc (ed25519_codec ++ x))
