-- ===== src/Jose/Jwe/Libraries.antt =====
-- The crates that the JWE modules call, and the laws of theirs that the theorems use.
use infosec.Foreign.Encodings.{Base64, Codec, IsBase64, IsRoundTrip}
use infosec.Foreign.Encryption.{
  Aead, IsAead, Arrays, IsArrays, KeyWrap, IsKeyWrap, X25519, IsX25519,
}
use infosec.Foreign.Encryption.{Ecies, IsEcies, Rng, IsRng}
use infosec.Jose.Jwe.Data.{Protected, ProtectedFlat}

-- `protected_json` and `flat_json` are `serde_json` at the two protected headers.
pub record Libraries : Type 1 where
  pub base64 : Base64
  pub protected_json : Codec Protected
  pub flat_json : Codec ProtectedFlat
  pub aes_gcm : Aead
  pub xchacha : Aead
  pub arrays : Arrays
  pub key_wrap : KeyWrap
  pub x25519 : X25519
  pub ecies : Ecies
  pub rng : Rng x25519 ecies

pub record AreLawful (lib : Libraries) : Type 0 where
  pub base64 : IsBase64 lib.base64
  pub flat_json : IsRoundTrip lib.flat_json
  pub aes_gcm : IsAead 12 lib.aes_gcm
  pub xchacha : IsAead 24 lib.xchacha
  pub arrays : IsArrays lib.arrays
  pub key_wrap : IsKeyWrap lib.key_wrap
  pub x25519 : IsX25519 lib.x25519
  pub ecies : IsEcies lib.ecies
  pub rng : IsRng lib.x25519 lib.ecies lib.rng
