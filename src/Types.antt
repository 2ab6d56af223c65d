-- ===== src/Types.antt =====
-- lib.rs: the key types and the curves that COSE and JOSE share.

-- The default is `okp`.
pub data KeyType : Type 0 where
  okp ec oct : KeyType

-- The default is `ed25519`.
pub data Curve : Type 0 where
  ed25519 x25519 es256k : Curve

unfoldable pub KeyType-discrete : Discrete KeyType
KeyType-discrete = hlevel
