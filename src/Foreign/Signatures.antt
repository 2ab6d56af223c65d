-- ===== src/Foreign/Signatures.antt =====
-- The signature schemes: `ed25519_dalek`, and `ecdsa` over `k256`.
use infosec.Common.{Bool, Option, Bytes}

pub record Ed25519 : Type 1 where
  pub VerifyingKey : Type 0
  pub Signature : Type 0
  pub key_from_bytes : Bytes → Option VerifyingKey
  pub signature_from_slice : Bytes → Option Signature
  pub verify : VerifyingKey → Bytes → Signature → Bool

-- `normalize_s` gives the low-S form of a signature that is not in it.
pub record Secp256k1 : Type 1 where
  pub VerifyingKey : Type 0
  pub Signature : Type 0
  pub key_from_sec1_bytes : Bytes → Option VerifyingKey
  pub signature_from_slice : Bytes → Option Signature
  pub normalize_s : Signature → Option Signature
  pub verify : VerifyingKey → Bytes → Signature → Bool
