-- ===== src/Traits.antt =====
-- lib.rs: the traits `Signer` and `Receiver`. The futures of the source are awaited where they are
-- made, so a method is a function.
use infosec.Common.{Text, Bytes, Outcome, ok, err, panic}
use infosec.Jose.Jwa.{Algorithm}
use infosec.Jose.Jwe.Key.{PublicKey, SharedSecret}

pub record Signer : Type 0 where
  pub try_sign : Bytes → Outcome Bytes
  pub verifying_key : Outcome Bytes
  pub algorithm : Algorithm
  pub verification_method : Outcome Text

-- The default method `Signer::sign`: `expect` panics on an error.
unfoldable pub sign : Signer → Bytes → Outcome Bytes
sign signer msg = elim (signer.try_sign msg) [ ok sig ↦ ok sig | err _ ↦ panic | panic ↦ panic ]

pub record Receiver : Type 0 where
  pub key_id : Text
  pub shared_secret : PublicKey → Outcome SharedSecret
