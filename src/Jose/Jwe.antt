-- ===== src/Jose/Jwe.antt =====
-- jose/jwe.rs: JSON web encryption.
pub mod Algorithms
pub mod Key
pub mod Data
pub mod Random
pub mod Libraries
pub mod Encrypt
pub mod Builder
pub mod Decrypt
pub mod Compact
pub mod Opening
pub mod Delivery
pub mod Transfer
pub mod Stores
use infosec.Common.{Outcome}
use infosec.Foreign.Encodings.{Codec}
use infosec.Traits.{Receiver}

-- `decrypt` of the crate's users.
abbrev pub decrypt :
    Libraries.Libraries → {Json T : Type 0} → Codec T → Data.Jwe Json → Receiver → Outcome T
decrypt lib json jwe receiver = Decrypt.decrypt lib json jwe receiver
