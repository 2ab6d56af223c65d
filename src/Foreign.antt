-- ===== src/Foreign.antt =====
-- The crates that the source calls. Each is a record of the operations that are called; what the
-- theorems rely on is a second record, of the documented laws of such operations.
pub mod Encodings
pub mod Json
pub mod Cbor
pub mod Signatures
pub mod Encryption
