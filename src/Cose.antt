-- ===== src/Cose.antt =====
-- cose.rs: CBOR helpers, `Tag24` and the COSE key.
pub mod Cbor
pub mod Key
