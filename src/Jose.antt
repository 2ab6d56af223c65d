-- ===== src/Jose.antt =====
-- jose.rs: JSON object signing and encryption.
pub mod Jwa
pub mod Jwk
pub mod Jws
pub mod Jwe
pub mod Serde
