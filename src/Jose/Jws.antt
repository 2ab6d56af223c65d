-- ===== src/Jose/Jws.antt =====
-- jose/jws.rs: JSON web signatures.
pub mod Data
pub mod Base64url
pub mod Verify
pub mod Compact
pub mod Builder
pub mod Token
pub mod Asked
pub mod Errors
pub mod Made
pub mod Order
pub mod Calls
pub mod Unsigned
pub mod Safety
pub mod Signed
