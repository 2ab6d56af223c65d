-- ===== src/Examples.antt =====
-- The theorems at concrete data, and tests that follow the source.
mod Encodings
mod Ciphers
mod CoseKeys
mod JwkKeys
mod JwsTokens
mod JweMessages
mod JweDelivery
mod JwePanics
mod JwsSafety
mod Serde
mod Radix
mod CborBytes
mod Vectors
mod KeyStores
pub mod JsonText
