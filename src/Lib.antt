-- ===== src/Lib.antt =====
-- infosec: COSE keys, and JOSE keys, signatures and encryption.
--
-- The crate signs claims into tokens and verifies them (src/jose/jws.rs), encrypts payloads for
-- recipients and decrypts them (src/jose/jwe.rs, src/jose/jwe/*.rs), and carries public keys
-- between JWK, multibase and COSE (src/jose/jwk.rs, src/cose/key.rs). Its callers hand in a Signer,
-- a Receiver and a resolver of key IDs (src/lib.rs); the algorithms are those of other crates.
--
-- Files and sources:
--   Common: lists, texts, octets, UTF-8 and results. A text is its list of code points. A result is
--     `ok`, `err`, or `panic` where the source panics (an index, `expect`, `unwrap`, `from_slice`).
--     An error keeps the message it was made with, and not the text of what caused it.
--   Foreign: the crates that the source calls, as parameters, and the laws of theirs that the
--     theorems use: base64ct, multibase, hex, serde_json and ciborium, the signature crates, the AEADs,
--     aes_kw, x25519_dalek, ecies, generic_array and rand.
--   Types, Traits: src/lib.rs. The futures are awaited where they are made, so a method is a
--     function.
--   Cose/Cbor: src/cose/cbor.rs (`to_vec`, `from_slice`, `Tag24`).
--   Cose/Key: src/cose/key.rs (`to_value` is `From<CoseKey> for Value`, `try_from` is `TryFrom<Value>`).
--     Wire is a key as bytes, Checks the module `test`.
--   Jose/Jwa: src/jose/jwa.rs.
--   Jose/Jwk: src/jose/jwk.rs. Subtraction on `usize` is taken with and without overflow checks.
--     Checks is the module `tests`.
--   Jose/Jws: src/jose/jws.rs and src/jose/jwt.rs. Data has the records, Verify the loop of
--     `Jws::verify` and the checks of a key, Compact `Jws::encode`, `FromStr` and `did`, Builder
--     the builder with `encode` and `decode`, Base64url the serde module of that name.
--   Jose/Jwe: src/jose/jwe.rs. Key is src/jose/jwe/key.rs, Encrypt and Builder are
--     src/jose/jwe/encrypt.rs, Decrypt is src/jose/jwe/decrypt.rs, Compact is `encode` and
--     `FromStr`. What draws random values passes the state of the generators along (Random).
--   Jose/Jwe/Stores: the key stores and the tests in the module `test` of src/jose/jwe.rs.
--   Jose/Serde: the JSON of the records of src/lib.rs, src/jose/jwa.rs, src/jose/jwk.rs,
--     src/jose/jws.rs, src/jose/jwt.rs and src/jose/jwe.rs, by the attributes of the source: what the
--     derived Serialize writes (`write_`), and what the derived Deserialize reads (`read_`). A JSON
--     document is a tree whose members keep their order (Foreign/Json); its text form is a parameter.
--     A reader takes every form that serde takes; an Origin says whether the value comes from the
--     parser or from what a struct with a flattened field has stored.
--   The modules below these, and Token, Signed, Unsigned, Made, Order, Calls, Asked, Safety, Opening,
--     Delivery, Transfer and Sent, hold the proofs.
--     Examples has small crates that meet the laws, and the theorems on concrete keys, tokens and
--     messages; and base64url, base58btc and the bytes of CBOR as they are, with which the
--     tests of src/jose/jwk.rs and src/cose/key.rs are run (Vectors).
--
-- Loops are recursion on the list that is read, so no fuel is needed (but for the digits of numbers
-- in Examples/Radix). Array lengths are lengths of byte strings; `try_into` and `from_slice` are
-- where they are checked.
--
-- Not modelled: the wiping of secrets from memory, which derived code of another crate does to
-- memory that is no longer read; the debug traces; the test of src/cose/cbor.rs that writes a Tag24
-- as JSON, which is about other crates alone; and src/cose.rs and src/jose.rs, which only declare
-- modules.
pub mod Common
pub mod Foreign
pub mod Types
pub mod Traits
pub mod Cose
pub mod Jose
pub mod Examples
