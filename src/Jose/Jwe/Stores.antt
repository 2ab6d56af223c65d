-- ===== src/Jose/Jwe/Stores.antt =====
-- jose/jwe.rs, its module `test`: the key stores that receive messages, and the tests that send a
-- message to one.
pub mod Receivers
pub mod Agreed
pub mod Passed
use infosec.Common.{ℕ, Bytes, Text, codes, take, Option, none, some}
use infosec.Common.{Outcome, ok, err, panic, foreign, expect, unwrap}
use infosec.Foreign.Encodings.{Codec}
use infosec.Traits.{Receiver}
use infosec.Jose.Jwe.Algorithms.{a256gcm, ecdh_es_a256kw, ecies_es256k}
use infosec.Jose.Jwe.Key.{
  PublicKey, from_x25519, from_ecies, secret_key_from, shared_secret, try_into,
}
use infosec.Jose.Jwe.Data.{Jwe}
use infosec.Jose.Jwe.Libraries.{Libraries}
use infosec.Jose.Jwe.Random.{Random, ◌>>=◌, pure, draw, lift}
use infosec.Jose.Jwe.Builder.{
  JweBuilder, Payload, new, set_payload, set_content_algorithm, set_key_algorithm, add_recipient,
  build, encrypt,
}
use infosec.Jose.Jwe.Compact.{encode, from_str}
use infosec.Jose.Jwe.{decrypt}

-- What the key stores call besides the crates of the library: `StaticSecret::random_from_rng` and
-- `to_bytes`, `ecies::SecretKey::serialize`, `SigningKey::{generate, as_bytes, verifying_key}`,
-- `VerifyingKey::{from_bytes, to_montgomery}` and `Sha512::digest`.
pub record KeyCrates (lib : Libraries) : Type 1 where
  pub random_static : lib.rng.State → lib.x25519.StaticSecret × lib.rng.State
  pub static_to_bytes : lib.x25519.StaticSecret → Bytes
  pub serialize : lib.ecies.SecretKey → Bytes
  pub SigningKey : Type 0
  pub generate : lib.rng.State → SigningKey × lib.rng.State
  pub signing_to_bytes : SigningKey → Bytes
  pub VerifyingKey : Type 0
  pub verifying_key : SigningKey → VerifyingKey
  pub verifying_from : Bytes → Option VerifyingKey
  pub to_montgomery : VerifyingKey → Bytes
  pub sha512 : Bytes → Bytes

-- `Ed25519`: its keys are on X25519.
pub record Ed25519 (lib : Libraries) : Type 0 where
  pub public_key : Bytes
  pub secret_key : lib.x25519.StaticSecret

-- `X25519`
pub record X25519 (lib : Libraries) : Type 0 where
  pub public_key : Bytes
  pub secret_key : lib.x25519.StaticSecret

-- `Es256k`
pub record Es256k (lib : Libraries) : Type 0 where
  pub public_key : lib.ecies.PublicKey
  pub secret_key : lib.ecies.SecretKey

-- `key_id` of each store, and the key ID under which the tests add the recipient.
abbrev pub alice : Text
alice = codes "did:example:alice#key-id"

-- `expect("…")` on what draws random values.
abbrev pub expecting : {S A : Type 0} → Random S A → Random S A
expecting m s = expect (m s)

module _ (lib : Libraries) (crates : KeyCrates lib) where
  open lib use {base64, x25519, ecies, rng}
  open rng use {State}

  -- `X25519::new`
  unfoldable pub new_x25519 : Random State (X25519 lib)
  new_x25519 = do
    secret_key ← draw crates.random_static
    pure (record { public_key = x25519.static_public secret_key; secret_key = secret_key })

  -- `Es256k::new`
  unfoldable pub new_es256k : Random State (Es256k lib)
  new_es256k = do
    pair ← draw rng.keypair
    pure (record { public_key = pair.1; secret_key = pair.0 })

  -- `Ed25519::new`: the key pair on X25519 is derived from one on Ed25519.
  unfoldable pub new_ed25519 : Random State (Ed25519 lib)
  new_ed25519 = do
    signing_key ← draw crates.generate
    let hashed = take 32 (crates.sha512 (crates.signing_to_bytes signing_key))
    pure (record {
      public_key = crates.to_montgomery (crates.verifying_key signing_key);
      secret_key = x25519.static_from hashed;
    })

  -- `Receiver for X25519`
  unfoldable pub x25519_receiver : X25519 lib → Receiver
  unfolding shared_secret secret_key_from
  x25519_receiver store = record {
    key_id = alice;
    shared_secret = λ sender_public.
        shared_secret x25519 ecies (secret_key_from (crates.static_to_bytes store.secret_key))
          sender_public;
  }

  -- `Receiver for Ed25519`
  unfoldable pub ed25519_receiver : Ed25519 lib → Receiver
  unfolding shared_secret secret_key_from
  ed25519_receiver store = record {
    key_id = alice;
    shared_secret = λ sender_public.
        shared_secret x25519 ecies (secret_key_from (crates.static_to_bytes store.secret_key))
          sender_public;
  }

  -- `Receiver for Es256k`
  unfoldable pub es256k_receiver : Es256k lib → Receiver
  unfolding shared_secret secret_key_from
  es256k_receiver store = record {
    key_id = alice;
    shared_secret = λ sender_public.
        shared_secret x25519 ecies (secret_key_from (crates.serialize store.secret_key))
          sender_public;
  }

  -- `Base64UrlUnpadded::decode_vec(TEXT).unwrap().try_into().unwrap()`
  abbrev pub array_of : Text → Outcome Bytes
  array_of text = in_array (base64.decode_vec text)
    where
      in_array : Option Bytes → Outcome Bytes
      in_array (some bytes) = expect (try_into 32 bytes foreign)
      in_array none = panic

  -- The test `edx25519`, of the secret and the public key in base64url. It returns what it compares:
  -- the secret of the sender and that of the receiver.
  unfoldable pub edx25519 : Text → Text → Random State (Bytes × Bytes)
  edx25519 secret public = do
    alice_secret ← lift (array_of secret)
    alice_public ← lift (array_of public)
    ephemeral_secret ← draw rng.ephemeral_secret
    let ephemeral_public = x25519.ephemeral_public ephemeral_secret
    alice_verifier ← lift (unwrap (crates.verifying_from alice_public))
    let alice_montgomery = crates.to_montgomery alice_verifier
    let ephemeral_dh = x25519.ephemeral_dh ephemeral_secret alice_montgomery
    let hashed = take 32 (crates.sha512 alice_secret)
    let alice_x_secret = x25519.static_from hashed
    let alice_dh = x25519.static_dh alice_x_secret ephemeral_public
    pure (ephemeral_dh, alice_dh)

  module _ (Json : Type 0) {T : Type 0} (json : Codec T) where
    -- The test `simple`. What each test returns is what it compares with the plaintext.
    unfoldable pub simple : T → Random State T
    unfolding new_x25519 x25519_receiver
    simple plaintext = do
      key_store ← new_x25519
      jwe ← expecting (encrypt lib Json json plaintext (from_x25519 key_store.public_key))
      lift (expect (decrypt lib json jwe (x25519_receiver key_store)))

    -- The test `compact`
    unfoldable pub compact : T → Random State T
    unfolding new_x25519 x25519_receiver
    compact plaintext = do
      key_store ← new_x25519
      jwe ← expecting (encrypt lib Json json plaintext (from_x25519 key_store.public_key))
      compact_jwe ← lift (expect (encode lib Json jwe))
      parsed ← lift (expect (from_str lib Json compact_jwe))
      lift (expect (decrypt lib json parsed (x25519_receiver key_store)))

    -- The test `default`
    unfoldable pub default : T → Random State T
    unfolding new_x25519 x25519_receiver
    default plaintext = do
      key_store ← new_x25519
      jwe ← expecting (
          build lib Json json
            (add_recipient (set_payload new plaintext) alice (from_x25519 key_store.public_key)))
      lift (expect (decrypt lib json jwe (x25519_receiver key_store)))

    -- The test `ecdh_es_a256kw`
    unfoldable pub wrapped : T → Random State T
    unfolding new_x25519 x25519_receiver
    wrapped plaintext = do
      key_store ← new_x25519
      jwe ← expecting (
          build lib Json json (
            add_recipient
              (set_payload (set_key_algorithm (set_content_algorithm new a256gcm) ecdh_es_a256kw)
                plaintext)
              alice (from_x25519 key_store.public_key)))
      lift (expect (decrypt lib json jwe (x25519_receiver key_store)))

    -- The test `ed25519`
    unfoldable pub ed25519 : T → Random State T
    unfolding new_ed25519 ed25519_receiver
    ed25519 plaintext = do
      key_store ← new_ed25519
      jwe ← expecting (
          build lib Json json
            (add_recipient (set_payload new plaintext) alice (from_x25519 key_store.public_key)))
      lift (expect (decrypt lib json jwe (ed25519_receiver key_store)))

    -- The test `ecies_es256k`
    unfoldable pub ecies_test : T → Random State T
    unfolding new_es256k es256k_receiver
    ecies_test plaintext = do
      key_store ← new_es256k
      jwe ← expecting (
          build lib Json json (
            add_recipient
              (set_payload (set_key_algorithm (set_content_algorithm new a256gcm) ecies_es256k)
                plaintext)
              alice (from_ecies ecies key_store.public_key)))
      lift (expect (decrypt lib json jwe (es256k_receiver key_store)))
