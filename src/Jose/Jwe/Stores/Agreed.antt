-- ===== src/Jose/Jwe/Stores/Agreed.antt =====
-- jose/jwe.rs, its test `edx25519`: a secret with a receiver whose keys are on Ed25519.
use infosec.Common.{◌≡◌, refl, some, Text, Bytes, length, take, ok, foreign}
use infosec.Jose.Jwe.Libraries.{Libraries, AreLawful}
use infosec.Jose.Jwe.Random.{Random}
use infosec.Jose.Jwe.Key.Texts.{try_into-eq-ok}
use infosec.Jose.Jwe.Stores.{KeyCrates, array_of, edx25519}
use infosec.Jose.Jwe.Stores.Receivers.{AreKeyCrates}

-- The texts are the base64url of the two keys of a pair on Ed25519.
pub record IsKeyPair (lib : Libraries) (crates : KeyCrates lib) (secret public : Text)
    : Type 0 where
  pub key : crates.SigningKey
  pub secret_decoded : lib.base64.decode_vec secret ≡ some (crates.signing_to_bytes key)
  pub bytes : Bytes
  pub public_decoded : lib.base64.decode_vec public ≡ some bytes
  pub public_length : length bytes ≡ 32
  pub verifies : crates.verifying_from bytes ≡ some (crates.verifying_key key)

-- A test returns the same on both sides, whatever the generators give.
abbrev pub Agrees : {S : Type 0} → Random S (Bytes × Bytes) → Type 0
Agrees {S} test = (s : S) → (shared : Bytes) × (t : S) × (test s ≡ ok ((shared, shared), t))

module _ (lib : Libraries) (crates : KeyCrates lib) where
  open lib use {base64, rng}

  array_of-eq-ok :
      (text : Text) (bytes : Bytes)
      → base64.decode_vec text ≡ some bytes
      → length bytes ≡ 32
      → array_of lib crates text ≡ ok bytes
  array_of-eq-ok text bytes e size =
      rw (e, (try_into-eq-ok 32 bytes bytes foreign).1 (size, refl)) refl

  -- The sender, who knows the public key, and the receiver, who knows the secret, get the same.
  pub edx25519-Agrees :
      (laws : AreLawful lib) (key_laws : AreKeyCrates lib crates)
      → (secret public : Text) → IsKeyPair lib crates secret public
      → Agrees (edx25519 lib crates secret public)
  unfolding edx25519
  edx25519-Agrees laws key_laws secret public pair s =
      let (e, t) = rng.ephemeral_secret s in
      let hashed = take 32 (crates.sha512 (crates.signing_to_bytes pair.key)) in
      (
        lib.x25519.static_dh (lib.x25519.static_from hashed) (lib.x25519.ephemeral_public e),
        t,
        rw
            (
              array_of-eq-ok secret (crates.signing_to_bytes pair.key) pair.secret_decoded
                  (key_laws.signing_length pair.key),
              array_of-eq-ok public pair.bytes pair.public_decoded pair.public_length,
              pair.verifies,
              key_laws.derived pair.key,
              laws.x25519.agree e (lib.x25519.static_from hashed),
            )
            refl,
      )
