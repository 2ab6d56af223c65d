-- ===== src/Jose/Jwe/Builder.antt =====
-- jose/jwe/encrypt.rs: the builder, and how each key management algorithm encrypts the key.
pub mod Built
pub mod Entries
pub mod EntryFails
pub mod Ready
pub mod Total
pub mod Sizes
pub mod Fails
pub mod Failed
pub mod Calls
use infosec.Common.{
  ℕ, none, some, List, [], ◌∷◌, ◌++◌, Bytes, byte, x0, Text, length, replicate, ◌==◌, if◌then◌else◌,
}
use infosec.Common.{Outcome, ok, err, message, foreign, or_err}
use infosec.Foreign.Encodings.{Codec}
use infosec.Jose.Jwe.Algorithms.{ContentAlgorithm, a256gcm as a256gcm_content}
use infosec.Jose.Jwe.Algorithms.{xchacha20_poly1305 as xchacha_content, KeyAlgorithm}
use infosec.Jose.Jwe.Algorithms.{
  ecdh_es as ecdh_es_algorithm, ecdh_es_a256kw, ecies_es256k as ecies_algorithm,
}
use infosec.Jose.Jwe.Key.{to_x25519, PublicKey}
use infosec.Jose.Jwe.Data.{default_header, KeyEncryption, Recipients, one, many, Protected, Jwe}
use infosec.Jose.Jwe.Libraries.{Libraries}
use infosec.Jose.Jwe.Random.{Random, ◌>>=◌, ◌>>◌, pure, draw, lift}
use infosec.Jose.Jwe.Encrypt.{
  Recipient, Encrypted, okp_key, a256gcm, xchacha20_poly1305, ecdh_a256kw, ecies_es256k,
}

-- The typestates of the builder.
pub data NoPayload : Type 0 where
  no_payload : NoPayload

pub record Payload (T : Type 0) : Type 0 where
  pub value : T

pub record JweBuilder (P : Type 0) : Type 0 where
  pub content_algorithm : ContentAlgorithm
  pub key_algorithm : KeyAlgorithm
  pub payload : P
  pub recipients : List Recipient

-- `JweBuilder::new`, and `default`
unfoldable pub new : JweBuilder NoPayload
new = record {
  content_algorithm = a256gcm_content;
  key_algorithm = ecdh_es_algorithm;
  payload = no_payload;
  recipients = [];
}

-- `JweBuilder::payload`
unfoldable pub set_payload : {T : Type 0} → JweBuilder NoPayload → T → JweBuilder (Payload T)
set_payload b value = record {
  content_algorithm = b.content_algorithm;
  key_algorithm = b.key_algorithm;
  payload = record { value = value };
  recipients = b.recipients;
}

module _ {P : Type 0} where
  -- `JweBuilder::content_algorithm`
  unfoldable pub set_content_algorithm : JweBuilder P → ContentAlgorithm → JweBuilder P
  set_content_algorithm b algorithm = record b { content_algorithm = algorithm }

  -- `JweBuilder::key_algorithm`
  unfoldable pub set_key_algorithm : JweBuilder P → KeyAlgorithm → JweBuilder P
  set_key_algorithm b algorithm = record b { key_algorithm = algorithm }

  -- `JweBuilder::add_recipient`
  unfoldable pub add_recipient : JweBuilder P → Text → PublicKey → JweBuilder P
  add_recipient b key_id public_key = record b {
    recipients = b.recipients ++ (record { key_id = key_id; public_key = public_key } ∷ []);
  }

-- The implementations of the trait `KeyEncypter`, with what each holds: `EcdhEs` its ephemeral
-- public key and the key that was agreed, the others their recipients and a key that was drawn.
pub data KeyEncrypter : Type 0 where
  ecdh_es : Bytes → Bytes → KeyEncrypter
  ecdh_es_a256_kw : List Recipient → Bytes → KeyEncrypter
  ecies_es256_k : List Recipient → Bytes → KeyEncrypter

-- `KeyEncypter::cek`
abbrev pub cek : KeyEncrypter → Bytes
cek (ecdh_es _ key) = key
cek (ecdh_es_a256_kw _ key) = key
cek (ecies_es256_k _ key) = key

module _ (lib : Libraries) where
  open lib use {base64, protected_json, x25519, rng}
  open rng use {State}

  -- `From<&Recipient> for EcdhEs`
  unfoldable pub new_ecdh_es : Recipient → Random State KeyEncrypter
  new_ecdh_es recipient = do
    secret ← draw rng.ephemeral_secret
    pure (
        ecdh_es (x25519.ephemeral_public secret)
          (x25519.ephemeral_dh secret (to_x25519 recipient.public_key)))

  -- `for r in self.recipients { recipients.push(f(&self.cek, r)?) }`
  unfoldable pub encrypt_each :
      (Recipient → Random State KeyEncryption) → List Recipient → Random State (List KeyEncryption)
  encrypt_each f [] = pure []
  encrypt_each f (r ∷ rs) = do encrypted ← f r; rest ← encrypt_each f rs; pure (encrypted ∷ rest)

  -- The single recipient of `EcdhEs`; its encrypted key is 32 zero bytes.
  abbrev pub direct : Bytes → KeyEncryption
  direct ephemeral_public = record {
    header = record default_header {
      alg = ecdh_es_algorithm;
      kid = none;
      epk = okp_key lib ephemeral_public;
    };
    encrypted_key = base64.encode_string (replicate 32 (byte x0 x0));
  }

  -- `KeyEncypter::recipients`
  unfoldable pub encrypt_key : KeyEncrypter → Random State Recipients
  unfolding encrypt_each
  encrypt_key (ecdh_es ephemeral_public _) = pure (one (direct ephemeral_public))
  encrypt_key (ecdh_es_a256_kw recipients key) = do
    list ← encrypt_each (ecdh_a256kw lib key) recipients
    pure (many list)
  encrypt_key (ecies_es256_k recipients key) = do
    list ← encrypt_each (ecies_es256k lib key) recipients
    pure (many list)

  -- The choice of the key encrypter; the checks on the number of recipients are the patterns.
  unfoldable pub key_encrypter : KeyAlgorithm → List Recipient → Random State KeyEncrypter
  unfolding new_ecdh_es
  key_encrypter algorithm [] = lift (err (message "no recipients set"))
  key_encrypter ecdh_es_algorithm (r ∷ []) = new_ecdh_es r
  key_encrypter ecdh_es_algorithm (r ∷ _ ∷ _) =
      lift (err (message "ECDH-ES requires a single recipient"))
  key_encrypter ecdh_es_a256kw (r ∷ rs) = do
    key ← draw rng.aes_key
    pure (ecdh_es_a256_kw (r ∷ rs) key)
  key_encrypter ecies_algorithm (r ∷ rs) = do
    key ← draw rng.aes_key
    pure (ecies_es256_k (r ∷ rs) key)

  module _ (Json : Type 0) {T : Type 0} (json : Codec T) where
    -- The choice of the content encryption.
    unfoldable pub encrypt_content : ContentAlgorithm → T → Bytes → Bytes → Random State Encrypted
    encrypt_content a256gcm_content plaintext key aad = a256gcm lib json plaintext key aad
    encrypt_content xchacha_content plaintext key aad =
        xchacha20_poly1305 lib json plaintext key aad

    -- `JweBuilder::build`
    unfoldable pub build : JweBuilder (Payload T) → Random State (Jwe Json)
    build b = do
      encrypter ← key_encrypter b.key_algorithm b.recipients
      let protected : Protected = record { alg = none; enc = b.content_algorithm }
      aad ← lift (or_err (protected_json.to_vec protected) foreign)
      encrypted ← encrypt_content b.content_algorithm b.payload.value (cek encrypter) aad
      recipients ← encrypt_key encrypter
      pure (record {
        protected = protected;
        unprotected = none;
        recipients = recipients;
        aad = base64.encode_string aad;
        iv = encrypted.iv;
        ciphertext = base64.encode_string encrypted.ciphertext;
        tag = encrypted.tag;
      })

    -- `encrypt`: A256GCM and ECDH-ES for one recipient without a key ID.
    unfoldable pub encrypt : T → PublicKey → Random State (Jwe Json)
    unfolding new set_content_algorithm set_key_algorithm set_payload add_recipient
    encrypt plaintext recipient_public = build (
        add_recipient
          (set_payload
            (set_key_algorithm (set_content_algorithm new a256gcm_content) ecdh_es_algorithm)
            plaintext)
          [] recipient_public)
