-- ===== src/Jose/Jwe/Encrypt.antt =====
-- jose/jwe/encrypt.rs: encryption of the content, and of its key for a recipient.
pub mod Named
use infosec.Common.{ℕ, Option, none, some, [], Bytes, Text}
use infosec.Common.{Outcome, ok, err, caused, foreign, or_err}
use infosec.Types.{okp, ec, ed25519, es256k}
use infosec.Foreign.Encodings.{Codec}
use infosec.Jose.Jwk
use infosec.Jose.Jwk.{PublicKeyJwk}
use infosec.Jose.Jwe.Algorithms.{ecdh_es_a256kw, ecies_es256k as ecies_algorithm}
use infosec.Jose.Jwe.Key.{to_x25519, PublicKey, slice, ecies_public}
use infosec.Jose.Jwe.Data.{Header, default_header, KeyEncryption}
use infosec.Jose.Jwe.Libraries.{Libraries}
use infosec.Jose.Jwe.Random.{Random, ◌>>=◌, ◌>>◌, pure, draw, lift}

pub record Recipient : Type 0 where
  pub key_id : Text
  pub public_key : PublicKey

pub record Encrypted : Type 0 where
  pub iv : Text
  pub tag : Text
  pub ciphertext : Bytes

module _ (lib : Libraries) where
  open lib use {base64, aes_gcm, xchacha, key_wrap, x25519, ecies, rng}
  open rng use {State}

  module _ {T : Type 0} (json : Codec T) where
    -- `a256gcm`
    unfoldable pub a256gcm : T → Bytes → Bytes → Random State Encrypted
    a256gcm plaintext cek aad = do
      buffer ← lift (or_err (json.to_vec plaintext) foreign)
      nonce ← draw rng.aes_nonce
      (ciphertext, tag) ←
          lift (or_err (aes_gcm.encrypt cek nonce aad buffer) (caused "issue encrypting"))
      pure (record {
        iv = base64.encode_string nonce;
        tag = base64.encode_string tag;
        ciphertext = ciphertext;
      })

    -- `xchacha20_poly1305`
    unfoldable pub xchacha20_poly1305 : T → Bytes → Bytes → Random State Encrypted
    xchacha20_poly1305 plaintext cek aad = do
      buffer ← lift (or_err (json.to_vec plaintext) foreign)
      nonce ← draw rng.xchacha_nonce
      (ciphertext, tag) ←
          lift (or_err (xchacha.encrypt cek nonce aad buffer) (caused "issue encrypting"))
      pure (record {
        iv = base64.encode_string nonce;
        tag = base64.encode_string tag;
        ciphertext = ciphertext;
      })

  -- The JWK of an ephemeral X25519 key.
  abbrev pub okp_key : Bytes → PublicKeyJwk
  okp_key key = record Jwk.default { kty = okp; crv = ed25519; x = base64.encode_string key }

  -- The JWK of an ephemeral secp256k1 key, in 65 bytes.
  abbrev pub ec_key : Bytes → PublicKeyJwk
  ec_key key = record Jwk.default {
    kty = ec;
    crv = es256k;
    x = base64.encode_string (slice 1 33 key);
    y = some (base64.encode_string (slice 33 65 key));
  }

  -- What `ecdh_a256kw` returns for an ephemeral public key and a wrapped key.
  abbrev pub kw_entry : Recipient → Bytes → Bytes → KeyEncryption
  kw_entry recipient ephemeral_public encrypted_key = record {
    header = record default_header {
      alg = ecdh_es_a256kw;
      kid = some recipient.key_id;
      epk = okp_key ephemeral_public;
    };
    encrypted_key = base64.encode_string encrypted_key;
  }

  -- `ecdh_a256kw`
  unfoldable pub ecdh_a256kw : Bytes → Recipient → Random State KeyEncryption
  ecdh_a256kw cek recipient = do
    ephemeral_secret ← draw rng.ephemeral_secret
    let ephemeral_public = x25519.ephemeral_public ephemeral_secret
    let shared_secret = x25519.ephemeral_dh ephemeral_secret (to_x25519 recipient.public_key)
    encrypted_key ← lift (or_err (key_wrap.wrap shared_secret cek) (caused "issue wrapping cek"))
    pure (kw_entry recipient ephemeral_public encrypted_key)

  -- What `ecies_es256k` returns for an ephemeral public key of 65 bytes and an encrypted key.
  abbrev pub ecies_entry : Recipient → Bytes → Bytes → Bytes → Bytes → KeyEncryption
  ecies_entry recipient ephemeral_public iv tag encrypted_key = record {
    header = record {
      alg = ecies_algorithm;
      kid = some recipient.key_id;
      epk = ec_key ephemeral_public;
      iv = some (base64.encode_string iv);
      tag = some (base64.encode_string tag);
    };
    encrypted_key = base64.encode_string encrypted_key;
  }

  -- `ecies_es256k`
  unfoldable pub ecies_es256k : Bytes → Recipient → Random State KeyEncryption
  ecies_es256k cek recipient = do
    (ephemeral_secret, ephemeral_public) ← draw rng.keypair
    public_key ← lift (ecies_public ecies recipient.public_key)
    shared_secret ← lift (or_err (ecies.encapsulate ephemeral_secret public_key) foreign)
    iv ← draw rng.aes_nonce
    (encrypted_key, tag) ←
        lift (or_err (aes_gcm.encrypt shared_secret iv [] cek) (caused "issue encrypting"))
    pure (ecies_entry recipient (ecies.serialize ephemeral_public) iv tag encrypted_key)
