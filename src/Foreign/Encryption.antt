-- ===== src/Foreign/Encryption.antt =====
-- The encryption crates: `aes_gcm`, `chacha20poly1305`, `aes_kw`, `x25519_dalek`, `ecies`,
-- `generic_array` and `rand`.
use infosec.Common.{ℕ, ◌≡◌, ◌≢◌, Option, some, Bytes, byte, x0, x4, ◌∷◌, ◌++◌, length}
use infosec.Common.{Outcome, ok, panic}

-- `AeadInPlace`, with the tag apart: key, nonce, associated data, text.
pub record Aead : Type 0 where
  pub encrypt : Bytes → Bytes → Bytes → Bytes → Option (Bytes × Bytes)
  pub decrypt : Bytes → Bytes → Bytes → Bytes → Bytes → Option Bytes

-- With a key of 32 bytes and a nonce of the scheme's length what was encrypted is decrypted, and
-- the tag has 16 bytes.
pub record IsAead (nonce_length : ℕ) (aead : Aead) : Type 0 where
  pub decrypt-encrypt :
      (key nonce aad plaintext ciphertext tag : Bytes)
      → length key ≡ 32
      → length nonce ≡ nonce_length
      → aead.encrypt key nonce aad plaintext ≡ some (ciphertext, tag)
      → aead.decrypt key nonce aad ciphertext tag ≡ some plaintext
  pub tag_length :
      (key nonce aad plaintext ciphertext tag : Bytes)
      → aead.encrypt key nonce aad plaintext ≡ some (ciphertext, tag)
      → length tag ≡ 16

-- `GenericArray::from_slice`, at the length of the array.
pub record Arrays : Type 0 where
  pub from_slice : ℕ → Bytes → Outcome Bytes

-- It panics if the slice has another length.
pub record IsArrays (arrays : Arrays) : Type 0 where
  pub exact : (n : ℕ) (bytes : Bytes) → length bytes ≡ n → arrays.from_slice n bytes ≡ ok bytes
  pub mismatch : (n : ℕ) (bytes : Bytes) → length bytes ≢ n → arrays.from_slice n bytes ≡ panic

-- `Kek::{wrap_vec, unwrap_vec}`
pub record KeyWrap : Type 0 where
  pub wrap : Bytes → Bytes → Option Bytes
  pub unwrap : Bytes → Bytes → Option Bytes

pub record IsKeyWrap (key_wrap : KeyWrap) : Type 0 where
  pub unwrap-wrap :
      (kek key wrapped : Bytes)
      → length kek ≡ 32
      → key_wrap.wrap kek key ≡ some wrapped
      → key_wrap.unwrap kek wrapped ≡ some key

-- The source calls all but `static_public`, by which a receiver publishes its key.
pub record X25519 : Type 1 where
  pub EphemeralSecret : Type 0
  pub StaticSecret : Type 0
  pub static_from : Bytes → StaticSecret
  pub ephemeral_public : EphemeralSecret → Bytes
  pub static_public : StaticSecret → Bytes
  pub ephemeral_dh : EphemeralSecret → Bytes → Bytes
  pub static_dh : StaticSecret → Bytes → Bytes

-- The two sides agree on a secret. Keys and secrets have 32 bytes.
pub record IsX25519 (x25519 : X25519) : Type 0 where
  pub agree :
      (e : x25519.EphemeralSecret) (s : x25519.StaticSecret)
      → x25519.ephemeral_dh e (x25519.static_public s)
        ≡ x25519.static_dh s (x25519.ephemeral_public e)
  pub public_length : (e : x25519.EphemeralSecret) → length (x25519.ephemeral_public e) ≡ 32
  pub dh_length :
      (e : x25519.EphemeralSecret) (key : Bytes) → length (x25519.ephemeral_dh e key) ≡ 32

-- The source calls all but `public_of`, by which a receiver publishes its key.
pub record Ecies : Type 1 where
  pub PublicKey : Type 0
  pub SecretKey : Type 0
  pub parse_public : Bytes → Option PublicKey
  pub parse_secret : Bytes → Option SecretKey
  pub serialize : PublicKey → Bytes
  pub public_of : SecretKey → PublicKey
  pub encapsulate : SecretKey → PublicKey → Option Bytes
  pub decapsulate : PublicKey → SecretKey → Option Bytes

-- The two sides agree on a secret of 32 bytes. A public key is serialized as the byte 4 and two
-- coordinates of 32 bytes, and parsed from there.
pub record IsEcies (ecies : Ecies) : Type 0 where
  pub agree :
      (e s : ecies.SecretKey) (secret : Bytes)
      → ecies.encapsulate e (ecies.public_of s) ≡ some secret
      → ecies.decapsulate (ecies.public_of e) s ≡ some secret
  pub secret_length :
      (e : ecies.SecretKey) (key : ecies.PublicKey) (secret : Bytes)
      → ecies.encapsulate e key ≡ some secret
      → length secret ≡ 32
  pub serialized :
      (key : ecies.PublicKey)
      → (x : Bytes) × (y : Bytes) × (ecies.serialize key ≡ byte x0 x4 ∷ (x ++ y))
        × (length x ≡ 32)
        × (length y ≡ 32)
  pub parse-serialize :
      (key : ecies.PublicKey) → ecies.parse_public (ecies.serialize key) ≡ some key

-- The generators `thread_rng` and `OsRng`, as one state that the draws pass on.
pub record Rng (x25519 : X25519) (ecies : Ecies) : Type 1 where
  pub State : Type 0
  pub ephemeral_secret : State → x25519.EphemeralSecret × State
  pub aes_key : State → Bytes × State
  pub aes_nonce : State → Bytes × State
  pub xchacha_nonce : State → Bytes × State
  pub keypair : State → (ecies.SecretKey × ecies.PublicKey) × State

-- The lengths of what is drawn; the keys of a pair belong together.
pub record IsRng (x25519 : X25519) (ecies : Ecies) (rng : Rng x25519 ecies) : Type 0 where
  pub key_length : (s : rng.State) → length (rng.aes_key s).0 ≡ 32
  pub nonce_length : (s : rng.State) → length (rng.aes_nonce s).0 ≡ 12
  pub xchacha_nonce_length : (s : rng.State) → length (rng.xchacha_nonce s).0 ≡ 24
  pub paired : (s : rng.State) → (rng.keypair s).0.1 ≡ ecies.public_of (rng.keypair s).0.0
