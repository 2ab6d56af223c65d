-- ===== src/Examples/Ciphers.antt =====
-- Small ciphers that meet the laws. A private key is one bit, and two keys agree on the bit that
-- both have; nothing is hidden.
use mathlib.Core.Option.{some-injective}
use mathlib.Core.Path.{sym, ◌∙◌}
use infosec.Common.{
  ℕ, ◌≡◌, refl, Bool, true, false, ◌&&◌, zero, suc, ap, none, some, [], ◌∷◌, ◌++◌, arith,
}
use infosec.Common.{
  Byte, byte, x0, x1, x4, Bytes, Bytes-discrete, length, take, drop, replicate, drop-append,
  length-take, length-append, ◌==◌, holds, holds_iff, if◌then◌else◌,
}
use infosec.Common.{ok, panic}
use infosec.Foreign.Signatures.{Ed25519, Secp256k1}
use infosec.Foreign.Encryption.{
  Aead, IsAead, Arrays, IsArrays, KeyWrap, IsKeyWrap, X25519, IsX25519, Ecies, IsEcies, Rng, IsRng,
}

abbrev pub bit : Bool → Byte
bit true = byte x0 x1
bit false = byte x0 x0

abbrev bit_of : Bytes → Bool
bit_of (byte x0 x1 ∷ _) = true
bit_of _ = false

length-replicate : (n : ℕ) (b : Byte) → length (replicate n b) ≡ n
length-replicate zero b = refl
length-replicate (suc n) b = ap suc (length-replicate n b)

-- The text is the plaintext, and the tag the beginning of the key.
abbrev tag_of : Bytes → Bytes
tag_of key = take 16 (key ++ replicate 16 (bit false))

abbrev pub plain_aead : Aead
plain_aead = record {
  encrypt = λ key nonce aad plaintext. some (plaintext, tag_of key);
  decrypt = λ key nonce aad ciphertext tag.
      if holds (Bytes-discrete tag (tag_of key)) then some ciphertext else none;
}

plain_round :
    (key plaintext ciphertext tag : Bytes)
    → plaintext ≡ ciphertext
    → tag_of key ≡ tag
    → (if holds (Bytes-discrete tag (tag_of key)) then some ciphertext else none) ≡ some plaintext
plain_round key plaintext ciphertext tag p q =
    ground (arith, holds_iff (Bytes-discrete tag (tag_of key)))

length-tag_of : (key : Bytes) → length (tag_of key) ≡ 16
length-tag_of key = grind (arith, length-take, length-append, length-replicate)

pub plain-IsAead : (n : ℕ) → IsAead n plain_aead
plain-IsAead n = record {
  decrypt-encrypt = λ key nonce aad plaintext ciphertext tag k m e.
      plain_round key plaintext ciphertext tag (ap (λ p. p.0) (some-injective _ _ e))
        (ap (λ p. p.1) (some-injective _ _ e));
  tag_length = λ key nonce aad plaintext ciphertext tag e.
      sym (ap (λ p. length p.1) (some-injective _ _ e)) ∙ length-tag_of key;
}

abbrev pub arrays : Arrays
arrays = record { from_slice = λ n bytes. if length bytes == n then ok bytes else panic }

pub arrays-IsArrays : IsArrays arrays
arrays-IsArrays = record { exact = λ n bytes h. ground arith; mismatch = λ n bytes h. ground arith }

-- The key goes in front.
abbrev pub prefix_wrap : KeyWrap
prefix_wrap = record {
  wrap = λ kek key. some (kek ++ key);
  unwrap = λ kek wrapped. some (drop (length kek) wrapped);
}

pub prefix-IsKeyWrap : IsKeyWrap prefix_wrap
prefix-IsKeyWrap = record {
  unwrap-wrap = λ kek key wrapped n e. rw (sym (some-injective _ _ e), drop-append);
}

abbrev pub bit_x25519 : X25519
bit_x25519 = record {
  EphemeralSecret = Bool;
  StaticSecret = Bool;
  static_from = bit_of;
  ephemeral_public = λ s. replicate 32 (bit s);
  static_public = λ s. replicate 32 (bit s);
  ephemeral_dh = λ s key. replicate 32 (bit (s && bit_of key));
  static_dh = λ s key. replicate 32 (bit (s && bit_of key));
}

agree_bits :
    (e s : Bool)
    → bit_x25519.ephemeral_dh e (bit_x25519.static_public s)
      ≡ bit_x25519.static_dh s (bit_x25519.ephemeral_public e)
agree_bits true true = refl
agree_bits true false = refl
agree_bits false true = refl
agree_bits false false = refl

pub bit-IsX25519 : IsX25519 bit_x25519
bit-IsX25519 = record {
  agree = agree_bits;
  public_length = λ e. length-replicate 32 (bit e);
  dh_length = λ e key. length-replicate 32 (bit (e && bit_of key));
}

abbrev bit_of_tagged : Bytes → Bool
bit_of_tagged [] = false
bit_of_tagged (_ ∷ x) = bit_of x

abbrev pub bit_ecies : Ecies
bit_ecies = record {
  PublicKey = Bool;
  SecretKey = Bool;
  parse_public = λ bytes. some (bit_of_tagged bytes);
  parse_secret = λ bytes. some (bit_of bytes);
  serialize = λ key. byte x0 x4 ∷ (replicate 32 (bit key) ++ replicate 32 (bit key));
  public_of = λ s. s;
  encapsulate = λ s key. some (replicate 32 (bit (s && key)));
  decapsulate = λ key s. some (replicate 32 (bit (s && key)));
}

agree_ecies :
    (e s : Bool) (secret : Bytes)
    → bit_ecies.encapsulate e s ≡ some secret
    → bit_ecies.decapsulate e s ≡ some secret
agree_ecies true true secret h = h
agree_ecies true false secret h = h
agree_ecies false true secret h = h
agree_ecies false false secret h = h

parse_bit : (key : Bool) → bit_ecies.parse_public (bit_ecies.serialize key) ≡ some key
parse_bit true = refl
parse_bit false = refl

pub bit-IsEcies : IsEcies bit_ecies
bit-IsEcies = record {
  agree = agree_ecies;
  secret_length = λ e key secret h.
      sym (ap length (some-injective _ _ h)) ∙ length-replicate 32 (bit (e && key));
  serialized = λ key. (
    replicate 32 (bit key),
    replicate 32 (bit key),
    refl,
    length-replicate 32 (bit key),
    length-replicate 32 (bit key),
  );
  parse-serialize = parse_bit;
}

-- The state counts the draws; what is drawn is always the same.
abbrev pub counter_rng : Rng bit_x25519 bit_ecies
counter_rng = record {
  State = ℕ;
  ephemeral_secret = λ n. (true, suc n);
  aes_key = λ n. (replicate 32 (bit true), suc n);
  aes_nonce = λ n. (replicate 12 (bit true), suc n);
  xchacha_nonce = λ n. (replicate 24 (bit true), suc n);
  keypair = λ n. ((true, true), suc n);
}

pub counter-IsRng : IsRng bit_x25519 bit_ecies counter_rng
counter-IsRng = record {
  key_length = λ s. refl;
  nonce_length = λ s. refl;
  xchacha_nonce_length = λ s. refl;
  paired = λ s. refl;
}

-- A signature of a message is the message itself.
abbrev pub echo_ed25519 : Ed25519
echo_ed25519 = record {
  VerifyingKey = Bytes;
  Signature = Bytes;
  key_from_bytes = some;
  signature_from_slice = some;
  verify = λ key msg signature. holds (Bytes-discrete signature msg);
}

abbrev pub echo_secp256k1 : Secp256k1
echo_secp256k1 = record {
  VerifyingKey = Bytes;
  Signature = Bytes;
  key_from_sec1_bytes = some;
  signature_from_slice = some;
  normalize_s = λ signature. none;
  verify = λ key msg signature. holds (Bytes-discrete signature msg);
}
