-- ===== src/Examples/JweMessages.antt =====
-- jose/jwe.rs and its submodules on small messages.
use native.Mathlib.Decide.{ℕ_discrete}
use infosec.Common.{
  ◌∙∙◌, ℕ, ◌≡◌, refl, true, false, none, some, List, [], ◌∷◌, ◌++◌, Bytes, Text, Text-discrete,
  replicate, byte, x1, x2, codes, ok,
}
use infosec.Types.{okp, ed25519}
use infosec.Traits.{Receiver}
use infosec.Jose.Jwk
use infosec.Jose.Jwk.{PublicKeyJwk}
use infosec.Jose.Jwe.Algorithms.{
  KeyAlgorithm, ContentAlgorithm, ecdh_es, ecdh_es_a256kw, ecies_es256k, a256gcm,
  xchacha20_poly1305,
}
use infosec.Jose.Jwe.Key.{SecretKey, shared_secret, from_ecies, ecies_public}
use infosec.Jose.Jwe.Data.{Recipients, one, many, Protected, ProtectedFlat, Jwe}
use infosec.Jose.Jwe.Libraries.{Libraries, AreLawful}
use infosec.Jose.Jwe.Encrypt
use infosec.Jose.Jwe.Encrypt.{
  Recipient, okp_key, kw_entry, ecies_entry, ecdh_a256kw, ecies_es256k as encrypt_ecies,
}
use infosec.Jose.Jwe.Builder.{
  JweBuilder, Payload, direct, build, key_encrypter, encrypt_content, encrypt_key,
}
use infosec.Jose.Jwe.Decrypt.Keys.{HoldsX25519, HoldsSecp256k1}
use infosec.Jose.Jwe.Compact.{encode}
use infosec.Examples.Encodings.{hex_base64, hex-IsBase64, codec_of, codec_of-IsRoundTrip, raw, mark}
use infosec.Examples.Ciphers.{
  bit, plain_aead, plain-IsAead, arrays, arrays-IsArrays, prefix_wrap, prefix-IsKeyWrap, bit_x25519,
  bit-IsX25519, bit_ecies, bit-IsEcies, counter_rng, counter-IsRng,
}

abbrev pub protected_of : ContentAlgorithm → Protected
protected_of enc = record { alg = none; enc = enc }

unfoldable pub Protected-discrete : Discrete Protected
Protected-discrete = hlevel

unfoldable pub Flat-discrete : Discrete ProtectedFlat
unfolding ℕ_discrete Text-discrete
Flat-discrete = hlevel ℕ_discrete

abbrev pub ones : ℕ → Bytes
ones n = replicate n (bit true)

abbrev pub lib_of : ContentAlgorithm → ProtectedFlat → Libraries
lib_of enc flat = record {
  base64 = hex_base64;
  protected_json = codec_of Protected-discrete (protected_of enc);
  flat_json = codec_of Flat-discrete flat;
  aes_gcm = plain_aead;
  xchacha = plain_aead;
  arrays = arrays;
  key_wrap = prefix_wrap;
  x25519 = bit_x25519;
  ecies = bit_ecies;
  rng = counter_rng;
}

pub lawful : (enc : ContentAlgorithm) (flat : ProtectedFlat) → AreLawful (lib_of enc flat)
lawful enc flat = record {
  base64 = hex-IsBase64;
  flat_json = codec_of-IsRoundTrip Flat-discrete flat;
  aes_gcm = plain-IsAead 12;
  xchacha = plain-IsAead 24;
  arrays = arrays-IsArrays;
  key_wrap = prefix-IsKeyWrap;
  x25519 = bit-IsX25519;
  ecies = bit-IsEcies;
  rng = counter-IsRng;
}

-- The compact header of a message under ECDH-ES.
abbrev pub flat : ProtectedFlat
flat = record {
  inner = record { alg = some ecdh_es; enc = a256gcm };
  epk = record Jwk.default { kty = okp; crv = ed25519; x = hex_base64.encode_string (ones 32) };
}

abbrev pub gcm : Libraries
gcm = lib_of a256gcm flat

abbrev pub chacha : Libraries
chacha = lib_of xchacha20_poly1305 flat

abbrev pub payload : Bytes
payload = byte x2 x1 ∷ []

abbrev pub bob_secret : SecretKey
bob_secret = record { bytes = ones 1 }

abbrev pub bob : Receiver
bob = record { key_id = codes "bob"; shared_secret = shared_secret bit_x25519 bit_ecies bob_secret }

-- Recipients with keys on X25519 and on secp256k1.
abbrev pub alice_x25519 : Recipient
alice_x25519 = record {
  key_id = codes "alice";
  public_key = record { x = replicate 32 (bit false); y = none };
}

abbrev pub bob_x25519 : Recipient
bob_x25519 = record { key_id = codes "bob"; public_key = record { x = ones 32; y = none } }

abbrev pub bob_secp256k1 : Recipient
bob_secp256k1 = record {
  key_id = codes "bob";
  public_key = record { x = ones 32; y = some (ones 32) };
}

abbrev pub message_to :
    ContentAlgorithm → KeyAlgorithm → List Recipient → JweBuilder (Payload Bytes)
message_to content key recipients = record {
  content_algorithm = content;
  key_algorithm = key;
  payload = record { value = payload };
  recipients = recipients;
}

pub holds_x25519 : HoldsX25519 gcm bob bob_x25519.public_key
holds_x25519 = record { secret = bob_secret; derives = λ sender. refl; public = refl }

pub holds_secp256k1 : HoldsSecp256k1 chacha bob bob_secp256k1.public_key
holds_secp256k1 = record {
  secret = bob_secret;
  own = true;
  parsed = refl;
  derives = λ sender. refl;
  public = unfold from_ecies in refl;
}

-- The parts that do not depend on the recipients: the payload is its own ciphertext.
abbrev pub sealed : ContentAlgorithm → ℕ → Recipients → Jwe Bytes
sealed enc nonce_length recipients = record {
  protected = protected_of enc;
  unprotected = none;
  recipients = recipients;
  aad = hex_base64.encode_string mark;
  iv = hex_base64.encode_string (ones nonce_length);
  ciphertext = hex_base64.encode_string payload;
  tag = hex_base64.encode_string (ones 16);
}

abbrev pub direct_jwe : Jwe Bytes
direct_jwe = sealed a256gcm 12 (one (direct gcm (ones 32)))

abbrev pub direct_text : Text
direct_text =
    hex_base64.encode_string mark
    ∙∙ hex_base64.encode_string (replicate 32 (bit false))
    ∙∙ direct_jwe.iv
    ∙∙ direct_jwe.ciphertext
    ∙∙ direct_jwe.tag

abbrev pub wrapped_jwe : Jwe Bytes
wrapped_jwe = sealed a256gcm 12 (
    many (
      kw_entry gcm alice_x25519 (ones 32) (replicate 32 (bit false) ++ ones 32)
      ∷ kw_entry gcm bob_x25519 (ones 32) (ones 32 ++ ones 32)
      ∷ []))

abbrev pub ecies_jwe : Jwe Bytes
ecies_jwe = sealed xchacha20_poly1305 24 (
    many (
      ecies_entry chacha bob_secp256k1 (bit_ecies.serialize true) (ones 12) (ones 16) (ones 32)
      ∷ []))

pub direct_built :
    build gcm Bytes raw (message_to a256gcm ecdh_es (bob_x25519 ∷ [])) 0 ≡ ok (direct_jwe, 2)
unfolding build key_encrypter encrypt_content Encrypt.a256gcm Encrypt.xchacha20_poly1305 encrypt_key
    ecdh_a256kw encrypt_ecies Protected-discrete from_ecies
direct_built = refl

pub direct_encoded : encode gcm Bytes direct_jwe ≡ ok direct_text
unfolding encode Flat-discrete
direct_encoded = refl

pub wrapped_built :
    build gcm Bytes raw (message_to a256gcm ecdh_es_a256kw (alice_x25519 ∷ bob_x25519 ∷ [])) 0
    ≡ ok (wrapped_jwe, 4)
unfolding build key_encrypter encrypt_content Encrypt.a256gcm Encrypt.xchacha20_poly1305 encrypt_key
    ecdh_a256kw encrypt_ecies Protected-discrete from_ecies
wrapped_built = refl

pub ecies_built :
    build chacha Bytes raw (message_to xchacha20_poly1305 ecies_es256k (bob_secp256k1 ∷ [])) 0
    ≡ ok (ecies_jwe, 4)
unfolding build key_encrypter encrypt_content Encrypt.a256gcm Encrypt.xchacha20_poly1305 encrypt_key
    ecdh_a256kw encrypt_ecies Protected-discrete from_ecies ecies_public
ecies_built = refl
