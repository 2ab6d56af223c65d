-- ===== src/Examples/JweDelivery.antt =====
-- jose/jwe.rs and its submodules: the small messages encrypted, sent and decrypted.
use infosec.Common.{◌↔◌}
use infosec.Jose.Jwe.Compact.Parsed.{IsCompactJwe, from_str-IsCompactJwe}
use infosec.Examples.JweMessages.{ones}
use infosec.Jose.Jwe.Decrypt.Opened.{IsOpened, decrypt-eq-ok}
use infosec.Examples.Ciphers.{arrays-IsArrays}
use infosec.Common.{
  ◌≡◌, refl, ◌↔◌, some, [], ◌∷◌, ◌++◌, Bytes, Text-discrete, byte, x0, x2, ok, err, panic, message,
  ◌>>=◌,
}
use infosec.Jose.Jwe.Algorithms.{ecdh_es, ecdh_es_a256kw, ecies_es256k, a256gcm, xchacha20_poly1305}
use infosec.Jose.Jwe.Key.{try_from}
use infosec.Jose.Jwe.Key.Encoding.{IsKey, IsEncoding, try_from-IsRead}
use infosec.Jose.Jwe.Decrypt.{decrypt}
use infosec.Jose.Jwe.Delivery.{decrypt-build, decrypt-build_xchacha}
use infosec.Common.{◌≢◌, Text, codes, split, Error}
use infosec.Jose.Jwe.Compact.Rejected.{Rejected, from_str_rejects}
use infosec.Jose.Jwe.Compact.{encode, from_str, from_string}
use infosec.Jose.Jwe.Transfer.{from_str-encode-build, decrypt-from_str-encode, encode-build_many}
use infosec.Examples.Encodings.{raw, raw-IsRoundTrip, mark}
use infosec.Examples.JweMessages.{
  ones, flat, gcm, chacha, payload, bob, bob_x25519, alice_x25519, bob_secp256k1, message_to,
  holds_x25519, holds_secp256k1, direct_jwe, direct_text, wrapped_jwe, ecies_jwe, direct_built,
  direct_encoded, wrapped_built, ecies_built, lawful, Protected-discrete,
}
use infosec.Common.{ℕ}
use infosec.Jose.Jwe.Data.{Jwe}
use infosec.Jose.Jwe.Encrypt
use infosec.Jose.Jwe.Builder.{build, encrypt, encrypt_content, encrypt_key, key_encrypter}
use infosec.Jose.Jwe.Builder.Ready.{NeverFail, IsCount}
use infosec.Jose.Jwe.Builder.Total.{build-IsCount}
use infosec.Examples.JweMessages.{alice_x25519, message_to, payload, bob, bob_x25519, holds_x25519}

abbrev four_parts : Text
four_parts = codes "00.01.02.03"

-- The second of two recipients under ECDH-ES+A256KW.
decrypt-build_example : decrypt gcm raw wrapped_jwe bob ≡ ok payload
unfolding Text-discrete
decrypt-build_example =
    decrypt-build gcm Bytes raw (lawful a256gcm flat) raw-IsRoundTrip
      (message_to a256gcm ecdh_es_a256kw (alice_x25519 ∷ bob_x25519 ∷ [])) 0 4 wrapped_jwe bob
      bob_x25519 refl refl holds_x25519 wrapped_built

decrypt-build_xchacha_example : decrypt chacha raw ecies_jwe bob ≡ panic
unfolding Text-discrete
decrypt-build_xchacha_example =
    decrypt-build_xchacha chacha Bytes raw (lawful xchacha20_poly1305 flat)
      (message_to xchacha20_poly1305 ecies_es256k (bob_secp256k1 ∷ [])) 0 4 ecies_jwe bob
      bob_secp256k1 refl refl holds_secp256k1 ecies_built

from_str-encode-build_example : from_str gcm Bytes direct_text ≡ ok direct_jwe
from_str-encode-build_example =
    from_str-encode-build gcm Bytes raw (lawful a256gcm flat)
      (message_to a256gcm ecdh_es (bob_x25519 ∷ [])) 0 2 direct_jwe direct_text refl direct_built
      direct_encoded

decrypt-from_str-encode_example :
    (do received ← from_str gcm Bytes direct_text; decrypt gcm raw received bob) ≡ ok payload
decrypt-from_str-encode_example =
    decrypt-from_str-encode gcm Bytes raw (lawful a256gcm flat) raw-IsRoundTrip
      (message_to a256gcm ecdh_es (bob_x25519 ∷ [])) 0 2 direct_jwe direct_text bob bob_x25519 refl
      refl refl holds_x25519 direct_built direct_encoded

encode-build_many_example :
    encode chacha Bytes ecies_jwe
    ≡ err (message "compact serialization requires a single recipient")
encode-build_many_example =
    encode-build_many chacha Bytes raw (lawful xchacha20_poly1305 flat)
      (message_to xchacha20_poly1305 ecies_es256k (bob_secp256k1 ∷ [])) 0 4 ecies_jwe (λ e. cc)
      ecies_built

try_from-IsRead_example :
    (try_from (byte x0 x2 ∷ (ones 32 ++ ones 32)) ≡ ok bob_secp256k1.public_key) ↔ (
      IsKey bob_secp256k1.public_key
      × IsEncoding (byte x0 x2 ∷ (ones 32 ++ ones 32)) (ones 32) (some (ones 32)))
try_from-IsRead_example =
    try_from-IsRead (byte x0 x2 ∷ (ones 32 ++ ones 32)) bob_secp256k1.public_key

direct_encrypted : encrypt gcm Bytes raw payload bob_x25519.public_key 0 ≡ ok (direct_jwe, 2)
unfolding encrypt Encrypt.a256gcm key_encrypter encrypt_content encrypt_key Protected-discrete build
direct_encrypted = refl

never_fail : NeverFail gcm
never_fail = record {
  aes_gcm = λ key nonce aad plaintext k n. (_, _, refl);
  xchacha = λ key nonce aad plaintext k n. (_, _, refl);
  wrap = λ kek key k n. (_, refl);
  encapsulate = λ e key. (_, refl);
}

build-IsCount_example :
    ((jwe : Jwe Bytes) × (t : ℕ) × (build gcm Bytes raw
          (message_to a256gcm ecdh_es_a256kw (alice_x25519 ∷ bob_x25519 ∷ []))
          0
        ≡ ok (jwe, t)))
    ↔ IsCount ecdh_es_a256kw (alice_x25519 ∷ bob_x25519 ∷ [])
unfolding Protected-discrete
build-IsCount_example =
    build-IsCount gcm (lawful a256gcm flat) never_fail Bytes raw
      (message_to a256gcm ecdh_es_a256kw (alice_x25519 ∷ bob_x25519 ∷ [])) 0 payload mark refl refl
      (tt, (tt, tt))

decrypt-eq-ok_example :
    (decrypt gcm raw wrapped_jwe bob ≡ ok payload) ↔ IsOpened gcm raw wrapped_jwe bob payload
decrypt-eq-ok_example = decrypt-eq-ok gcm raw arrays-IsArrays wrapped_jwe bob payload

from_str-IsCompactJwe_example :
    (from_str gcm Bytes direct_text ≡ ok direct_jwe) ↔ IsCompactJwe gcm Bytes direct_text direct_jwe
from_str-IsCompactJwe_example = from_str-IsCompactJwe gcm Bytes direct_text direct_jwe

-- Four parts.
from_str_rejects_example :
    ((e : Error)
      → (from_str gcm Bytes four_parts ≡ err e) ↔ Rejected gcm Bytes (split b'.' four_parts) e)
    × (from_str gcm Bytes four_parts ≢ panic)
    × ((from_string gcm Bytes four_parts ≡ panic)
        ↔ ((e : Error) × Rejected gcm Bytes (split b'.' four_parts) e))
from_str_rejects_example = from_str_rejects gcm Bytes four_parts
