-- ===== src/Examples/Serde.antt =====
-- The JSON of headers and messages.
use infosec.Common.{◌≡◌, refl, ◌↔◌, none, some, [], ◌∷◌, codes, ok}
use infosec.Foreign.Json.{Json, null, string, object, no_members, member}
use infosec.Common.{Bytes, as_bytes}
use infosec.Jose.Jwe.Algorithms.{a256gcm}
use infosec.Jose.Jwe.Data.{default_header, many, Jwe}
use infosec.Jose.Jws.Token.{Knows, signing_input}
use infosec.Jose.Jws.Data.{Jws}
use infosec.Jose.Jws.Compact.{encode_jws, from_str}
use infosec.Common.{Text-discrete, foreign, or_err, ◌>>=◌}
use infosec.Jose.Jwe.Algorithms.{ecdh_es_a256kw}
use infosec.Jose.Jwe.Key.{from_ecies}
use infosec.Jose.Jwe.Encrypt
use infosec.Jose.Jwe.Builder.{build, key_encrypter, encrypt_content, encrypt_key}
use infosec.Jose.Jwe.Decrypt.{decrypt}
use infosec.Jose.Serde.Sent.{decrypt-from_slice-build}
use infosec.Examples.JweMessages.{
  gcm, flat, lawful, bob, alice_x25519, bob_x25519, holds_x25519, message_to, wrapped_jwe,
  Protected-discrete, payload as jwe_payload,
}
use infosec.Jose.Serde.Encrypted.{write_jwe, read_jwe, jwe_codec}
use infosec.Jose.Serde.Encrypted.Back.{read_jwe-write_jwe}
use infosec.Jose.Serde.Keys.{read_algorithm, write_algorithm}
use infosec.Jose.Serde.Signed.{read_header, write_header, header_codec, read_jws}
use infosec.Jose.Serde.Signed.Written.{write_jws, read_jws-write_jws}
use infosec.Jose.Serde.Signed.Resigned.{with_json, token_of, IsCheckedAnew, encode_jws-from_str}
use infosec.Jose.Jws.Verify.{verify}
use infosec.Examples.Encodings.{hex_base64, hex-IsBase64, raw, raw-IsRoundTrip}
use infosec.Examples.JsonText.{prefix_text, prefix-IsJsonText}
use infosec.Examples.JwsTokens.{
  lib, header, jws, payload, signer, resolver, kid, jwk, echo_accepted,
}

-- A header with a further member before those that are read.
abbrev received : Json
received = object (
    member (codes "cty") (string (codes "JWT")) (
      member (codes "alg") (string (codes "EdDSA")) (
        member (codes "typ") (string (codes "jwt"))
          (member (codes "kid") (string (codes "did:web:a#k")) no_members))))

received_read : read_header received ≡ some header
unfolding read_header read_algorithm
received_read = refl

header_written :
    write_header header
    ≡ object (
        member (codes "alg") (string (codes "EdDSA")) (
          member
            (codes "typ")
            (string (codes "jwt"))
            (member (codes "kid") (string (codes "did:web:a#k")) no_members)))
unfolding write_header write_algorithm
header_written = refl

encode_jws-from_str_example :
    (j : Jws) × (from_str
        (with_json lib prefix_text)
        (token_of lib prefix_text received (codes "00") (codes "00"))
      ≡ ok j)
    × ((encode_jws (with_json lib prefix_text) j
          ≡ ok (token_of lib prefix_text received (codes "00") (codes "00")))
        ↔ (received ≡ write_header header))
    × ((verify (with_json lib prefix_text) resolver j ≡ ok tt)
        ↔ IsCheckedAnew lib prefix_text resolver header (codes "00") (codes "00"))
encode_jws-from_str_example =
    encode_jws-from_str lib prefix_text hex-IsBase64 prefix-IsJsonText resolver received header
      (codes "00") (codes "00") received_read (refl, (refl, tt)) (refl, (refl, tt))

read_jws-write_jws_example :
    (j : Json) × (write_jws hex_base64 prefix_text jws ≡ ok j)
    × (read_jws hex_base64 prefix_text j ≡ some jws)
read_jws-write_jws_example =
    read_jws-write_jws hex_base64 prefix_text hex-IsBase64 prefix-IsJsonText jws

-- A message with a shared header that is `null`.
abbrev null_header : Jwe Json
null_header = record {
  protected = record { alg = none; enc = a256gcm };
  unprotected = some null;
  recipients = many (record { header = default_header; encrypted_key = [] } ∷ []);
  aad = codes "00";
  iv = codes "01";
  ciphertext = codes "02";
  tag = codes "03";
}

read_jwe-write_jwe_example :
    read_jwe (write_jwe null_header) ≡ some (record null_header { unprotected = none })
read_jwe-write_jwe_example = read_jwe-write_jwe null_header

abbrev known_text : Knows (with_json lib prefix_text) raw resolver signer
known_text = record {
  kid = kid;
  method = refl;
  key = jwk;
  resolved = refl;
  accepted = echo_accepted (header_codec prefix_text);
}

abbrev header_bytes : Bytes
header_bytes = prefix_text.print (write_header header)

abbrev signed_text : Bytes
signed_text = as_bytes (signing_input (with_json lib prefix_text) raw header_bytes payload)

-- The message to two recipients, with JSON for what it does not hold.
abbrev wrapped_json : Jwe Json
wrapped_json = record {
  protected = wrapped_jwe.protected;
  unprotected = none;
  recipients = wrapped_jwe.recipients;
  aad = wrapped_jwe.aad;
  iv = wrapped_jwe.iv;
  ciphertext = wrapped_jwe.ciphertext;
  tag = wrapped_jwe.tag;
}

wrapped_json_built :
    build gcm Json raw (message_to a256gcm ecdh_es_a256kw (alice_x25519 ∷ bob_x25519 ∷ [])) 0
    ≡ ok (wrapped_json, 4)
unfolding build key_encrypter encrypt_content Encrypt.a256gcm Encrypt.xchacha20_poly1305 encrypt_key
    Encrypt.ecdh_a256kw Encrypt.ecies_es256k Protected-discrete from_ecies
wrapped_json_built = refl

decrypt-from_slice-build_example :
    (do
      received ←
          or_err
            ((jwe_codec prefix_text).from_slice (prefix_text.print (write_jwe wrapped_json)))
            foreign
      decrypt gcm raw received bob)
    ≡ ok jwe_payload
unfolding Text-discrete
decrypt-from_slice-build_example =
    decrypt-from_slice-build gcm (lawful a256gcm flat) prefix_text prefix-IsJsonText raw
      raw-IsRoundTrip (message_to a256gcm ecdh_es_a256kw (alice_x25519 ∷ bob_x25519 ∷ [])) 0 4
      wrapped_json bob bob_x25519 refl refl holds_x25519 wrapped_json_built
