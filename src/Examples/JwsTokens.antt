-- ===== src/Examples/JwsTokens.antt =====
-- jose/jws.rs on small tokens, with signatures that repeat the message.
use infosec.Jose.Jws.Signed.{IsSigned, encode-IsSigned}
use native.Mathlib.Decide.{ℕ_discrete}
use infosec.Common.{
  ◌≡◌, panic, refl, sym, ◌↔◌, inl, none, some, List, [], ◌∷◌, Bytes, Bytes-discrete, Text,
  Text-discrete, replicate, byte, x1, x2, codes, as_bytes, All, holds_iff, ok, err, message,
  ok-injective,
}
use infosec.Types.{x25519}
use infosec.Foreign.Encodings.{Codec}
use infosec.Traits.{Signer}
use infosec.Jose.Jwa.{eddsa}
use infosec.Jose.Jwk.{PublicKeyJwk, default}
use infosec.Jose.Jws.Data.{key_id, Protected, Signature, Jws, get_kid}
use infosec.Jose.Jws.Verify.{Libraries, Resolver, verify}
use infosec.Jose.Jws.Verify.Keys.{Accepts}
use infosec.Jose.Jws.Verify.Laws.{IsVerified, verify-eq-ok}
use infosec.Jose.Jws.Compact.{from_str, did}
use infosec.Jose.Jws.Compact.RoundTrip.{single, did_results}
use infosec.Common.{IsFirstPiece}
use infosec.Jose.Jws.Builder.{encode, decode}
use infosec.Jose.Jws.Token.{IsToken, Knows, signing_input, token, decode-eq-ok, decode-encode}
use infosec.Examples.Encodings.{
  hex_base64, hex-IsBase64, codec_of, codec_of-IsRoundTrip, raw, raw-IsRoundTrip, mark,
}
use infosec.Examples.Ciphers.{echo_ed25519, echo_secp256k1}

abbrev pub kid : Text
kid = codes "did:web:a#k"

abbrev pub header : Protected
header = record { alg = eddsa; typ = codes "jwt"; key = key_id kid; x5c = none; trust_chain = none }

unfoldable pub Protected-discrete : Discrete Protected
unfolding ℕ_discrete Text-discrete
Protected-discrete = hlevel ℕ_discrete

abbrev pub header_json : Codec Protected
header_json = codec_of Protected-discrete header

abbrev pub lib_with : Codec Protected → Libraries
lib_with json = record {
  base64 = hex_base64;
  header_json = json;
  dalek = echo_ed25519;
  k256 = echo_secp256k1;
}

abbrev pub lib : Libraries
lib = lib_with header_json

abbrev pub jwk : PublicKeyJwk
jwk = record default { x = hex_base64.encode_string (replicate 32 (byte x1 x2)) }

abbrev pub agreement_jwk : PublicKeyJwk
agreement_jwk = record jwk { crv = x25519 }

abbrev pub resolver : Resolver
resolver _ = ok jwk

-- What is signed is the message itself.
abbrev pub signer : Signer
signer = record {
  try_sign = ok;
  verifying_key = ok (replicate 32 (byte x1 x2));
  algorithm = eddsa;
  verification_method = ok kid;
}

abbrev pub payload : Bytes
payload = byte x2 x1 ∷ []

abbrev pub signature : Bytes
signature = as_bytes (signing_input lib raw mark payload)

abbrev pub compact : Text
compact = token lib raw mark payload signature

abbrev pub jws : Jws
jws = single lib header (hex_base64.encode_string payload) (hex_base64.encode_string signature)

abbrev pub unsigned : Jws
unsigned = record { payload = []; signatures = [] }

header_serialized : header_json.to_vec header ≡ some mark
unfolding Protected-discrete
header_serialized = refl

pub echo_accepted :
    (json : Codec Protected) (msg : Text) (sig : Bytes)
    → signer.try_sign (as_bytes msg) ≡ ok sig
    → Accepts (lib_with json) jwk msg sig
echo_accepted json msg sig h = inl (record {
  curve = refl;
  x_bytes = replicate 32 (byte x1 x2);
  x = refl;
  size = refl;
  verifying_key = replicate 32 (byte x1 x2);
  built = refl;
  signature = sig;
  parsed = refl;
  valid = (holds_iff (Bytes-discrete sig (as_bytes msg))).1 (sym (ok-injective _ _ h));
})

abbrev pub known : Knows lib raw resolver signer
known = record {
  kid = kid;
  method = refl;
  key = jwk;
  resolved = refl;
  accepted = echo_accepted header_json;
}

-- An unknown key and a key for key agreement only.
unknown_key :
    decode lib raw compact (λ _. err (message "no such key")) ≡ err (message "no such key")
unfolding decode from_str verify as_bytes Bytes-discrete Protected-discrete
unknown_key = refl

three_parts : decode lib raw (codes "a.b") resolver ≡ err (message "invalid Compact JWS format")
unfolding decode
three_parts = refl

decode-encode_example :
    (encode lib raw payload signer ≡ ok compact)
    × (decode lib raw compact resolver ≡ ok (record { header = header; claims = payload }))
decode-encode_example =
    decode-encode lib raw hex-IsBase64 (codec_of-IsRoundTrip Protected-discrete header)
      raw-IsRoundTrip resolver signer payload known mark payload signature header_serialized refl
      refl

decode-eq-ok_example :
    (decode lib raw compact resolver ≡ ok (record { header = header; claims = payload }))
    ↔ IsToken lib raw resolver compact (record { header = header; claims = payload })
decode-eq-ok_example =
    decode-eq-ok lib raw resolver compact (record { header = header; claims = payload })

verify-eq-ok_example :
    (verify lib resolver jws ≡ ok tt) ↔ All (IsVerified lib resolver jws.payload) jws.signatures
verify-eq-ok_example = verify-eq-ok lib resolver jws

encode-IsSigned_example :
    (encode lib raw payload signer ≡ ok compact) ↔ IsSigned lib raw payload signer compact
encode-IsSigned_example = encode-IsSigned lib raw payload signer compact

did_results_example :
    ((did jws ≡ ok (codes "did:web:a")) ↔ (
      (s : Signature) × (rest : List Signature) × (kid : Text) × (jws.signatures ≡ s ∷ rest)
      × (get_kid s.protected ≡ some kid)
      × IsFirstPiece b'#' (codes "did:web:a") kid))
    × ((did jws ≡ panic) ↔ (jws.signatures ≡ []))
did_results_example = did_results jws (codes "did:web:a")
