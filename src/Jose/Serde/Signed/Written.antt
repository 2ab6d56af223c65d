-- ===== src/Jose/Serde/Signed/Written.antt =====
-- jose/jws.rs: the JSON that is written of a signature and a JWS, and read back.
use infosec.Common.{◌≡◌, refl, some, List, [], ◌∷◌, Text, codes}
use infosec.Common.{Outcome, ok, ◌>>=◌}
use infosec.Foreign.Encodings.{Base64, IsBase64}
use infosec.Foreign.Json.{
  Json, string, array, object, Elements, no_elements, element, no_members, member, JsonText,
  IsJsonText,
}
use infosec.Jose.Jws.Data.{Protected, Signature, Jws}
use infosec.Jose.Jws.Base64url.{serialize, deserialize-serialize}
use infosec.Jose.Serde.{read_elements}
use infosec.Jose.Serde.Signed.{
  write_header, header_codec, header_codec-IsRoundTrip, read_protected, read_signature, read_jws,
}

module _ (base64 : Base64) (text : JsonText) where
  -- `Signature`: the header is the base64url of its JSON.
  unfoldable pub write_signature : Signature → Outcome Json
  unfolding serialize
  write_signature s = do
    header ← serialize base64 (header_codec text) s.protected
    ok (
        object (
          member (codes "protected") (string header)
            (member (codes "signature") (string s.signature) no_members)))

  abbrev pub write_signatures : List Signature → Outcome Elements
  write_signatures [] = ok no_elements
  write_signatures (s ∷ rest) = do
    j ← write_signature s
    list ← write_signatures rest
    ok (element j list)

  -- `Jws`
  unfoldable pub write_jws : Jws → Outcome Json
  unfolding write_signature
  write_jws jws = do
    list ← write_signatures jws.signatures
    ok (
        object (
          member (codes "payload") (string jws.payload)
            (member (codes "signatures") (array list) no_members)))

  module _ (base64_laws : IsBase64 base64) (text_laws : IsJsonText text) where
    header_text : Protected → Text
    header_text p = base64.encode_string (text.print (write_header p))

    serialize_header : (p : Protected) → serialize base64 (header_codec text) p ≡ ok (header_text p)
    unfolding serialize header_text
    serialize_header p = refl

    read_protected-header_text :
        (p : Protected) → read_protected base64 text (string (header_text p)) ≡ some p
    read_protected-header_text p =
        rw
          (deserialize-serialize base64 (header_codec text) base64_laws
            (header_codec-IsRoundTrip text text_laws) p (header_text p) (serialize_header p))
          refl

    signature_json : Signature → Json
    signature_json s = object (
        member (codes "protected") (string (header_text s.protected))
          (member (codes "signature") (string s.signature) no_members))

    read_signature-json : (s : Signature) → read_signature base64 text (signature_json s) ≡ some s
    unfolding read_signature signature_json
    read_signature-json s = rw (read_protected-header_text s.protected) refl

    signatures_json : List Signature → Elements
    signatures_json [] = no_elements
    signatures_json (s ∷ rest) = element (signature_json s) (signatures_json rest)

    write_signature-json : (s : Signature) → write_signature s ≡ ok (signature_json s)
    unfolding write_signature serialize signature_json header_text
    write_signature-json s = refl

    write_signatures-json : (ss : List Signature) → write_signatures ss ≡ ok (signatures_json ss)
    unfolding signatures_json
    write_signatures-json [] = refl
    write_signatures-json (s ∷ rest) = rw (write_signature-json s, write_signatures-json rest) refl

    read_elements-json :
        (ss : List Signature)
        → read_elements (read_signature base64 text) (signatures_json ss) ≡ some ss
    unfolding signatures_json
    read_elements-json [] = refl
    read_elements-json (s ∷ rest) = rw (read_signature-json s, read_elements-json rest) refl

    -- Where base64url and the text form of JSON read back what they wrote: every JWS is written as
    -- JSON, its protected headers as base64url of theirs, and is read back from it.
    pub read_jws-write_jws :
        (jws : Jws) → (j : Json) × (write_jws jws ≡ ok j) × (read_jws base64 text j ≡ some jws)
    unfolding write_jws read_jws
    read_jws-write_jws jws = (
      object (
          member (codes "payload") (string jws.payload)
            (member (codes "signatures") (array (signatures_json jws.signatures)) no_members)),
      rw (write_signatures-json jws.signatures) refl,
      rw (read_elements-json jws.signatures) refl,
    )
