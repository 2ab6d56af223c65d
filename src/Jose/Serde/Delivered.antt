-- ===== src/Jose/Serde/Delivered.antt =====
-- jose/jws.rs: a token from the signer to the one who decodes it, with the JSON of its header.
use infosec.Common.{◌≡◌, refl, Bytes, codes, as_bytes, some}
use infosec.Common.{ok}
use infosec.Foreign.Encodings.{IsBase64, Codec, IsRoundTrip}
use infosec.Foreign.Json.{JsonText, IsJsonText}
use infosec.Traits.{Signer}
use infosec.Jose.Jws.Verify.{Libraries, Resolver}
use infosec.Jose.Jws.Builder.{encode, decode}
use infosec.Jose.Jws.Token.{token_header, Knows, signing_input, token, decode-encode}
use infosec.Jose.Serde.Signed.{write_header, header_codec-IsRoundTrip}
use infosec.Jose.Serde.Signed.Resigned.{with_json}

module _ (lib : Libraries) (text : JsonText) {T : Type 0} (json : Codec T) where
  -- Where base64url, the text form of JSON and the format of the claims read back what they wrote:
  -- a payload is encoded as a token whose header has the signer's algorithm, the type `jwt` and the
  -- signer's key ID in a member `kid`, in this order, and the token is decoded to that header and
  -- the payload. The resolver has the signer's key, which accepts what the signer signs, the
  -- payload is serialized and the signer signs.
  pub decode-encode_text :
      IsBase64 lib.base64
      → IsJsonText text
      → IsRoundTrip json
      → (resolver : Resolver) (signer : Signer) (payload : T)
        (known : Knows (with_json lib text) json resolver signer) (payload_bytes sig : Bytes)
      → json.to_vec payload ≡ some payload_bytes
      → signer.try_sign (
          as_bytes (
            signing_input
              (with_json lib text)
              json
              (text.print (write_header (token_header signer (codes "jwt") known.kid)))
              payload_bytes))
        ≡ ok sig
      → (encode (with_json lib text) json payload signer
          ≡ ok (
              token
                (with_json lib text)
                json
                (text.print (write_header (token_header signer (codes "jwt") known.kid)))
                payload_bytes
                sig))
        × (decode
              (with_json lib text)
              json
              (token
                (with_json lib text)
                json
                (text.print (write_header (token_header signer (codes "jwt") known.kid)))
                payload_bytes
                sig)
              resolver
            ≡ ok
                (record { header = token_header signer (codes "jwt") known.kid; claims = payload }))
  decode-encode_text base64_laws text_laws json_laws resolver signer payload known payload_bytes sig
        p s =
      decode-encode (with_json lib text) json base64_laws (header_codec-IsRoundTrip text text_laws)
        json_laws resolver signer payload known
        (text.print (write_header (token_header signer (codes "jwt") known.kid))) payload_bytes sig
        refl p s
