-- ===== src/Jose/Jws/Base64url.antt =====
-- jose/jws.rs: the module `base64url`, by which serde writes and reads the protected header of a
-- signature.
use infosec.Common.{◌≡◌, Option, some, Text, ok-injective}
use infosec.Common.{Outcome, ok, foreign, or_err, ◌>>=◌, >>=-eq-ok, or_err-eq-ok}
use infosec.Foreign.Encodings.{Base64, IsBase64, Codec, IsRoundTrip}

module _ (base64 : Base64) {T : Type 0} (json : Codec T) where
  -- The text that `serialize` gives to `serialize_str`.
  unfoldable pub serialize : T → Outcome Text
  serialize value = do bytes ← or_err (json.to_vec value) foreign; ok (base64.encode_string bytes)

  -- `deserialize`, from what `String::deserialize` gave.
  unfoldable pub deserialize : Option Text → Outcome T
  deserialize text = do
    encoded ← or_err text foreign
    bytes ← or_err (base64.decode_vec encoded) foreign
    or_err (json.from_slice bytes) foreign

  -- If base64url and the format read back what they wrote, a value that is serialized as base64url
  -- of its JSON is read back from the text.
  pub deserialize-serialize :
      IsBase64 base64
      → IsRoundTrip json
      → (t : T) (text : Text) → serialize t ≡ ok text
      → deserialize (some text) ≡ ok t
  unfolding serialize deserialize
  deserialize-serialize base64_laws json_laws t text h =
      let (bytes, e, h₁) = >>=-eq-ok _ _ h in
      rw (
        ← ok-injective _ _ h₁,
        base64_laws.decode-encode,
        json_laws.from_slice-to_vec t bytes (or_err-eq-ok _ _ e),
      )
