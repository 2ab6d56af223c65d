-- ===== src/Jose/Jwe/Compact.antt =====
-- jose/jwe.rs and jose/jwe/decrypt.rs: the compact form.
pub mod RoundTrip
pub mod Parsed
pub mod Rejected
use mathlib.Core.Option
use infosec.Common.{◌∙∙◌, ℕ, Option, none, some, List, [], ◌∷◌, ◌++◌, Text, split}
use infosec.Common.{Outcome, ok, err, panic, message, foreign, or_err, ◌>>=◌, ◌>>◌}
use infosec.Jose.Jwe.Algorithms.{KeyAlgorithm, ecdh_es}
use infosec.Jose.Jwe.Data.{
  default_header, KeyEncryption, Recipients, one, many, Protected, ProtectedFlat, Jwe,
}
use infosec.Jose.Jwe.Libraries.{Libraries}

abbrev single_recipient : Recipients → Outcome KeyEncryption
single_recipient (one recipient) = ok recipient
single_recipient (many _) = err (message "compact serialization requires a single recipient")

-- The protected header with the recipient's algorithm and key in it.
abbrev pub flat_header : Protected → KeyEncryption → ProtectedFlat
flat_header protected recipient = record {
  inner = record protected { alg = some recipient.header.alg };
  epk = recipient.header.epk;
}

module _ (lib : Libraries) (Json : Type 0) where
  open lib use {base64, protected_json, flat_json}

  -- `Jwe::encode`
  unfoldable pub encode : Jwe Json → Outcome Text
  encode jwe = do
    recipient ← single_recipient jwe.recipients
    bytes ← or_err (flat_json.to_vec (flat_header jwe.protected recipient)) foreign
    ok (
        base64.encode_string bytes
        ∙∙ recipient.encrypted_key
        ∙∙ jwe.iv
        ∙∙ jwe.ciphertext
        ∙∙ jwe.tag)

  -- `from_str` on the pieces between the dots.
  abbrev from_parts : List Text → Outcome (Jwe Json)
  from_parts (header ∷ encrypted_key ∷ iv ∷ ciphertext ∷ tag ∷ []) = do
    bytes ← or_err (base64.decode_vec header) foreign
    flat ← or_err (flat_json.from_slice bytes) foreign
    let protected : Protected = record { alg = none; enc = flat.inner.enc }
    aad_bytes ← or_err (protected_json.to_vec protected) foreign
    ok (record {
      protected = protected;
      unprotected = none;
      recipients = one (record {
        header = record default_header {
          alg = Option.get_or flat.inner.alg ecdh_es;
          epk = flat.epk;
        };
        encrypted_key = encrypted_key;
      });
      aad = base64.encode_string aad_bytes;
      iv = iv;
      ciphertext = ciphertext;
      tag = tag;
    })
  from_parts _ = err (message "invalid JWE")

  -- `FromStr for Jwe`
  unfoldable pub from_str : Text → Outcome (Jwe Json)
  unfolding split
  from_str s = from_parts (split b'.' s)

  -- `From<String> for Jwe`: `expect` panics on an error.
  unfoldable pub from_string : Text → Outcome (Jwe Json)
  unfolding from_str
  from_string s = elim (from_str s) [ ok jwe ↦ ok jwe | err _ ↦ panic | panic ↦ panic ]
