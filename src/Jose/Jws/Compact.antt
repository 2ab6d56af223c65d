-- ===== src/Jose/Jws/Compact.antt =====
-- jose/jws.rs: the compact form, and the DID of the signer.
pub mod RoundTrip
use infosec.Common.{◌∙∙◌, ℕ, Option, none, some, List, [], ◌∷◌, Text, split}
use infosec.Common.{Outcome, ok, err, panic, message, caused, foreign, or_err, ◌>>=◌}
use infosec.Jose.Jws.Data.{Protected, Signature, Jws, get_kid}
use infosec.Jose.Jws.Verify.{Libraries, encode_header}

-- `slice::first`
abbrev pub first {ℓ} : {A : Type ℓ} → List A → Option A
first [] = none
first (a ∷ _) = some a

module _ (lib : Libraries) where
  open lib use {base64, header_json}

  -- `Jws::encode`
  unfoldable pub encode_jws : Jws → Outcome Text
  unfolding encode_header
  encode_jws jws = do
    signature ← or_err (first jws.signatures) (message "no signature found")
    header ← encode_header lib signature.protected
    ok (header ∙∙ jws.payload ∙∙ signature.signature)

  -- `from_str` on the pieces between the dots.
  abbrev pub from_parts : List Text → Outcome Jws
  from_parts (header ∷ payload ∷ signature ∷ []) = do
    decoded ← or_err (base64.decode_vec header) (caused "issue decoding header")
    protected ← or_err (header_json.from_slice decoded) (caused "issue deserializing header")
    ok (record {
      payload = payload;
      signatures = record { protected = protected; signature = signature } ∷ [];
    })
  from_parts _ = err (message "invalid Compact JWS format")

  -- `FromStr for Jws`
  unfoldable pub from_str : Text → Outcome Jws
  unfolding split
  from_str s = from_parts (split b'.' s)

-- `self.signatures[0]`: an index out of range is a panic.
abbrev signature_zero : List Signature → Outcome Signature
signature_zero [] = panic
signature_zero (s ∷ _) = ok s

-- `Jws::did`
unfoldable pub did : Jws → Outcome Text
unfolding split get_kid
did jws = do
  signature ← signature_zero jws.signatures
  kid ← or_err (get_kid signature.protected) (message "Invalid `kid`")
  or_err (first (split b'#' kid)) (message "Invalid DID")
