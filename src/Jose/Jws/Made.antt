-- ===== src/Jose/Jws/Made.antt =====
-- jose/jws.rs: the JWS values from `build` and from `from_str`.
use mathlib.Core.Path.{subst}
use mathlib.Core.Option.{some-injective}
use infosec.Common.{
  ◌≡◌, ◌≢◌, refl, sym, ◌∙◌, ap, ◌↔◌, some, List, [], ◌∷◌, Text, as_bytes, ◌∙∙◌, arith, IsFirstPiece,
}
use infosec.Common.{ok, err, panic, message, or_err, >>=-eq-ok, or_err-eq-ok, ok-injective}
use infosec.Foreign.Encodings.{Codec}
use infosec.Traits.{Signer}
use infosec.Jose.Jws.Data.{Protected, Signature, Jws, get_kid}
use infosec.Jose.Jws.Verify.{Libraries, encode_header}
use infosec.Jose.Jws.Compact.{first, from_str, encode_jws, did}
use infosec.Jose.Jws.Compact.RoundTrip.{single, from_str-eq-ok, did-eq-ok, did-eq-panic}
use infosec.Jose.Jws.Builder.{JwsBuilder, Payload, Signers, build}
use infosec.Jose.Jws.Token.{token_header}

module _ (lib : Libraries) where
  open lib use {base64}

  -- The ways to a JWS, besides the serde form.
  pub data Made : Jws → Type 1 where
    built :
        {T : Type 0} (json : Codec T) (b : JwsBuilder (Payload T) Signers) (jws : Jws)
        → build lib json b ≡ ok jws
        → Made jws
    parsed : (text : Text) (jws : Jws) → from_str lib text ≡ ok jws → Made jws

  -- The signer, its key ID and the signature in what `build` returned.
  pub record IsOneSigned {T : Type 0} (b : JwsBuilder (Payload T) Signers) (jws : Jws)
      : Type 0 where
    pub signer : Signer
    pub is_first : first b.signers.list ≡ some signer
    pub kid : Text
    pub method : signer.verification_method ≡ ok kid
    pub payload : Text
    pub signature : Text
    pub same : jws ≡ single lib (token_header signer b.typ kid) payload signature

  build-IsOneSigned :
      {T : Type 0} (json : Codec T) (b : JwsBuilder (Payload T) Signers) (jws : Jws)
      → build lib json b ≡ ok jws
      → IsOneSigned b jws
  unfolding build
  build-IsOneSigned json b jws h =
      let (signer, e₁, h₁) = >>=-eq-ok (or_err (first b.signers.list) _) _ h in
      let (kid, e₂, h₂) = >>=-eq-ok signer.verification_method _ h₁ in
      let (header, e₃, h₃) = >>=-eq-ok (encode_header lib (token_header signer b.typ kid)) _ h₂ in
      let (bytes, e₄, h₄) = >>=-eq-ok (or_err (json.to_vec b.payload.value) _) _ h₃ in
      let (sig, e₅, h₅) =
        >>=-eq-ok (signer.try_sign (as_bytes (header ∙∙ base64.encode_string bytes))) _ h₄ in
      record {
        signer = signer;
        is_first = or_err-eq-ok _ _ e₁;
        kid = kid;
        method = e₂;
        payload = base64.encode_string bytes;
        signature = base64.encode_string sig;
        same = sym (ok-injective _ _ h₅);
      }

  not_empty : (s : Signature) (ss : List Signature) → s ∷ ss ≢ []
  not_empty s ss h = cc

  key_of_head :
      (s t : Signature) (ss ts : List Signature)
      → s ∷ ss ≡ t ∷ ts
      → get_kid s.protected ≡ get_kid t.protected
  key_of_head s t ss ts h = cc

  Made-single :
      (jws : Jws)
      → Made jws
      → (protected : Protected) × (payload : Text) × (signature : Text) × (jws
          ≡ single lib protected payload signature)
  Made-single jws (built json b _ h) =
      let one = build-IsOneSigned json b jws h in
      (token_header one.signer b.typ one.kid, one.payload, one.signature, one.same)
  Made-single jws (parsed text _ h) =
      let (protected, payload, signature, _, e) = (from_str-eq-ok lib text jws).0 h in
      (protected, payload, signature, e)

  encode_jws-single :
      (protected : Protected) (payload signature : Text)
      → encode_jws lib (single lib protected payload signature) ≢ err (message "no signature found")
  unfolding encode_jws encode_header
  encode_jws-single protected payload signature h = ground arith

  -- A JWS that was built or parsed has exactly one signature: asking for its DID is no panic, and
  -- `encode` does not fail for want of a signature.
  pub Made-kept :
      (jws : Jws)
      → Made jws
      → ((s : Signature) × (jws.signatures ≡ s ∷ []))
        × (did jws ≢ panic)
        × (encode_jws lib jws ≢ err (message "no signature found"))
  Made-kept jws made =
      let (protected, payload, signature, e) = Made-single jws made in
      (
        (record { protected = protected; signature = signature }, ap (λ j. j.signatures) e),
        λ h. not_empty _ _ (sym (ap (λ j. j.signatures) e) ∙ (did-eq-panic jws).0 h),
        λ h. encode_jws-single protected payload signature (rw e at h),
      )

  did_of_one :
      {T : Type 0} (b : JwsBuilder (Payload T) Signers) (jws : Jws) (one : IsOneSigned b jws)
      (d : Text)
      → (did jws ≡ ok d) ↔ IsFirstPiece b'#' d one.kid
  unfolding get_kid
  did_of_one b jws one d = (
    λ h.
        let (s, rest, kid, e, k, f) = (did-eq-ok jws d).0 h in
        let same : s ∷ rest ≡ _ ∷ [] = sym e ∙ ap (λ j. j.signatures) one.same in
        let kid_same = key_of_head _ _ _ _ same in
        subst (λ t. IsFirstPiece b'#' d t) (some-injective _ _ (sym k ∙ kid_same)) f,
    λ f. (did-eq-ok jws d).1 (_, [], one.kid, ap (λ j. j.signatures) one.same, refl, f),
  )

  -- The DID of a JWS that was built is what stands before the first `#` in the signer's
  -- verification method, or all of it if there is none.
  pub did-build :
      {T : Type 0} (json : Codec T) (b : JwsBuilder (Payload T) Signers) (jws : Jws)
      → build lib json b ≡ ok jws
      → (signer : Signer) × (kid : Text) × (first b.signers.list ≡ some signer)
        × (signer.verification_method ≡ ok kid)
        × ((d : Text) → (did jws ≡ ok d) ↔ IsFirstPiece b'#' d kid)
  did-build json b jws h =
      let one = build-IsOneSigned json b jws h in
      (one.signer, one.kid, one.is_first, one.method, did_of_one b jws one)
