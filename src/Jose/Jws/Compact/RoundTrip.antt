-- ===== src/Jose/Jws/Compact/RoundTrip.antt =====
-- Compact JWS texts and the JWS that they stand for.
use mathlib.Core.Path.{subst}
use mathlib.Core.Option.{some-injective}
use infosec.Common.{◌∙∙◌, ◌≡◌, ◌≢◌, refl, sym, ap, ◌∙◌, ◌↔◌, some, List, [], ◌∷◌}
use infosec.Common.{
  Bytes, Text, split, Without, split_undivided, split-append, split-Without, join-split,
  IsFirstPiece, split-first, split_of_first, All, arith,
}
use infosec.Common.{ok, panic, >>=-eq-ok, or_err-eq-ok, ok-injective}
use infosec.Foreign.Encodings.{IsBase64, IsRoundTrip}
use infosec.Foreign.Encodings.Alphabet.{encode-Without_dot}
use infosec.Jose.Jws.Data.{Protected, Signature, Jws, get_kid}
use infosec.Jose.Jws.Verify.{Libraries}
use infosec.Jose.Jws.Verify.Laws.{encode_header-eq-ok}
use infosec.Jose.Jws.Compact.{first, encode_jws, from_parts, from_str, signature_zero, did}

-- Three pieces without dots, joined by dots, are split again.
pub split-three :
    (a b c : Text)
    → Without b'.' a
    → Without b'.' b
    → Without b'.' c
    → split b'.' (a ∙∙ b ∙∙ c) ≡ a ∷ b ∷ c ∷ []
split-three a b c wa wb wc =
    rw (split-append b'.' a (b ∙∙ c) wa, split-append b'.' b c wb, split_undivided b'.' c wc)

module _ (lib : Libraries) where
  open lib use {base64, header_json}

  -- The text has three parts without dots: a header that is base64url of JSON, a payload and a
  -- signature.
  pub record IsCompact (s : Text) (protected : Protected) (payload signature : Text) : Type 0 where
    pub header : Text
    pub parts : s ≡ header ∙∙ payload ∙∙ signature
    pub header_dotless : Without b'.' header
    pub payload_dotless : Without b'.' payload
    pub signature_dotless : Without b'.' signature
    pub bytes : Bytes
    pub decoded : base64.decode_vec header ≡ some bytes
    pub parsed : header_json.from_slice bytes ≡ some protected

  -- The JWS of one signature.
  abbrev pub single : Protected → Text → Text → Jws
  single protected payload signature = record {
    payload = payload;
    signatures = record { protected = protected; signature = signature } ∷ [];
  }

  from_parts-IsCompact :
      (s : Text) (ps : List Text) (jws : Jws)
      → split b'.' s ≡ ps
      → from_parts lib ps ≡ ok jws
      → (protected : Protected) × (payload : Text) × (signature : Text) × IsCompact s protected
          payload signature
        × (jws ≡ single protected payload signature)
  from_parts-IsCompact s (h ∷ p ∷ g ∷ []) jws e r =
      let (bytes, e₁, r₁) = >>=-eq-ok _ _ r in
      let (protected, e₂, r₂) = >>=-eq-ok _ _ r₁ in
      let w : All (Without b'.') (h ∷ p ∷ g ∷ []) = rw e at (split-Without b'.' s) in
      (
        protected,
        p,
        g,
        record {
          header = h;
          parts = sym (rw e at (join-split b'.' s));
          header_dotless = w.0;
          payload_dotless = w.1.0;
          signature_dotless = w.1.1.0;
          bytes = bytes;
          decoded = or_err-eq-ok _ _ e₁;
          parsed = or_err-eq-ok _ _ e₂;
        },
        ground arith,
      )
  from_parts-IsCompact s _ jws e r = cc

  from_str-IsCompact :
      (s : Text) (protected : Protected) (payload signature : Text)
      → IsCompact s protected payload signature
      → from_str lib s ≡ ok (single protected payload signature)
  unfolding from_str
  from_str-IsCompact s protected payload signature c = rw (
    c.parts,
    split-three _ _ _ c.header_dotless c.payload_dotless c.signature_dotless,
    c.decoded,
    c.parsed,
  )

  -- A text is parsed exactly if it is in compact form, and as the JWS with its header, its payload
  -- and its signature.
  pub from_str-eq-ok :
      (s : Text) (jws : Jws)
      → (from_str lib s ≡ ok jws) ↔ (
          (protected : Protected) × (payload : Text) × (signature : Text) × IsCompact s protected
            payload signature
          × (jws ≡ single protected payload signature))
  unfolding from_str
  from_str-eq-ok s jws = (
    from_parts-IsCompact s (split b'.' s) jws refl,
    λ (protected, payload, signature, c, e).
        rw e (from_str-IsCompact s protected payload signature c),
  )

  -- Where base64url and the JSON of the header read back what they wrote: what `encode` printed of
  -- a JWS with one signature is parsed as that JWS, if there is no dot in its payload and in its
  -- signature.
  pub from_str-encode_jws :
      IsBase64 base64
      → IsRoundTrip header_json
      → (protected : Protected) (payload signature s : Text) → Without b'.' payload
      → Without b'.' signature
      → encode_jws lib (single protected payload signature) ≡ ok s
      → from_str lib s ≡ ok (single protected payload signature)
  unfolding encode_jws
  from_str-encode_jws base64_laws json_laws protected payload signature s wp ws h =
      let (header, e₁, h₁) = >>=-eq-ok _ _ h in
      let (bytes, e₂, h₂) = encode_header-eq-ok lib protected header e₁ in
      from_str-IsCompact s protected payload signature (record {
        header = base64.encode_string bytes;
        parts = sym (ok-injective _ _ h₁) ∙ ap (λ t. t ∙∙ payload ∙∙ signature) h₂;
        header_dotless = encode-Without_dot base64_laws bytes;
        payload_dotless = wp;
        signature_dotless = ws;
        bytes = bytes;
        decoded = base64_laws.decode-encode bytes;
        parsed = json_laws.from_slice-to_vec protected bytes e₂;
      })

signature_zero-eq-ok :
    (ss : List Signature) (s : Signature)
    → signature_zero ss ≡ ok s
    → (rest : List Signature) × (ss ≡ s ∷ rest)
signature_zero-eq-ok [] s h = cc
signature_zero-eq-ok (t ∷ ts) s h = (ts, ground arith)

first_of_split : (kid d : Text) → first (split b'#' kid) ≡ some d → IsFirstPiece b'#' d kid
first_of_split kid d h =
    let (p, ps, e, f) = split-first b'#' kid in
    subst (λ t. IsFirstPiece b'#' t kid) (some-injective p d (rw e at h)) f

pub did-eq-ok :
    (jws : Jws) (d : Text)
    → (did jws ≡ ok d) ↔ (
        (s : Signature) × (rest : List Signature) × (kid : Text) × (jws.signatures ≡ s ∷ rest)
        × (get_kid s.protected ≡ some kid)
        × IsFirstPiece b'#' d kid)
unfolding did
did-eq-ok jws d = (
  λ h.
      let (s, e₁, h₁) = >>=-eq-ok (signature_zero jws.signatures) _ h in
      let (kid, e₂, h₂) = >>=-eq-ok _ _ h₁ in
      let (rest, e) = signature_zero-eq-ok jws.signatures s e₁ in
      (s, rest, kid, e, or_err-eq-ok _ _ e₂, first_of_split kid d (or_err-eq-ok _ _ h₂)),
  λ (s, rest, kid, e, k, f). let (ps, e') = split_of_first b'#' d kid f in rw (e, k, e'),
)

did_signed :
    (payload : Text) (s : Signature) (ss : List Signature)
    → did (record { payload = payload; signatures = s ∷ ss }) ≢ panic
unfolding did
did_signed payload s ss h = ground (arith, h)

did_panic_on :
    (payload : Text) (ss : List Signature)
    → (did (record { payload = payload; signatures = ss }) ≡ panic) ↔ (ss ≡ [])
unfolding did
did_panic_on payload [] = (λ _. refl, λ _. refl)
did_panic_on payload (s ∷ ss) = (λ h. absurd (did_signed payload s ss h), λ e. cc)

pub did-eq-panic : (jws : Jws) → (did jws ≡ panic) ↔ (jws.signatures ≡ [])
did-eq-panic jws = did_panic_on jws.payload jws.signatures

-- A JWS has a DID exactly if it has a signature and the header of the first one has a key ID: the
-- DID is what stands there before the first `#`, or all of it if there is none. Asking for the DID
-- is a panic, and no error, exactly where a JWS has no signatures.
pub did_results :
    (jws : Jws) (d : Text)
    → ((did jws ≡ ok d) ↔ (
        (s : Signature) × (rest : List Signature) × (kid : Text) × (jws.signatures ≡ s ∷ rest)
        × (get_kid s.protected ≡ some kid)
        × IsFirstPiece b'#' d kid))
      × ((did jws ≡ panic) ↔ (jws.signatures ≡ []))
did_results jws d = (did-eq-ok jws d, did-eq-panic jws)
