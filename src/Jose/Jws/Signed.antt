-- ===== src/Jose/Jws/Signed.antt =====
-- jose/jws.rs: what `encode` prints, and what it needs from the signer.
use mathlib.Core.Path.{subst}
use infosec.Common.{◌≡◌, sym, ap, ◌∙◌, ◌↔◌, some, Bytes, Text, codes, as_bytes, ◌∙∙◌}
use infosec.Common.{ok, or_err, >>=-eq-ok, or_err-eq-ok, ok-injective}
use infosec.Foreign.Encodings.{Codec}
use infosec.Traits.{Signer}
use infosec.Jose.Jws.Data.{Jws}
use infosec.Jose.Jws.Verify.{Libraries, encode_header}
use infosec.Jose.Jws.Verify.Laws.{encode_header-eq-ok}
use infosec.Jose.Jws.Builder.{new, set_payload, add_signer, build, encode}
use infosec.Jose.Jws.Token.{token_header, signing_input, token}

module _ (lib : Libraries) {T : Type 0} (json : Codec T) where
  open lib use {base64, header_json}

  -- The signer has a key ID and signs the header and the payload, and the text is the token of the
  -- three.
  pub record IsSigned (payload : T) (signer : Signer) (text : Text) : Type 0 where
    pub kid : Text
    pub method : signer.verification_method ≡ ok kid
    pub header : Bytes
    pub serialized : header_json.to_vec (token_header signer (codes "jwt") kid) ≡ some header
    pub body : Bytes
    pub written : json.to_vec payload ≡ some body
    pub sig : Bytes
    pub signed : signer.try_sign (as_bytes (signing_input lib json header body)) ≡ ok sig
    pub printed : text ≡ token lib json header body sig

  encode_prints :
      (payload : T) (signer : Signer) (kid : Text) (header body sig : Bytes)
      → signer.verification_method ≡ ok kid
      → header_json.to_vec (token_header signer (codes "jwt") kid) ≡ some header
      → json.to_vec payload ≡ some body
      → signer.try_sign (as_bytes (signing_input lib json header body)) ≡ ok sig
      → encode lib json payload signer ≡ ok (token lib json header body sig)
  unfolding encode encode_header
  encode_prints payload signer kid header body sig m h p s = rw (m, h, p, s) (rw (h, encode_header))

  IsSigned-build :
      (payload : T) (signer : Signer) (jws : Jws) (text : Text)
      → build lib json (add_signer (set_payload new payload) signer) ≡ ok jws
      → encode lib json payload signer ≡ ok text
      → IsSigned payload signer text
  unfolding build new set_payload add_signer
  IsSigned-build payload signer jws text b h =
      let (kid, e₁, b₁) = >>=-eq-ok signer.verification_method _ b in
      let (header_text, e₂, b₂) =
        >>=-eq-ok (encode_header lib (token_header signer (codes "jwt") kid)) _ b₁ in
      let (header, e, same) = encode_header-eq-ok lib _ header_text e₂ in
      let (body, e₃, b₃) = >>=-eq-ok (or_err (json.to_vec payload) _) _ b₂ in
      let (sig, e₄, b₄) =
        >>=-eq-ok (signer.try_sign (as_bytes (header_text ∙∙ base64.encode_string body))) _ b₃ in
      let written = or_err-eq-ok _ _ e₃ in
      let signed =
        subst (λ t. signer.try_sign (as_bytes (t ∙∙ base64.encode_string body)) ≡ ok sig) same e₄ in
      record {
        kid = kid;
        method = e₁;
        header = header;
        serialized = e;
        body = body;
        written = written;
        sig = sig;
        signed = signed;
        printed =
            ok-injective _ _
              (sym h ∙ encode_prints payload signer kid header body sig e₁ e written signed);
      }

  encode_builds :
      (payload : T) (signer : Signer) (text : Text)
      → encode lib json payload signer ≡ ok text
      → (jws : Jws) × (build lib json (add_signer (set_payload new payload) signer) ≡ ok jws)
  unfolding encode
  encode_builds payload signer text h =
      let (jws, b, _) =
        >>=-eq-ok (build lib json (add_signer (set_payload new payload) signer)) _ h in
      (jws, b)

  -- `encode` returns a text exactly if the signer has a key ID, the header and the payload are
  -- serialized, and the signer signs the two in base64url with a dot between; the header has the
  -- signer's algorithm, the type `jwt` and the key ID, and nothing else, and the text is the
  -- header, the payload and the signature in base64url, with dots between.
  pub encode-IsSigned :
      (payload : T) (signer : Signer) (text : Text)
      → (encode lib json payload signer ≡ ok text) ↔ IsSigned payload signer text
  encode-IsSigned payload signer text = (
    λ h.
        let (jws, b) = encode_builds payload signer text h in
        IsSigned-build payload signer jws text b h,
    λ i.
        encode_prints payload signer i.kid i.header i.body i.sig i.method i.serialized i.written
          i.signed
        ∙ ap ok (sym i.printed),
  )
