-- ===== src/Jose/Jws/Verify/Laws.antt =====
-- What it means that a JWS is verified.
use mathlib.Core.Path.{subst}
use infosec.Common.{◌∙∙◌, ◌≡◌, refl, inl, inr, ◌↔◌, some, List, [], ◌∷◌, All}
use infosec.Common.{Bytes, Text, Option-cases, arith}
use infosec.Common.{ok, >>=-eq-ok, or_err-eq-ok}
use infosec.Jose.Jwk.{PublicKeyJwk}
use infosec.Jose.Jws.Data.{Protected, Signature, Jws, get_kid}
use infosec.Jose.Jws.Verify.{
  Libraries, Resolver, verify_key, encode_header, verify_signature, verify_signatures, verify,
}
use infosec.Jose.Jws.Verify.Keys.{Accepts, verify_key-eq-ok}

module _ (lib : Libraries) where
  open lib use {base64, header_json}

  -- The key that the signature's `kid` resolves to accepts it, for the header serialized anew and
  -- the payload.
  pub record IsVerified (resolver : Resolver) (payload : Text) (s : Signature) : Type 0 where
    pub kid : Text
    pub has_kid : get_kid s.protected ≡ some kid
    pub header : Bytes
    pub serialized : header_json.to_vec s.protected ≡ some header
    pub sig : Bytes
    pub decoded : base64.decode_vec s.signature ≡ some sig
    pub key : PublicKeyJwk
    pub resolved : resolver kid ≡ ok key
    pub accepted : Accepts lib key (base64.encode_string header ∙∙ payload) sig

  pub encode_header-eq-ok :
      (header : Protected) (t : Text)
      → encode_header lib header ≡ ok t
      → (bytes : Bytes) × (header_json.to_vec header ≡ some bytes)
        × (t ≡ base64.encode_string bytes)
  unfolding encode_header
  encode_header-eq-ok header t h = elim (Option-cases (header_json.to_vec header)) [
    | inl e ↦ cc
    | inr (bytes, e) ↦ (bytes, e, ground arith)
  ]

  pub verify_signature-eq-ok :
      (resolver : Resolver) (payload : Text) (s : Signature)
      → (verify_signature lib resolver payload s ≡ ok tt) ↔ IsVerified resolver payload s
  unfolding verify_signature encode_header
  verify_signature-eq-ok resolver payload s = (
    λ h.
        let (kid, e₁, h₁) = >>=-eq-ok _ _ h in
        let (header, e₂, h₂) = >>=-eq-ok _ _ h₁ in
        let (bytes, e₃, h₃) = encode_header-eq-ok s.protected header e₂ in
        let (sig, e₄, h₄) = >>=-eq-ok _ _ h₂ in
        let (key, e₅, h₅) = >>=-eq-ok _ _ h₄ in
        record {
          kid = kid;
          has_kid = or_err-eq-ok _ _ e₁;
          header = bytes;
          serialized = e₃;
          sig = sig;
          decoded = or_err-eq-ok _ _ e₄;
          key = key;
          resolved = e₅;
          accepted =
              (verify_key-eq-ok lib key _ sig).0
                (subst (λ t. verify_key lib key (t ∙∙ payload) sig ≡ ok tt) h₃ h₅);
        },
    λ v.
        rw (v.has_kid, v.serialized, v.decoded, v.resolved)
          ((verify_key-eq-ok lib v.key _ v.sig).1 v.accepted),
  )

  verify_signatures-eq-ok :
      (resolver : Resolver) (payload : Text) (ss : List Signature)
      → (verify_signatures lib resolver payload ss ≡ ok tt) ↔ All (IsVerified resolver payload) ss
  verify_signatures-eq-ok resolver payload [] = (λ _. tt, λ _. refl)
  verify_signatures-eq-ok resolver payload (s ∷ ss) = (
    λ h.
        let (_, e, h') = >>=-eq-ok _ _ h in
        (
          (verify_signature-eq-ok resolver payload s).0 e,
          (verify_signatures-eq-ok resolver payload ss).0 h',
        ),
    λ a.
        rw ((verify_signature-eq-ok resolver payload s).1 a.0)
          ((verify_signatures-eq-ok resolver payload ss).1 a.1),
  )

  -- A JWS is verified exactly if each of its signatures is: its header names a key, the resolver
  -- has the key, and the key accepts the signature for the header and the payload. One without
  -- signatures is verified.
  pub verify-eq-ok :
      (resolver : Resolver) (jws : Jws)
      → (verify lib resolver jws ≡ ok tt) ↔ All (IsVerified resolver jws.payload) jws.signatures
  unfolding verify
  verify-eq-ok resolver jws = verify_signatures-eq-ok resolver jws.payload jws.signatures
