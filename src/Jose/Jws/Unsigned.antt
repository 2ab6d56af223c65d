-- ===== src/Jose/Jws/Unsigned.antt =====
-- jose/jws.rs: the errors and panics of `encode`.
use mathlib.Core.Path.{subst}
use infosec.Common.{◌≡◌, refl, sym, ◌∙◌, ◌↔◌, inl, inr, none, some, Bytes, Text, codes, as_bytes}
use infosec.Common.{Option-cases, Outcome-cases}
use infosec.Common.{
  Outcome, Error, ok, err, panic, foreign, or_err, ◌>>=◌, >>=-eq-err, or_err_bind-eq-err,
  >>=-eq-panic, or_err_bind-eq-panic, ok-ne-err, ok-ne-panic,
}
use infosec.Foreign.Encodings.{Codec}
use infosec.Traits.{Signer}
use infosec.Jose.Jws.Verify.{Libraries, encode_header}
use infosec.Jose.Jws.Builder.{encode}
use infosec.Jose.Jws.Token.{token_header, signing_input, token}

module _ (lib : Libraries) {T : Type 0} (json : Codec T) (payload : T) (signer : Signer) where
  open lib use {header_json}

  -- The steps of `encode` that can fail, each once.
  steps : Outcome Text
  steps = do
    kid ← signer.verification_method
    header ← or_err (header_json.to_vec (token_header signer (codes "jwt") kid)) foreign
    body ← or_err (json.to_vec payload) foreign
    sig ← signer.try_sign (as_bytes (signing_input lib json header body))
    ok (token lib json header body sig)

  encode-steps : encode lib json payload signer ≡ steps
  unfolding encode encode_header steps
  encode-steps = elim (Outcome-cases signer.verification_method) [
    | inl (kid, m) ↦
        elim (Option-cases (header_json.to_vec (token_header signer (codes "jwt") kid))) [
          | inl n ↦ rw (m, n) refl
          | inr (header, h) ↦ elim (Option-cases (json.to_vec payload)) [
            | inl n ↦ rw (m, h, n) refl
            | inr (body, p) ↦
                elim (Outcome-cases
                  (signer.try_sign (as_bytes (signing_input lib json header body)))) [
                    | inl (sig, s) ↦ rw (m, h, p, s) (rw h refl)
                    | inr (inl (e, s)) ↦ rw (m, h, p, s) refl
                    | inr (inr s) ↦ rw (m, h, p, s) refl
                  ]
          ]
        ]
    | inr (inl (e, m)) ↦ rw m refl
    | inr (inr m) ↦ rw m refl
  ]

  -- What the signer is asked to sign.
  pub record IsAsked (kid : Text) (header body : Bytes) : Type 0 where
    pub method : signer.verification_method ≡ ok kid
    pub serialized : header_json.to_vec (token_header signer (codes "jwt") kid) ≡ some header
    pub written : json.to_vec payload ≡ some body

  -- The signer has no key ID, the header or the payload is not serialized, or the signer does not
  -- sign.
  pub data Unsigned : Error → Type 0 where
    no_method : (e : Error) → signer.verification_method ≡ err e → Unsigned e
    no_header :
        (kid : Text)
        → signer.verification_method ≡ ok kid
        → header_json.to_vec (token_header signer (codes "jwt") kid) ≡ none
        → Unsigned foreign
    no_body :
        (kid : Text) (header : Bytes)
        → signer.verification_method ≡ ok kid
        → header_json.to_vec (token_header signer (codes "jwt") kid) ≡ some header
        → json.to_vec payload ≡ none
        → Unsigned foreign
    refused :
        (kid : Text) (header body : Bytes) (e : Error)
        → IsAsked kid header body
        → signer.try_sign (as_bytes (signing_input lib json header body)) ≡ err e
        → Unsigned e

  -- The signer panics, at its key ID or at the signature.
  pub data SignerPanics : Type 0 where
    in_method : signer.verification_method ≡ panic → SignerPanics
    in_sign :
        (kid : Text) (header body : Bytes)
        → IsAsked kid header body
        → signer.try_sign (as_bytes (signing_input lib json header body)) ≡ panic
        → SignerPanics

  steps-Unsigned : (e : Error) → Unsigned e → steps ≡ err e
  unfolding steps
  steps-Unsigned e (no_method _ m) = rw m refl
  steps-Unsigned e (no_header kid m n) = rw (m, n) refl
  steps-Unsigned e (no_body kid header m h n) = rw (m, h, n) refl
  steps-Unsigned e (refused kid header body _ a s) = rw (a.method, a.serialized, a.written, s) refl

  Unsigned-steps : (e : Error) → steps ≡ err e → Unsigned e
  unfolding steps
  Unsigned-steps e x = elim (>>=-eq-err signer.verification_method _ x) [
    | inl m ↦ no_method e m
    | inr (kid, m, y) ↦ elim (or_err_bind-eq-err (header_json.to_vec _) _ _ y) [
      | inl (n, same) ↦ subst Unsigned same (no_header kid m n)
      | inr (header, h, z) ↦ elim (or_err_bind-eq-err (json.to_vec payload) _ _ z) [
        | inl (n, same) ↦ subst Unsigned same (no_body kid header m h n)
        | inr (body, p, w) ↦ elim (>>=-eq-err (signer.try_sign _) _ w) [
          | inl s ↦ refused kid header body e (record { method = m; serialized = h; written = p }) s
          | inr (sig, s, v) ↦ absurd (ok-ne-err _ e v)
        ]
      ]
    ]
  ]

  steps-SignerPanics : SignerPanics → steps ≡ panic
  unfolding steps
  steps-SignerPanics (in_method m) = rw m refl
  steps-SignerPanics (in_sign kid header body a s) = rw (a.method, a.serialized, a.written, s) refl

  SignerPanics-steps : steps ≡ panic → SignerPanics
  unfolding steps
  SignerPanics-steps x = elim (>>=-eq-panic signer.verification_method _ x) [
    | inl m ↦ in_method m
    | inr (kid, m, y) ↦
        let (header, h, z) = or_err_bind-eq-panic (header_json.to_vec _) _ _ y in
        let (body, p, w) = or_err_bind-eq-panic (json.to_vec payload) _ _ z in
        elim (>>=-eq-panic (signer.try_sign _) _ w) [
          | inl s ↦ in_sign kid header body (record { method = m; serialized = h; written = p }) s
          | inr (sig, s, v) ↦ absurd (ok-ne-panic _ v)
        ]
  ]

  -- `encode` fails exactly with the error of the first thing that is wrong: the signer has no key
  -- ID, the header or the payload is not serialized, or the signer does not sign them. It never
  -- fails for want of a signer or of a signature, and it panics exactly if the signer does.
  pub encode_fails :
      ((e : Error) → (encode lib json payload signer ≡ err e) ↔ Unsigned e)
      × ((encode lib json payload signer ≡ panic) ↔ SignerPanics)
  encode_fails = (
    λ e. (λ h. Unsigned-steps e (sym encode-steps ∙ h), λ u. encode-steps ∙ steps-Unsigned e u),
    (λ h. SignerPanics-steps (sym encode-steps ∙ h), λ p. encode-steps ∙ steps-SignerPanics p),
  )
