-- ===== src/Jose/Jwe/Compact/Rejected.antt =====
-- The texts that are no compact form of a JWE, and what `from_str` and `From<String>` do with them.
use mathlib.Core.Path.{subst}
use infosec.Common.{◌≡◌, ◌≢◌, refl, ◌↔◌, inl, inr, none, some, List, [], ◌∷◌, Bytes, Text, split}
use infosec.Common.{
  Error, err, panic, message, foreign, or_err_bind-eq-err, or_err_bind-eq-panic, err-injective,
  ok-ne-err, ok-ne-panic, Outcome-cases,
}
use infosec.Jose.Jwe.Data.{ProtectedFlat}
use infosec.Jose.Jwe.Libraries.{Libraries}
use infosec.Jose.Jwe.Compact.{from_parts, from_str, from_string}
use infosec.Jose.Jwe.Compact.Parsed.{shared_header}

module _ (lib : Libraries) (Json : Type 0) where
  open lib use {base64, protected_json, flat_json}

  -- What is wrong with the pieces between the dots.
  pub data Rejected : List Text → Error → Type 0 where
    pieces :
        (ps : List Text)
        → ((h k i c t : Text) → ps ≢ h ∷ k ∷ i ∷ c ∷ t ∷ [])
        → Rejected ps (message "invalid JWE")
    undecoded :
        (h k i c t : Text) → base64.decode_vec h ≡ none → Rejected (h ∷ k ∷ i ∷ c ∷ t ∷ []) foreign
    unread :
        (h k i c t : Text) (bytes : Bytes)
        → base64.decode_vec h ≡ some bytes
        → flat_json.from_slice bytes ≡ none
        → Rejected (h ∷ k ∷ i ∷ c ∷ t ∷ []) foreign
    unwritten :
        (h k i c t : Text) (bytes : Bytes) (flat : ProtectedFlat)
        → base64.decode_vec h ≡ some bytes
        → flat_json.from_slice bytes ≡ some flat
        → protected_json.to_vec (shared_header lib Json flat) ≡ none
        → Rejected (h ∷ k ∷ i ∷ c ∷ t ∷ []) foreign

  from_parts-Rejected :
      (ps : List Text) (e : Error) → Rejected ps e → from_parts lib Json ps ≡ err e
  from_parts-Rejected [] e (pieces _ n) = refl
  from_parts-Rejected (a ∷ []) e (pieces _ n) = refl
  from_parts-Rejected (a ∷ b ∷ []) e (pieces _ n) = refl
  from_parts-Rejected (a ∷ b ∷ c ∷ []) e (pieces _ n) = refl
  from_parts-Rejected (a ∷ b ∷ c ∷ d ∷ []) e (pieces _ n) = refl
  from_parts-Rejected (a ∷ b ∷ c ∷ d ∷ f ∷ []) e (pieces _ n) = absurd (n a b c d f refl)
  from_parts-Rejected (a ∷ b ∷ c ∷ d ∷ f ∷ g ∷ r) e (pieces _ n) = refl
  from_parts-Rejected _ e (undecoded h k i c t d) = rw d refl
  from_parts-Rejected _ e (unread h k i c t bytes d r) = rw (d, r) refl
  from_parts-Rejected _ e (unwritten h k i c t bytes flat d r w) = rw (d, r, w) refl

  -- Where the number of pieces is wrong.
  miscounted :
      (ps : List Text) (e : Error)
      → ((h k i c t : Text) → ps ≢ h ∷ k ∷ i ∷ c ∷ t ∷ [])
      → message "invalid JWE" ≡ e
      → Rejected ps e
  miscounted ps e n same = subst (Rejected ps) same (pieces ps n)

  Rejected-from_parts :
      (ps : List Text) (e : Error) → from_parts lib Json ps ≡ err e → Rejected ps e
  Rejected-from_parts [] e x = miscounted [] e (λ h k i c t q. cc) (err-injective _ _ x)
  Rejected-from_parts (a ∷ []) e x = miscounted (a ∷ []) e (λ h k i c t q. cc) (err-injective _ _ x)
  Rejected-from_parts (a ∷ b ∷ []) e x =
      miscounted (a ∷ b ∷ []) e (λ h k i c t q. cc) (err-injective _ _ x)
  Rejected-from_parts (a ∷ b ∷ c ∷ []) e x =
      miscounted (a ∷ b ∷ c ∷ []) e (λ h k i c t q. cc) (err-injective _ _ x)
  Rejected-from_parts (a ∷ b ∷ c ∷ d ∷ []) e x =
      miscounted (a ∷ b ∷ c ∷ d ∷ []) e (λ h k i c t q. cc) (err-injective _ _ x)
  Rejected-from_parts (h ∷ k ∷ i ∷ c ∷ t ∷ []) e x =
      let Here = Rejected (h ∷ k ∷ i ∷ c ∷ t ∷ []) in
      elim (or_err_bind-eq-err (base64.decode_vec h) _ _ x) [
        | inl (n, same) ↦ subst Here same (undecoded h k i c t n)
        | inr (bytes, d, y) ↦ elim (or_err_bind-eq-err (flat_json.from_slice bytes) _ _ y) [
          | inl (n, same) ↦ subst Here same (unread h k i c t bytes d n)
          | inr (flat, r, z) ↦
              elim (or_err_bind-eq-err (protected_json.to_vec (shared_header lib Json flat)) _ _
                z) [
                  | inl (n, same) ↦ subst Here same (unwritten h k i c t bytes flat d r n)
                  | inr (aad, w, v) ↦ absurd (ok-ne-err _ e v)
                ]
        ]
      ]
  Rejected-from_parts (a ∷ b ∷ c ∷ d ∷ f ∷ g ∷ r) e x =
      miscounted (a ∷ b ∷ c ∷ d ∷ f ∷ g ∷ r) e (λ h k i c t q. cc) (err-injective _ _ x)

  from_parts-ne-panic : (ps : List Text) → from_parts lib Json ps ≢ panic
  from_parts-ne-panic (h ∷ k ∷ i ∷ c ∷ t ∷ []) x =
      let (bytes, d, y) = or_err_bind-eq-panic (base64.decode_vec h) _ _ x in
      let (flat, r, z) = or_err_bind-eq-panic (flat_json.from_slice bytes) _ _ y in
      let (aad, w, v) = or_err_bind-eq-panic (protected_json.to_vec _) _ _ z in ok-ne-panic _ v
  from_parts-ne-panic _ x = cc

  -- `from_str` fails exactly with the error of what is wrong first: the text has not five parts, the
  -- first is not base64url, that is not the JSON of a flattened header, or the header without the
  -- algorithm is not serialized. It never panics, and `From<String>` panics exactly where it fails.
  pub from_str_rejects :
      (s : Text)
      → ((e : Error) → (from_str lib Json s ≡ err e) ↔ Rejected (split b'.' s) e)
        × (from_str lib Json s ≢ panic)
        × ((from_string lib Json s ≡ panic) ↔ ((e : Error) × Rejected (split b'.' s) e))
  unfolding from_str from_string
  from_str_rejects s = (
    λ e. (Rejected-from_parts (split b'.' s) e, from_parts-Rejected (split b'.' s) e),
    from_parts-ne-panic (split b'.' s),
    (
      λ h. elim (Outcome-cases (from_parts lib Json (split b'.' s))) [
        | inl (jwe, p) ↦ absurd (ok-ne-panic jwe (rw (p, from_string) at h))
        | inr (inl (e, p)) ↦ (e, Rejected-from_parts (split b'.' s) e p)
        | inr (inr p) ↦ absurd (from_parts-ne-panic (split b'.' s) p)
      ],
      λ (e, r). rw (from_string, from_parts-Rejected (split b'.' s) e r) refl,
    ),
  )
