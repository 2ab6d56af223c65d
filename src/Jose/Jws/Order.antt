-- ===== src/Jose/Jws/Order.antt =====
-- jose/jws.rs: the order of the signatures of a JWS.
use mathlib.Core.Path.{subst, sym}
use mathlib.Core.List.{Perm, Permᴰ}
use mathlib.Core.Logic.{∥∥₁_elim}
use infosec.Common.{◌≡◌, ap, refl, Bool, true, false, List, All}
use infosec.Common.{Outcome, ok, err, panic}
use infosec.Jose.Jws.Data.{Jws}
use infosec.Jose.Jws.Verify.{Libraries, Resolver, verify}
use infosec.Jose.Jws.Verify.Laws.{IsVerified, verify-eq-ok}

All-permute {ℓ} : {A : Type 0} (P : A → Type ℓ) {ps qs : List A} → Permᴰ ps qs → All P ps → All P qs
All-permute P Permᴰ.nil all = tt
All-permute P (Permᴰ.cons e d) (p, rest) = (subst P e p, All-permute P d rest)
All-permute P (Permᴰ.swap e₁ e₂) (p, (q, rest)) = (subst P e₂ q, (subst P e₁ p, rest))
All-permute P (Permᴰ.trans d₁ d₂) all = All-permute P d₂ (All-permute P d₁ all)

abbrev returned : Outcome (Unit {0}) → Bool
returned (ok _) = true
returned (err _) = false
returned panic = false

returned-ok : (o : Outcome (Unit {0})) → returned o ≡ true → o ≡ ok tt
returned-ok (ok tt) h = refl
returned-ok (err e) h = cc
returned-ok panic h = cc

module _ (lib : Libraries) where
  -- Whether a JWS is verified does not depend on the order of its signatures.
  pub verify-perm :
      (resolver : Resolver) (before after : Jws)
      → after.payload ≡ before.payload
      → Perm before.signatures after.signatures
      → verify lib resolver before ≡ ok tt
      → verify lib resolver after ≡ ok tt
  verify-perm resolver before after same moved verified = returned-ok (verify lib resolver after) (
      ∥∥₁_elim moved (hlevel) λ d.
        let every =
          All-permute (IsVerified lib resolver before.payload) d
            ((verify-eq-ok lib resolver before).0 verified) in
        ap returned (
          (verify-eq-ok lib resolver after).1
            (subst (λ p. All (IsVerified lib resolver p) after.signatures) (sym same) every)))
