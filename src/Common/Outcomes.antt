-- ===== src/Common/Outcomes.antt =====
-- What a fallible function of the source does: it returns, fails with an `anyhow::Error`, or panics.
use Prim.Native.String.{String}
use mathlib.Core.Path.{◌≡◌, refl}
use mathlib.Core.Logic.{◌≢◌, ◌⊎◌, inl, inr}
use mathlib.Core.Bool.{Bool, true, false}
use mathlib.Core.Option.{Option, none, some}

-- `anyhow!("…")`, `anyhow!("…: {e}")` with the cause `e` left out, and a foreign error passed on
-- by `?`.
pub data Error : Type 0 where
  message : String → Error
  caused : String → Error
  foreign : Error

pub data Outcome {ℓ} (A : Type ℓ) : Type ℓ where
  ok : A → Outcome A
  err : Error → Outcome A
  panic : Outcome A

infixl 5 ◌>>=◌ ◌>>◌
abbrev pub ◌>>=◌ {ℓ κ} : {A : Type ℓ} {B : Type κ} → Outcome A → (A → Outcome B) → Outcome B
panic >>= next = panic
err reason >>= next = err reason
ok value >>= next = next value

abbrev pub ◌>>◌ {ℓ} : {B : Type ℓ} → Outcome (Unit {0}) → Outcome B → Outcome B
step >> rest = step >>= λ _. rest

-- `if !b { bail!(e) }`
abbrev pub guard : Bool → Error → Outcome (Unit {0})
guard false reason = err reason
guard true reason = ok tt

-- `let Some(a) = o else { return Err(e) }`, `o.ok_or_else(…)?`, `r.map_err(…)?`
abbrev pub or_err {ℓ} : {A : Type ℓ} → Option A → Error → Outcome A
or_err none e = err e
or_err (some a) e = ok a

-- `expect("…")` on a result, and `unwrap` on one that is read as an option.
abbrev pub expect {ℓ} : {A : Type ℓ} → Outcome A → Outcome A
expect (ok a) = ok a
expect (err _) = panic
expect panic = panic

abbrev pub unwrap {ℓ} : {A : Type ℓ} → Option A → Outcome A
unwrap (some a) = ok a
unwrap none = panic

-- What a format keeps of a conversion by which it reads a value.
abbrev pub returned {ℓ} : {A : Type ℓ} → Outcome A → Option A
returned (ok a) = some a
returned (err _) = none
returned panic = none

module _ {ℓ κ} {A : Type ℓ} {B : Type κ} where
  -- Where a sequence of two steps returned, both did.
  pub >>=-eq-ok :
      (step : Outcome A) (next : A → Outcome B) {result : B}
      → (step >>= next) ≡ ok result
      → (value : A) × (step ≡ ok value) × (next value ≡ ok result)
  >>=-eq-ok panic next returned = cc
  >>=-eq-ok (err reason) next returned = cc
  >>=-eq-ok (ok value) next returned = (value, refl, returned)

module _ {ℓ κ} {A : Type ℓ} {B : Type κ} where
  -- Where a sequence of two steps panicked, one of them did.
  pub >>=-eq-panic :
      (step : Outcome A) (next : A → Outcome B)
      → (step >>= next) ≡ panic
      → (step ≡ panic) ⊎ ((value : A) × (step ≡ ok value) × (next value ≡ panic))
  >>=-eq-panic panic next h = inl refl
  >>=-eq-panic (err reason) next h = cc
  >>=-eq-panic (ok value) next h = inr (value, refl, h)

  -- The same where the first step never panics.
  pub calm_bind-eq-panic :
      (step : Outcome A) (next : A → Outcome B)
      → (step >>= next) ≡ panic
      → step ≢ panic
      → (value : A) × (step ≡ ok value) × (next value ≡ panic)
  calm_bind-eq-panic panic next h calm = absurd (calm refl)
  calm_bind-eq-panic (err reason) next h calm = cc
  calm_bind-eq-panic (ok value) next h calm = (value, refl, h)

  -- A test of an option does not panic.
  pub or_err_bind-eq-panic :
      (o : Option A) (e : Error) (next : A → Outcome B)
      → (or_err o e >>= next) ≡ panic
      → (value : A) × (o ≡ some value) × (next value ≡ panic)
  or_err_bind-eq-panic none e next h = cc
  or_err_bind-eq-panic (some value) e next h = (value, refl, h)

pub or_err-eq-ok {ℓ} :
    {A : Type ℓ} (o : Option A) (e : Error) {a : A} → or_err o e ≡ ok a → o ≡ some a
or_err-eq-ok none e h = cc
or_err-eq-ok (some a) e h = cc

pub guard-eq-ok : (b : Bool) (e : Error) {u : Unit {0}} → guard b e ≡ ok u → b ≡ true
guard-eq-ok true e h = refl
guard-eq-ok false e h = cc

pub ok-injective {ℓ} : {A : Type ℓ} (a b : A) → ok a ≡ ok b → a ≡ b
ok-injective a b h = cc

pub ok-ne-err {ℓ} : {A : Type ℓ} (a : A) (e : Error) → ok a ≢ err e
ok-ne-err a e h = cc

pub panic-ne-err {ℓ} : {A : Type ℓ} (e : Error) → Path (Outcome A) panic (err e) → ⊥
panic-ne-err e h = cc

pub ok-ne-panic {ℓ} : {A : Type ℓ} (a : A) → ok a ≢ panic
ok-ne-panic a h = cc

module _ {ℓ} {A : Type ℓ} where
  pub Outcome-cases :
      (o : Outcome A) → ((a : A) × (o ≡ ok a)) ⊎ ((e : Error) × (o ≡ err e)) ⊎ (o ≡ panic)
  Outcome-cases (ok a) = inl (a, refl)
  Outcome-cases (err e) = inr (inl (e, refl))
  Outcome-cases panic = inr (inr refl)

pub err-injective {ℓ} : {A : Type ℓ} (e f : Error) → Path (Outcome A) (err e) (err f) → e ≡ f
err-injective e f h = cc

module _ {ℓ κ} {A : Type ℓ} {B : Type κ} where
  -- Where a sequence of two steps failed, one of them did, with that error.
  pub >>=-eq-err :
      (step : Outcome A) (next : A → Outcome B) {reason : Error}
      → (step >>= next) ≡ err reason
      → (step ≡ err reason) ⊎ ((value : A) × (step ≡ ok value) × (next value ≡ err reason))
  >>=-eq-err panic next h = cc
  >>=-eq-err (err e) next h = inl (cc)
  >>=-eq-err (ok value) next h = inr (value, refl, h)

  pub or_err_bind-eq-err :
      (o : Option A) (e : Error) (next : A → Outcome B) {reason : Error}
      → (or_err o e >>= next) ≡ err reason
      → ((o ≡ none) × (e ≡ reason)) ⊎ ((value : A) × (o ≡ some value) × (next value ≡ err reason))
  or_err_bind-eq-err none e next h = inl (refl, err-injective {A = B} e _ h)
  or_err_bind-eq-err (some value) e next h = inr (value, refl, h)
