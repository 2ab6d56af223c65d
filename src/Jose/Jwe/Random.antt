-- ===== src/Jose/Jwe/Random.antt =====
-- Code that draws random values and may fail: the state of the generators is passed along.
use infosec.Common.{◌≡◌, ◌≢◌, refl, ap, ◌∙◌, ◌⊎◌, inl, inr, Option, none, some}
use infosec.Common.{Outcome, Error, ok, err, panic, or_err, ok-injective, err-injective}

abbrev pub Random : Type 0 → Type 0 → Type 0
Random S A = S → Outcome (A × S)

abbrev after : {S A B : Type 0} → Outcome (A × S) → (A → Random S B) → Outcome (B × S)
after (ok (a, s)) f = f a s
after (err e) f = err e
after panic f = panic

infixl 5 ◌>>=◌ ◌>>◌
abbrev pub ◌>>=◌ : {S A B : Type 0} → Random S A → (A → Random S B) → Random S B
◌>>=◌ m f s = after (m s) f

abbrev pub ◌>>◌ : {S B : Type 0} → Random S (Unit {0}) → Random S B → Random S B
m >> k = m >>= λ _. k

abbrev pub pure : {S A : Type 0} → A → Random S A
pure a s = ok (a, s)

-- A draw from the generators.
abbrev pub draw : {S A : Type 0} → (S → A × S) → Random S A
draw f s = ok (f s)

-- A step that draws nothing.
abbrev pub lift : {S A : Type 0} → Outcome A → Random S A
lift (ok a) s = ok (a, s)
lift (err e) s = err e
lift panic s = panic

module _ {S A B : Type 0} where
  -- Inversion of a bind that returned.
  pub >>=-eq-ok :
      (m : Random S A) (f : A → Random S B) (s t : S) (b : B)
      → (m >>= f) s ≡ ok (b, t)
      → (a : A) × (r : S) × (m s ≡ ok (a, r)) × (f a r ≡ ok (b, t))
  >>=-eq-ok m f s t b h = after_inv (m s) refl h
    where
      after_inv :
          (o : Outcome (A × S))
          → m s ≡ o
          → after o f ≡ ok (b, t)
          → (a : A) × (r : S) × (m s ≡ ok (a, r)) × (f a r ≡ ok (b, t))
      after_inv (ok (a, r)) e h' = (a, r, e, h')
      after_inv (err x) e h' = cc
      after_inv panic e h' = cc

  pub lift_bind-eq-ok :
      (o : Outcome A) (f : A → Random S B) (s t : S) (b : B)
      → (lift o >>= f) s ≡ ok (b, t)
      → (a : A) × (o ≡ ok a) × (f a s ≡ ok (b, t))
  lift_bind-eq-ok (ok a) f s t b h = (a, refl, h)
  lift_bind-eq-ok (err x) f s t b h = cc
  lift_bind-eq-ok panic f s t b h = cc

module _ {S A : Type 0} where
  pub pure-eq-ok : (a b : A) (s t : S) → pure a s ≡ ok (b, t) → (a ≡ b) × (s ≡ t)
  pure-eq-ok a b s t h = (
    ap (λ (x : A × S). x.0) (ok-injective (a, s) (b, t) h),
    ap (λ (x : A × S). x.1) (ok-injective (a, s) (b, t) h),
  )

module _ {S A B : Type 0} where
  -- Where two steps failed, one of them did, with that error.
  pub >>=-eq-err :
      (m : Random S A) (f : A → Random S B) (s : S) (e : Error)
      → (m >>= f) s ≡ err e
      → (m s ≡ err e) ⊎ ((a : A) × (r : S) × (m s ≡ ok (a, r)) × (f a r ≡ err e))
  >>=-eq-err m f s e h = after_err (m s) refl h
    where
      after_err :
          (o : Outcome (A × S))
          → m s ≡ o
          → after o f ≡ err e
          → (m s ≡ err e) ⊎ ((a : A) × (r : S) × (m s ≡ ok (a, r)) × (f a r ≡ err e))
      after_err (ok (a, r)) p h' = inr (a, r, p, h')
      after_err (err x) p h' = inl (p ∙ ap err (err-injective x e h'))
      after_err panic p h' = cc

  pub lift_bind-eq-err :
      (o : Outcome A) (f : A → Random S B) (s : S) (e : Error)
      → (lift o >>= f) s ≡ err e
      → (o ≡ err e) ⊎ ((a : A) × (o ≡ ok a) × (f a s ≡ err e))
  lift_bind-eq-err (ok a) f s e h = inr (a, refl, h)
  lift_bind-eq-err (err x) f s e h = inl (ap err (err-injective x e h))
  lift_bind-eq-err panic f s e h = cc

  pub lift-or_err_bind-eq-err :
      (o : Option A) (x : Error) (f : A → Random S B) (s : S) (e : Error)
      → (lift (or_err o x) >>= f) s ≡ err e
      → ((o ≡ none) × (x ≡ e)) ⊎ ((a : A) × (o ≡ some a) × (f a s ≡ err e))
  lift-or_err_bind-eq-err none x f s e h = inl (refl, err-injective x e h)
  lift-or_err_bind-eq-err (some a) x f s e h = inr (a, refl, h)

-- A step that never panics.
abbrev pub Calm : {S A : Type 0} → Random S A → Type 0
Calm {S} m = (s : S) → m s ≢ panic

module _ {S A B : Type 0} where
  pub >>=-Calm :
      (m : Random S A) (f : A → Random S B) → Calm m → ((a : A) → Calm (f a)) → Calm (m >>= f)
  >>=-Calm m f calm then s h = after_calm (m s) refl h
    where
      after_calm : (o : Outcome (A × S)) → m s ≡ o → after o f ≡ panic → ⊥
      after_calm (ok (a, r)) p h' = then a r h'
      after_calm (err x) p h' = cc
      after_calm panic p h' = calm s p

module _ {S A B : Type 0} where
  -- Where a step that draws nothing is followed by a panic, it returned.
  pub lift_bind-eq-panic :
      (o : Outcome A) (f : A → Random S B) (s : S)
      → o ≢ panic
      → (lift o >>= f) s ≡ panic
      → (a : A) × (o ≡ ok a) × (f a s ≡ panic)
  lift_bind-eq-panic (ok a) f s n h = (a, refl, h)
  lift_bind-eq-panic (err x) f s n h = cc
  lift_bind-eq-panic panic f s n h = absurd (n refl)

  pub lift-or_err_bind-eq-panic :
      (o : Option A) (x : Error) (f : A → Random S B) (s : S)
      → (lift (or_err o x) >>= f) s ≡ panic
      → (a : A) × (o ≡ some a) × (f a s ≡ panic)
  lift-or_err_bind-eq-panic none x f s h = cc
  lift-or_err_bind-eq-panic (some a) x f s h = (a, refl, h)
