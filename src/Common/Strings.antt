-- ===== src/Common/Strings.antt =====
-- `String` and `&str` as lists of code points, for a program that splits and joins them.
use Prim.Native.Nat.{ℕ}
use Prim.Native.Char.{code}
use Prim.Native.String.{String}
use mathlib.Core.Path.{◌≡◌, refl, sym}
use mathlib.Core.Bool.{false}
use mathlib.Core.Logic.{◌⊎◌, inl, inr}
use mathlib.Core.List.{List, [], ◌∷◌, ◌++◌}
use native.Mathlib.Decide.{ℕ_discrete}
use infosec.Common.Tests.{◌==◌, ==_iff, ==_refl, Bool-cases, if◌then◌else◌}
use infosec.Common.Lists.{All}

abbrev pub Text : Type 0
Text = List ℕ

-- The code points of a literal.
abbrev pub codes : String → Text
codes String.[] = []
codes (String.◌∷◌ c s) = code c ∷ codes s

unfoldable pub Text-discrete : Discrete Text
unfolding ℕ_discrete
Text-discrete = hlevel ℕ_discrete

-- `format!("{a}.{b}")`
infixr 60 ◌∙∙◌
abbrev pub ◌∙∙◌ : Text → Text → Text
a ∙∙ b = a ++ (b'.' ∷ b)

-- `c` does not occur in the text.
abbrev pub Without : ℕ → Text → Type 0
Without c = All (λ x. (x == c) ≡ false)

-- The first piece grows by a character. `split` never returns the empty list.
abbrev cons_head : ℕ → List Text → List Text
cons_head x [] = (x ∷ []) ∷ []
cons_head x (p ∷ ps) = (x ∷ p) ∷ ps

-- `s.split(c)`
unfoldable pub split : ℕ → Text → List Text
split c [] = [] ∷ []
split c (x ∷ xs) = let rest = split c xs in if x == c then [] ∷ rest else cons_head x rest

-- The pieces with `c` between them.
abbrev pub join : ℕ → List Text → Text
join c [] = []
join c (p ∷ []) = p
join c (p ∷ q ∷ ps) = p ++ (c ∷ join c (q ∷ ps))

pub split_undivided : (c : ℕ) (p : Text) → Without c p → split c p ≡ p ∷ []
unfolding split
split_undivided c [] h = refl
split_undivided c (x ∷ p) h = rw (h.0, split_undivided c p h.1)

pub split-append : (c : ℕ) (p s : Text) → Without c p → split c (p ++ (c ∷ s)) ≡ p ∷ split c s
unfolding split
split-append c [] s h = rw ==_refl
split-append c (x ∷ p) s h = rw (h.0, split-append c p s h.1)

join-cons_head : (c x : ℕ) (ps : List Text) → join c (cons_head x ps) ≡ x ∷ join c ps
join-cons_head c x [] = refl
join-cons_head c x (p ∷ []) = refl
join-cons_head c x (p ∷ q ∷ ps) = refl

-- `split` returns at least one piece.
split-cons : (c : ℕ) (s : Text) → (p : Text) × (ps : List Text) × (split c s ≡ p ∷ ps)
unfolding split
split-cons c [] = ([], [], refl)
split-cons c (x ∷ s) = elim (Bool-cases (x == c)) [
  | inl e ↦ ([], split c s, rw e)
  | inr e ↦ let (p, ps, q) = split-cons c s in (x ∷ p, ps, rw (e, q))
]

join-nil : (c : ℕ) (s : Text) → join c ([] ∷ split c s) ≡ c ∷ join c (split c s)
join-nil c s = let (p, ps, q) = split-cons c s in rw q

-- The pieces joined again are the text.
pub join-split : (c : ℕ) (s : Text) → join c (split c s) ≡ s
unfolding split
join-split c [] = refl
join-split c (x ∷ s) = elim (Bool-cases (x == c)) [
  | inl e ↦ rw (e, join-nil, join-split c s, (==_iff x c).0 e)
  | inr e ↦ rw (e, join-cons_head, join-split c s)
]

Without-cons_head :
    (c x : ℕ) (ps : List Text)
    → (x == c) ≡ false
    → All (Without c) ps
    → All (Without c) (cons_head x ps)
Without-cons_head c x [] e h = ((e, tt), tt)
Without-cons_head c x (p ∷ ps) e h = ((e, h.0), h.1)

-- No piece holds the separator.
pub split-Without : (c : ℕ) (s : Text) → All (Without c) (split c s)
unfolding split
split-Without c [] = (tt, tt)
split-Without c (x ∷ s) = elim (Bool-cases (x == c)) [
  | inl e ↦ rw e (tt, split-Without c s)
  | inr e ↦ rw e (Without-cons_head c x (split c s) e (split-Without c s))
]

-- `p` is what stands before the first separator of the text, or the whole text if it has none.
abbrev pub IsFirstPiece : ℕ → Text → Text → Type 0
IsFirstPiece c p s = Without c p × ((s ≡ p) ⊎ ((rest : Text) × (s ≡ p ++ (c ∷ rest))))

IsFirstPiece-cons :
    (c : ℕ) (p : Text) (ps : List Text) (s : Text)
    → Without c p
    → join c (p ∷ ps) ≡ s
    → IsFirstPiece c p s
IsFirstPiece-cons c p [] s w e = (w, inl (sym e))
IsFirstPiece-cons c p (q ∷ ps) s w e = (w, inr (join c (q ∷ ps), sym e))

pub split-first :
    (c : ℕ) (s : Text) → (p : Text) × (ps : List Text) × (split c s ≡ p ∷ ps) × IsFirstPiece c p s
split-first c s =
    let (p, ps, q) = split-cons c s in
    let w : All (Without c) (p ∷ ps) = rw q at (split-Without c s) in
    (p, ps, q, IsFirstPiece-cons c p ps s w.0 (rw q at (join-split c s)))

pub split_of_first :
    (c : ℕ) (p s : Text) → IsFirstPiece c p s → (ps : List Text) × (split c s ≡ p ∷ ps)
split_of_first c p s (w, inl e) = ([], rw e (split_undivided c p w))
split_of_first c p s (w, inr (rest, e)) = (split c rest, rw e (split-append c p rest w))
