-- ===== src/Common/Int.antt =====
-- The integers that label a COSE key: ciborium's `Integer`, whose range the source never leaves.
use Prim.Native.Nat.{ℕ}
use native.Mathlib.Decide.{ℕ_discrete}

-- `negsuc n` is -(n + 1).
pub data ℤ : Type 0 where
  pos : ℕ → ℤ
  negsuc : ℕ → ℤ

unfoldable pub ℤ-discrete : Discrete ℤ
unfolding ℕ_discrete
ℤ-discrete = hlevel ℕ_discrete
