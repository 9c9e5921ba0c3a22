-- ===== src/Base/Table.antt =====
-- A property checked at every number below a bound by evaluation.
use orbit.Base.Tests.{Bool-cases, ==_iff, ◌==◌}
use Prim.Native.Nat.{ℕ, zero, suc, ◌<◌}
use mathlib.Core.Path.{◌≡◌, ap, ◌∙◌}
use mathlib.Core.Logic.{inl, inr}
use mathlib.Core.Bool.{Bool, true, ◌&&◌}
use native.Mathlib.Omega.{arith}

abbrev pub all_below : ℕ → (ℕ → Bool) → Bool
all_below zero f = true
all_below (suc n) f = f n && all_below n f

pub below_holds : (n k : ℕ) (f : ℕ → Bool) → all_below n f ≡ true → k < n → f k ≡ true
below_holds zero k f h lt = absurd (omega arith)
below_holds (suc n) k f h lt = elim (Bool-cases (k == n)) [
  | inl e ↦ let same : k ≡ n = (==_iff k n).0 e in ap f same ∙ ground (arith, h)
  | inr e ↦ below_holds n k f (ground (arith, h)) (ground arith)
]
