-- ===== src/Base/Panic.antt =====
-- Code that may panic: the value that it returns, or `panic`.
use mathlib.Core.Path.{◌≡◌, refl}
use mathlib.Core.Logic.{◌⊎◌, inl, inr}

pub data Run {ℓ} (A : Type ℓ) : Type ℓ where
  done : A → Run A
  panic : Run A

infixl 5 ◌>>=◌
abbrev pub ◌>>=◌ {ℓ κ} : {A : Type ℓ} {B : Type κ} → Run A → (A → Run B) → Run B
done a >>= f = f a
panic >>= f = panic

pub Run-cases {ℓ} : {A : Type ℓ} (r : Run A) → ((a : A) × (r ≡ done a)) ⊎ (r ≡ panic)
Run-cases (done a) = inl (a, refl)
Run-cases panic = inr refl
