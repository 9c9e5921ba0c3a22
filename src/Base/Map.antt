-- ===== src/Base/Map.antt =====
-- `BTreeMap` with numbers for keys: an association list whose keys rise, so that iteration is in the
-- order of the keys.
use orbit.Base.Tests.{ltb, ◌==◌, if◌then◌else◌, ltb→lt, Bool-cases, ==_iff}
use orbit.Base.Lists.{length}
use Prim.Native.Nat.{ℕ, suc, ◌+◌, ◌≤◌, ◌<◌}
use mathlib.Core.Path.{◌≡◌, refl}
use mathlib.Core.Logic.{inl, inr}
use mathlib.Core.Bool.{Bool, true, false}
use mathlib.Core.Option.{Option, none, some}
use mathlib.Core.List.{List, [], ◌∷◌}
use native.Mathlib.Omega.{arith}

module _ {ℓ} {V : Type ℓ} where
  unfoldable pub lookup : ℕ → List (ℕ × V) → Option V
  lookup k [] = none
  lookup k ((j, v) ∷ m) = if j == k then some v else lookup k m

  unfoldable pub insert : ℕ → V → List (ℕ × V) → List (ℕ × V)
  insert k v [] = (k, v) ∷ []
  insert k v ((j, w) ∷ m) =
      if j == k then (k, v) ∷ m else if ltb k j then (k, v) ∷ (j, w) ∷ m else (j, w) ∷ insert k v m

  unfoldable pub remove : ℕ → List (ℕ × V) → List (ℕ × V)
  remove k [] = []
  remove k ((j, v) ∷ m) = if j == k then m else (j, v) ∷ remove k m

  abbrev pub contains_key : ℕ → List (ℕ × V) → Bool
  contains_key k m = elim (lookup k m) [ none ↦ false | some _ ↦ true ]

  -- Every key is at least `n`, and the keys rise.
  abbrev pub Rising : ℕ → List (ℕ × V) → Type 0
  Rising n [] = Unit
  Rising n ((j, v) ∷ m) = (n ≤ j) × Rising (suc j) m

  abbrev pub IsSorted : List (ℕ × V) → Type 0
  IsSorted m = Rising 0 m

  pub lookup-insert :
      (place key : ℕ) (v : V) (m : List (ℕ × V))
      → lookup key (insert place v m) ≡ (if place == key then some v else lookup key m)
  unfolding lookup insert
  lookup-insert place key v [] = refl
  lookup-insert place key v ((i, w) ∷ rest) = ground (arith, lookup-insert place key v rest)

  pub lookup_below : (n k : ℕ) (m : List (ℕ × V)) → Rising n m → k < n → lookup k m ≡ none
  unfolding lookup
  lookup_below n k [] s h = refl
  lookup_below n k ((j, v) ∷ m) s h = ground (arith, lookup_below (suc j) k m (s.1))

  pub lookup-remove :
      (n k j : ℕ) (m : List (ℕ × V))
      → Rising n m
      → lookup j (remove k m) ≡ (if k == j then none else lookup j m)
  unfolding lookup remove
  lookup-remove n k j [] s = ground arith
  lookup-remove n k j ((i, w) ∷ m) s =
      ground (arith, lookup-remove (suc i) k j m (s.1), lookup_below (suc i) k m (s.1))

  pub lookup-remove_ne :
      (k j : ℕ) (m : List (ℕ × V)) → (k == j) ≡ false → lookup j (remove k m) ≡ lookup j m
  unfolding lookup remove
  lookup-remove_ne k j [] h = refl
  lookup-remove_ne k j ((i, w) ∷ m) h =
      ground (arith, ==_iff k j, ==_iff i j, ==_iff i k, lookup-remove_ne k j m h)

  pub Rising-weaken : (n n' : ℕ) (m : List (ℕ × V)) → n' ≤ n → Rising n m → Rising n' m
  Rising-weaken n n' [] h s = tt
  Rising-weaken n n' ((j, v) ∷ m) h s = (omega arith, s.1)

  pub insert-Rising :
      (n k : ℕ) (v : V) (m : List (ℕ × V)) → n ≤ k → Rising n m → Rising n (insert k v m)
  unfolding insert
  insert-Rising n k v [] h s = (h, tt)
  insert-Rising n k v ((j, w) ∷ m) h s = elim (Bool-cases (j == k)) [
    | inl e ↦ ground arith
    | inr e ↦ elim (Bool-cases (ltb k j)) [
      | inl lt ↦ rw (e, lt) (h, (ltb→lt _ _ lt, s.1))
      | inr ge ↦ rw (e, ge) (s.0, insert-Rising (suc j) k v m (ground arith) (s.1))
    ]
  ]

  pub remove-Rising : (n k : ℕ) (m : List (ℕ × V)) → Rising n m → Rising n (remove k m)
  unfolding remove
  remove-Rising n k [] s = tt
  remove-Rising n k ((j, v) ∷ m) s =
      ground (arith, remove-Rising (suc j) k m (s.1), Rising-weaken (suc j) n m)

  -- Sizes.
  pub length-insert :
      (k : ℕ) (v : V) (m : List (ℕ × V))
      → lookup k m ≡ none
      → length (insert k v m) ≡ suc (length m)
  unfolding lookup insert
  length-insert k v [] h = refl
  length-insert k v ((j, w) ∷ m) h = ground (arith, length-insert k v m)

  pub length-insert-le : (k : ℕ) (v : V) (m : List (ℕ × V)) → length (insert k v m) ≤ length m + 1
  unfolding insert
  length-insert-le k v [] = omega arith
  length-insert-le k v ((j, w) ∷ m) = ground (arith, length-insert-le k v m)

  pub length-remove :
      (k : ℕ) (v : V) (m : List (ℕ × V))
      → lookup k m ≡ some v
      → suc (length (remove k m)) ≡ length m
  unfolding lookup remove
  length-remove k v [] h = cc
  length-remove k v ((j, w) ∷ m) h = ground (arith, length-remove k v m)

  -- The sum of a weight over the values.
  abbrev pub total : (V → ℕ) → List (ℕ × V) → ℕ
  total w [] = 0
  total w ((j, v) ∷ m) = w v + total w m

  abbrev pub weight : (V → ℕ) → Option V → ℕ
  weight w none = 0
  weight w (some v) = w v

  pub total-insert :
      (w : V → ℕ) (n k : ℕ) (v : V) (m : List (ℕ × V))
      → Rising n m
      → total w (insert k v m) + weight w (lookup k m) ≡ total w m + w v
  unfolding lookup insert
  total-insert w n k v [] s = omega arith
  total-insert w n k v ((j, u) ∷ m) s = elim (Bool-cases (j == k)) [
    | inl e ↦ rw e (omega arith)
    | inr e ↦ elim (Bool-cases (ltb k j)) [
      | inl lt ↦
          let below : k < suc j = ground (arith, lt) in
          rw (e, lt, lookup_below (suc j) k m (s.1) below) (omega arith)
      | inr ge ↦ rw (e, ge) (omega (arith, total-insert w (suc j) k v m (s.1)))
    ]
  ]

  pub total-remove :
      (w : V → ℕ) (k : ℕ) (m : List (ℕ × V))
      → total w (remove k m) + weight w (lookup k m) ≡ total w m
  unfolding lookup remove
  total-remove w k [] = refl
  total-remove w k ((j, u) ∷ m) = elim (Bool-cases (j == k)) [
    | inl e ↦ rw e (omega arith)
    | inr e ↦ rw e (omega (arith, total-remove w k m))
  ]
