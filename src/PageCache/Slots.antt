-- ===== src/PageCache/Slots.antt =====
-- Slots of kmain/src/kernel/page_cache.rs that are taken out and put back.
use orbit.Base.{
  ℕ, ◌+◌, ◌≡◌, refl, sym, ap, subst, ◌∙◌, inl, inr, Bool, true, false, ◌==◌, if◌then◌else◌, List,
  none, some, arith, Bool-cases, ==_iff, ==_refl,
}
use orbit.Base.Map.{
  IsSorted, lookup, insert, remove, total, weight, lookup-insert, lookup-remove, remove-Rising,
  total-insert, total-remove,
}
use orbit.PageCache.{SlotState}

-- Put back where it was, or put in place of what was there.
pub replaced :
    (m : List (ℕ × SlotState)) (k j : ℕ) (s : SlotState)
    → IsSorted m
    → lookup j (insert k s (remove k m)) ≡ (if k == j then some s else lookup j m)
replaced m k j s sorted =
    lookup-insert k j s (remove k m)
    ∙ ap (λ o. if k == j then some s else o) (lookup-remove 0 k j m sorted)
    ∙ twice (k == j)
  where
    twice :
        (b : Bool)
        → (if b then some s else (if b then none else lookup j m))
          ≡ (if b then some s else lookup j m)
    twice true = refl
    twice false = refl

pub same_slot :
    (m : List (ℕ × SlotState)) (k j : ℕ) → lookup j m ≡ (if k == j then lookup k m else lookup j m)
same_slot m k j = elim (Bool-cases (k == j)) [
  | inl e ↦ rw e (ap (λ i. lookup i m) (sym ((==_iff k j).0 e)))
  | inr e ↦ rw e refl
]

pub total-replaced :
    (m : List (ℕ × SlotState)) (w : SlotState → ℕ) (k : ℕ) (s u : SlotState)
    → IsSorted m
    → lookup k m ≡ some u
    → total w (insert k s (remove k m)) + w u ≡ total w m + w s
total-replaced m w k s u sorted here =
    let gone : lookup k (remove k m) ≡ none = lookup-remove 0 k k m sorted ∙ rw (==_refl k) refl in
    let put =
      subst (λ o. total w (insert k s (remove k m)) + weight w o ≡ total w (remove k m) + w s) gone
        (total-insert w 0 k s (remove k m) (remove-Rising 0 k m sorted)) in
    let out =
      subst (λ o. total w (remove k m) + weight w o ≡ total w m) here (total-remove w k m) in
    omega (arith, put, out)
