-- ===== src/Manager/Sleeps/Pause.antt =====
-- The time to the next deadline, manager/src/lib.rs.
use orbit.Base.{
  ℕ, ◌+◌, ◌-◌, min, ◌≤◌, ◌<◌, ◌≡◌, refl, sym, subst, ◌⊎◌, inl, inr, true, false, ltb, ltb→lt, [],
  ◌∷◌, arith, All, Bool-cases,
}
use orbit.SleepHeap.{SleepHeap, next_wake}
use orbit.SleepHeap.Order.{IsOrdered}
use orbit.Manager.{next_sleep_in_cycles}

-- The sleep until the next pass is at most the limit, and no entry of an ordered heap falls due within
-- it: if it is not zero, every deadline is at or after its end.
next_sleep_in_cycles-le :
    (heap : SleepHeap) (now limit : ℕ)
    → IsOrdered heap
    → let r = next_sleep_in_cycles heap now limit in
      (r ≤ limit) × All (λ e. (r ≡ 0) ⊎ (now + r ≤ e.wake_time)) heap
unfolding next_sleep_in_cycles next_wake
next_sleep_in_cycles-le [] now limit o = (omega arith, tt)
next_sleep_in_cycles-le (e ∷ es) now limit o = elim (Bool-cases (ltb now e.wake_time)) [
  | inl later ↦
      subst (λ r. (r ≤ limit) × All (λ x. (r ≡ 0) ⊎ (now + r ≤ x.wake_time)) (e ∷ es))
        (sym (value later))
        (
          omega arith,
          (
            inr (omega (arith, ltb→lt now e.wake_time later)),
            each es (ltb→lt now e.wake_time later) (o.0),
          ),
        )
  | inr due ↦
      subst (λ r. (r ≤ limit) × All (λ x. (r ≡ 0) ⊎ (now + r ≤ x.wake_time)) (e ∷ es))
        (sym (past due)) (omega arith, (inl refl, zeros es))
]
  where
    value :
        ltb now e.wake_time ≡ true
        → next_sleep_in_cycles (e ∷ es) now limit ≡ min (e.wake_time - now) limit
    value h = rw (next_sleep_in_cycles, h) refl

    past : ltb now e.wake_time ≡ false → next_sleep_in_cycles (e ∷ es) now limit ≡ 0
    past h = rw (next_sleep_in_cycles, h) refl

    each :
        (xs : SleepHeap)
        → now < e.wake_time
        → All (λ x. e.wake_time ≤ x.wake_time) xs
        → All
            (λ x.
              (min (e.wake_time - now) limit ≡ 0)
              ⊎ (now + min (e.wake_time - now) limit ≤ x.wake_time))
            xs
    each [] lt a = tt
    each (x ∷ xs) lt a = (inr (omega (arith, a.0)), each xs lt (a.1))

    zeros : (xs : SleepHeap) → All (λ x. (◌≡◌ {A = ℕ} 0 0) ⊎ (now + 0 ≤ x.wake_time)) xs
    zeros [] = tt
    zeros (x ∷ xs) = (inl refl, zeros xs)
