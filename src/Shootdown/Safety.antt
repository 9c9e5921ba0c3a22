-- ===== src/Shootdown/Safety.antt =====
-- When `tlb_shootdown` of orbit-core/src/tlb_shootdown.rs returns, each target has run the fence or
-- had a full ring.
use orbit.Base.{
  ℕ, zero, suc, ◌<◌, ◌≡◌, refl, subst, Bool, true, false, List, [], ◌∷◌, length, ◌==◌, ==_iff,
  arith, All, mem, Bool-cases, ◌⊎◌, inl, inr,
}
use orbit.Shootdown.{System, Event, step, run, begin, returned}
use orbit.Shootdown.Balance.{sum_to, sum_to-zero, load, IsBalanced, step-IsBalanced}
use orbit.Shootdown.Accounts.{Accounted, IsAccounted}
use orbit.Shootdown.Receives.{step-IsAccounted}

module _ (targets : ℕ → List ℕ) where
  -- A run of senders and receivers keeps both.
  run_keeps :
      (n : ℕ) (es : List Event) (s : System)
      → IsBalanced n s
      → IsAccounted targets s
      → IsBalanced n (run n es s) × IsAccounted targets (run n es s)
  unfolding run
  run_keeps n [] s b a = (b, a)
  run_keeps n (e ∷ es) s b a =
      run_keeps n es (step n e s) (step-IsBalanced n s b e) (step-IsAccounted targets s a n e)

  begin-IsBalanced :
      (n : ℕ) → ((r : ℕ) → All (λ h. h < n) (targets r)) → IsBalanced n (begin targets)
  unfolding begin
  begin-IsBalanced n within = record {
    balance = λ r. let z = no_load r n in omega arith;
    within = within;
  }
    where
      no_load : (r m : ℕ) → sum_to m (load r (begin targets)) ≡ 0
      no_load r zero = refl
      no_load r (suc m) = omega (arith, no_load r m)

  begin-IsAccounted : IsAccounted targets (begin targets)
  unfolding begin
  begin-IsAccounted = record {
    each = λ r h. elim (Bool-cases (mem h (targets r))) [ inl m ↦ inr (inl m) | inr m ↦ inl m ];
    noted = λ h. tt;
    counted = λ r h. inl refl;
  }

  no_member : (h : ℕ) (xs : List ℕ) → length xs ≡ 0 → mem h xs ≡ true → ⊥
  no_member h [] z m = cc
  no_member h (x ∷ xs) z m = absurd (omega arith)

  lt_of_mem : (n h : ℕ) (xs : List ℕ) → All (λ k. k < n) xs → mem h xs ≡ true → h < n
  lt_of_mem n h [] all m = absurd (no_member h [] refl m)
  lt_of_mem n h (x ∷ xs) all m = elim (Bool-cases (x == h)) [
    | inl same ↦ subst (λ k. k < n) ((==_iff x h).0 same) (all.0)
    | inr other ↦ lt_of_mem n h xs all.1 (rw other at m)
  ]

  settled :
      (n : ℕ) (s : System) (r h : ℕ)
      → IsBalanced n s
      → IsAccounted targets s
      → h < n
      → mem h (targets r) ≡ true
      → returned r s ≡ true
      → (s.applied h r ≡ true) ⊎ ((s.refused h r ≡ true) × (0 < s.failed r))
  unfolding returned
  settled n s r h b a lt target done = by_case (a.each r h)
    where
      reached : length (s.remaining r) ≡ 0
      reached = ground (arith, done)

      zero_load : load r s h ≡ 0
      zero_load =
          let spent : s.ack r ≡ 0 = ground (arith, done) in
          let total = b.balance r in sum_to-zero n (load r s) h (omega (arith, reached)) lt

      clash : {t : Bool} → t ≡ true → t ≡ false → ⊥
      clash x y = cc

      by_case :
          Accounted targets s r h
          → (s.applied h r ≡ true) ⊎ ((s.refused h r ≡ true) × (0 < s.failed r))
      by_case (inl m) = absurd (clash target m)
      by_case (inr (inl m)) = absurd (no_member h (s.remaining r) reached m)
      by_case (inr (inr (inl w))) = absurd (omega (arith, zero_load))
      by_case (inr (inr (inr (inl w)))) = inl w
      by_case (inr (inr (inr (inr w)))) = by_count (a.counted r h)
        where
          by_count :
              (s.refused h r ≡ false) ⊎ (0 < s.failed r)
              → (s.applied h r ≡ true) ⊎ ((s.refused h r ≡ true) × (0 < s.failed r))
          by_count (inl c) = absurd (clash w c)
          by_count (inr c) = inr (w, c)

  -- For requests whose targets are among the `n` harts: however the senders push and the receivers
  -- drain in turn, once a call of `tlb_shootdown` returns, each of its targets has run the fence for
  -- the request after it was pushed, or had a full ring, and then the call's count of failures is
  -- not zero.
  pub run-returned :
      (n : ℕ)
      → ((r : ℕ) → All (λ h. h < n) (targets r))
      → (es : List Event) (r h : ℕ) → mem h (targets r) ≡ true
      → returned r (run n es (begin targets)) ≡ true
      → ((run n es (begin targets)).applied h r ≡ true)
        ⊎ (((run n es (begin targets)).refused h r ≡ true)
            × (0 < (run n es (begin targets)).failed r))
  run-returned n within es r h target done =
      let k = run_keeps n es (begin targets) (begin-IsBalanced n within) begin-IsAccounted in
      settled n (run n es (begin targets)) r h k.0 k.1 (lt_of_mem n h (targets r) (within r) target)
        target done
