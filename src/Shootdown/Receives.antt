-- ===== src/Shootdown/Receives.antt =====
-- What a receiver of orbit-core/src/tlb_shootdown.rs changes, and one step of either.
use orbit.Base.{
  ℕ, ◌-◌, ◌≡◌, refl, sym, subst, true, false, List, [], ◌∷◌, ltb, ◌==◌, ==_refl, ==_iff, arith,
  Bool-cases, ◌⊎◌, inl, inr,
}
use orbit.Shootdown.{
  ShootdownEntry, empty, req, Hand, idle, taken, fenced, System, at_key, at_pair, receive, advance,
  Event, sender, receiver, step,
}
use orbit.Shootdown.Balance.{load}
use orbit.Shootdown.Accounts.{Noted, Accounted, IsAccounted, offer-IsAccounted}

module _ (targets : ℕ → List ℕ) where
  module _ (s : System) (a : IsAccounted targets s) where
    -- A receiver's access that keeps the load of every request at every hart, and the notes.
    kept :
        (s' : System)
        → ((q : ℕ) → s'.remaining q ≡ s.remaining q)
        → ((q k : ℕ) → (load q s' k ≡ load q s k) ⊎ (s'.applied k q ≡ true))
        → ((q k : ℕ) → (s.applied k q ≡ false) ⊎ (s'.applied k q ≡ true))
        → ((q k : ℕ) → s'.refused k q ≡ s.refused k q)
        → (q k : ℕ) → Accounted targets s' q k
    kept s' same_rem loads app ref q k = by_case (a.each q k) (loads q k) (app q k)
      where
        by_case :
            Accounted targets s q k
            → (load q s' k ≡ load q s k) ⊎ (s'.applied k q ≡ true)
            → (s.applied k q ≡ false) ⊎ (s'.applied k q ≡ true)
            → Accounted targets s' q k
        by_case (inl m) l f = inl m
        by_case (inr (inl m)) l f = inr (inl (rw (same_rem q) m))
        by_case (inr (inr (inl w))) (inl l) f = inr (inr (inl (rw l w)))
        by_case (inr (inr (inl w))) (inr l) f = inr (inr (inr (inl l)))
        by_case (inr (inr (inr (inl w)))) l (inl f) = absurd (clash w f)
          where
            clash : s.applied k q ≡ true → s.applied k q ≡ false → ⊥
            clash x y = cc
        by_case (inr (inr (inr (inl w)))) l (inr f) = inr (inr (inr (inl f)))
        by_case (inr (inr (inr (inr w)))) l f = inr (inr (inr (inr (rw (ref q k) w))))

    unchanged : (q k : ℕ) → (s.applied k q ≡ false) ⊎ (s.applied k q ≡ true)
    unchanged q k = elim (Bool-cases (s.applied k q)) [ inl t ↦ inr t | inr f ↦ inl f ]

    receive-IsAccounted :
        (h : ℕ) (es : List ShootdownEntry)
        → s.ring h ≡ es
        → s.hand h ≡ idle
        → IsAccounted targets (receive h es s)
    unfolding receive
    receive-IsAccounted h [] e free = a
    receive-IsAccounted h (empty ∷ es) e free = record {
      each =
          kept (record s { ring = at_key s.ring h es }) (λ q. refl)
            (λ q k. inl (by_hart q k (Bool-cases (k == h)))) unchanged (λ q k. refl);
      noted = a.noted;
      counted = a.counted;
    }
      where
        by_hart :
            (q k : ℕ)
            → ((k == h) ≡ true) ⊎ ((k == h) ≡ false)
            → load q (record s { ring = at_key s.ring h es }) k ≡ load q s k
        by_hart q k (inl here) = let at : k ≡ h = (==_iff k h).0 here in rw (at, ==_refl h, e) refl
        by_hart q k (inr off) = rw off refl
    receive-IsAccounted h (req r ∷ es) e free = record {
      each =
          kept (record s { ring = at_key s.ring h es; hand = at_key s.hand h (taken r) })
            (λ q. refl) (λ q k. inl (by_hart q k (Bool-cases (k == h)))) unchanged (λ q k. refl);
      noted = λ k. notes k (Bool-cases (k == h));
      counted = a.counted;
    }
      where
        by_hart :
            (q k : ℕ)
            → ((k == h) ≡ true) ⊎ ((k == h) ≡ false)
            → load q (record s { ring = at_key s.ring h es; hand = at_key s.hand h (taken r) }) k
              ≡ load q s k
        by_hart q k (inl here) =
            let at : k ≡ h = (==_iff k h).0 here in rw (at, ==_refl h, e, free) (omega arith)
        by_hart q k (inr off) = rw off refl

        notes :
            (k : ℕ)
            → ((k == h) ≡ true) ⊎ ((k == h) ≡ false)
            → Noted
                (record s { ring = at_key s.ring h es; hand = at_key s.hand h (taken r) })
                k
                (at_key s.hand h (taken r) k)
        notes k (inl here) = rw here tt
        notes k (inr off) = rw off (a.noted k)

    applied_more : (h r q k : ℕ) → (s.applied k q ≡ false) ⊎ (at_pair s.applied h r k q ≡ true)
    applied_more h r q k = elim (Bool-cases (s.applied k q)) [
      | inl t ↦ inr (ground (arith, t))
      | inr f ↦ inl f
    ]

    advance-IsAccounted : (h : ℕ) (v : Hand) → s.hand h ≡ v → IsAccounted targets (advance h v s)
    unfolding advance
    advance-IsAccounted h idle e = receive-IsAccounted h (s.ring h) refl e
    advance-IsAccounted h (taken r) e = record {
      each =
          kept (record s { hand = at_key s.hand h (fenced r); applied = at_pair s.applied h r })
            (λ q. refl) (λ q k. inl (by_hart q k (Bool-cases (k == h)))) (applied_more h r)
            (λ q k. refl);
      noted = λ k. notes k (Bool-cases (k == h));
      counted = a.counted;
    }
      where
        by_hart :
            (q k : ℕ)
            → ((k == h) ≡ true) ⊎ ((k == h) ≡ false)
            → load q
                (record s { hand = at_key s.hand h (fenced r); applied = at_pair s.applied h r })
                k
              ≡ load q s k
        by_hart q k (inl here) = let at : k ≡ h = (==_iff k h).0 here in rw (at, ==_refl h, e) refl
        by_hart q k (inr off) = rw off refl

        by_hand :
            (k : ℕ) (w : Hand)
            → Noted s k w
            → Noted
                (record s { hand = at_key s.hand h (fenced r); applied = at_pair s.applied h r })
                k
                w
        by_hand k idle m = tt
        by_hand k (taken x) m = tt
        by_hand k (fenced x) m = ground (arith, m)

        notes :
            (k : ℕ)
            → ((k == h) ≡ true) ⊎ ((k == h) ≡ false)
            → Noted
                (record s { hand = at_key s.hand h (fenced r); applied = at_pair s.applied h r })
                k
                (at_key s.hand h (fenced r) k)
        notes k (inl here) = rw here (rw (here, ==_refl r) refl)
        notes k (inr off) = rw off (by_hand k (s.hand k) (a.noted k))
    advance-IsAccounted h (fenced r) e = record {
      each =
          kept (record s { hand = at_key s.hand h idle; ack = at_key s.ack r (s.ack r - 1) })
            (λ q. refl) (λ q k. by_hart q k (Bool-cases (k == h)) (Bool-cases (r == q))) unchanged
            (λ q k. refl);
      noted = λ k. notes k (Bool-cases (k == h));
      counted = a.counted;
    }
      where
        ran : s.applied h r ≡ true
        ran = subst (λ w. Noted s h w) e (a.noted h)

        by_hart :
            (q k : ℕ)
            → ((k == h) ≡ true) ⊎ ((k == h) ≡ false)
            → ((r == q) ≡ true) ⊎ ((r == q) ≡ false)
            → (load q
                  (record s { hand = at_key s.hand h idle; ack = at_key s.ack r (s.ack r - 1) })
                  k
                ≡ load q s k)
              ⊎ (s.applied k q ≡ true)
        by_hart q k (inr off) side = inl (rw off refl)
        by_hart q k (inl here) (inl mine) =
            let at : k ≡ h = (==_iff k h).0 here in
            let named : q ≡ r = sym ((==_iff r q).0 mine) in inr (rw (at, named) ran)
        by_hart q k (inl here) (inr other) =
            let at : k ≡ h = (==_iff k h).0 here in inl (rw (at, ==_refl h, e, other) refl)

        notes :
            (k : ℕ)
            → ((k == h) ≡ true) ⊎ ((k == h) ≡ false)
            → Noted
                (record s { hand = at_key s.hand h idle; ack = at_key s.ack r (s.ack r - 1) })
                k
                (at_key s.hand h idle k)
        notes k (inl here) = rw here tt
        notes k (inr off) = rw off (by_hand k (s.hand k) (a.noted k))
          where
            by_hand :
                (j : ℕ) (w : Hand)
                → Noted s j w
                → Noted
                    (record s { hand = at_key s.hand h idle; ack = at_key s.ack r (s.ack r - 1) })
                    j
                    w
            by_hand j idle m = tt
            by_hand j (taken x) m = tt
            by_hand j (fenced x) m = m

    pub step-IsAccounted : (n : ℕ) (e : Event) → IsAccounted targets (step n e s)
    unfolding step
    step-IsAccounted n (sender r) = offer-IsAccounted targets s a r (s.remaining r) refl
    step-IsAccounted n (receiver h) = elim (Bool-cases (ltb h n)) [
      | inl lt ↦ rw lt (advance-IsAccounted h (s.hand h) refl)
      | inr off ↦ rw off a
    ]
