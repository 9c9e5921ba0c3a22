-- ===== src/Shootdown/Accounts.antt =====
-- Where each target of a request of orbit-core/src/tlb_shootdown.rs stands, and what a sender changes.
use orbit.Base.{
  ℕ, ◌+◌, ◌-◌, ◌^◌, ◌≤◌, ◌<◌, ◌≡◌, refl, subst, true, false, List, [], ◌∷◌, ◌++◌, length, ltb, ◌==◌,
  ==_refl, ==_iff, arith, mem, min, Bool-cases, ◌⊎◌, inl, inr,
}
use orbit.Shootdown.{
  req, Hand, idle, taken, fenced, System, at_key, at_pair, push_target, offer, shootdown_ring_cap,
}
use orbit.Shootdown.Balance.{queued, queued-snoc, held, load}

abbrev pub Noted : System → ℕ → Hand → Type 0
Noted s h idle = Unit {0}
Noted s h (taken r) = Unit {0}
Noted s h (fenced r) = s.applied h r ≡ true

module _ (targets : ℕ → List ℕ) where
  abbrev pub Accounted : System → ℕ → ℕ → Type 0
  Accounted s r h =
      (mem h (targets r) ≡ false)
      ⊎ (mem h (s.remaining r) ≡ true)
      ⊎ (0 < load r s h)
      ⊎ (s.applied h r ≡ true)
      ⊎ (s.refused h r ≡ true)

  pub record IsAccounted (s : System) : Type 0 where
    pub each : (r h : ℕ) → Accounted s r h
    pub noted : (h : ℕ) → Noted s h (s.hand h)
    pub counted : (r h : ℕ) → (s.refused h r ≡ false) ⊎ (0 < s.failed r)

  module _ (s : System) (a : IsAccounted s) where
    pub offer-IsAccounted : (r : ℕ) (hs : List ℕ) → s.remaining r ≡ hs → IsAccounted (offer r hs s)
    unfolding offer push_target
    offer-IsAccounted r [] e = a
    offer-IsAccounted r (h ∷ hs) e =
        elim (Bool-cases (ltb (length (s.ring h)) shootdown_ring_cap)) [
          | inl room ↦ rw room (record {
            each = λ q k. pushed q k (Bool-cases (q == r)) (Bool-cases (k == h)) (a.each q k);
            noted = a.noted;
            counted = a.counted;
          })
          | inr full ↦ rw full (record {
            each = λ q k. given_up q k (Bool-cases (q == r)) (Bool-cases (k == h)) (a.each q k);
            noted = a.noted;
            counted = λ q k. one_more q k (Bool-cases (q == r)) (a.counted q k);
          })
        ]
      where
        -- Who was next is this hart, or is still to be reached.
        next_or_later :
            (q k : ℕ)
            → ((q == r) ≡ true) ⊎ ((q == r) ≡ false)
            → mem k (s.remaining q) ≡ true
            → (((q == r) ≡ true) × ((k == h) ≡ true)) ⊎ (mem k (at_key s.remaining r hs q) ≡ true)
        next_or_later q k (inl same) m =
            let eq : q ≡ r = (==_iff q r).0 same in
            let m' : mem k (h ∷ hs) ≡ true = subst (λ l. mem k l ≡ true) e (rw eq at m) in
            rw same (ground (arith, m'))
        next_or_later q k (inr other) m = rw other (inr m)

        pushed :
            (q k : ℕ)
            → ((q == r) ≡ true) ⊎ ((q == r) ≡ false)
            → ((k == h) ≡ true) ⊎ ((k == h) ≡ false)
            → Accounted s q k
            → Accounted
                (record s {
                  remaining = at_key s.remaining r hs;
                  ring = at_key s.ring h (s.ring h ++ (req r ∷ []));
                })
                q
                k
        pushed q k sq sk (inl m) = inl m
        pushed q k sq sk (inr (inl m)) = by_place (next_or_later q k sq m)
          where
            by_place :
                (((q == r) ≡ true) × ((k == h) ≡ true)) ⊎ (mem k (at_key s.remaining r hs q) ≡ true)
                → Accounted
                    (record s {
                      remaining = at_key s.remaining r hs;
                      ring = at_key s.ring h (s.ring h ++ (req r ∷ []));
                    })
                    q
                    k
            by_place (inr later) = inr (inl later)
            by_place (inl (one, two)) =
                let eq : q ≡ r = (==_iff q r).0 one in
                inr (inr (inl (rw (two, eq, queued-snoc r r (s.ring h), ==_refl r) (omega arith))))
        pushed q k sq (inl here) (inr (inr (inl w))) =
            let at : k ≡ h = (==_iff k h).0 here in
            let w' : 1 ≤ queued q (s.ring h) + held q (s.hand h) =
              subst (λ j. 0 < load q s j) at w in
            inr (inr (inl (rw (here, queued-snoc q r (s.ring h), at) (omega (arith, w')))))
        pushed q k sq (inr off) (inr (inr (inl w))) = inr (inr (inl (rw off w)))
        pushed q k sq sk (inr (inr (inr w))) = inr (inr (inr w))

        given_up :
            (q k : ℕ)
            → ((q == r) ≡ true) ⊎ ((q == r) ≡ false)
            → ((k == h) ≡ true) ⊎ ((k == h) ≡ false)
            → Accounted s q k
            → Accounted
                (record s {
                  remaining = at_key s.remaining r hs;
                  ack = at_key s.ack r (s.ack r - 1);
                  failed = at_key s.failed r (min (s.failed r + 1) (2 ^ 32 - 1));
                  refused = at_pair s.refused h r;
                })
                q
                k
        given_up q k sq sk (inl m) = inl m
        given_up q k sq sk (inr (inl m)) = by_place (next_or_later q k sq m)
          where
            by_place :
                (((q == r) ≡ true) × ((k == h) ≡ true)) ⊎ (mem k (at_key s.remaining r hs q) ≡ true)
                → Accounted
                    (record s {
                      remaining = at_key s.remaining r hs;
                      ack = at_key s.ack r (s.ack r - 1);
                      failed = at_key s.failed r (min (s.failed r + 1) (2 ^ 32 - 1));
                      refused = at_pair s.refused h r;
                    })
                    q
                    k
            by_place (inr later) = inr (inl later)
            by_place (inl (one, two)) = inr (inr (inr (inr (rw (two, one) refl))))
        given_up q k sq sk (inr (inr (inl w))) = inr (inr (inl w))
        given_up q k sq sk (inr (inr (inr (inl w)))) = inr (inr (inr (inl w)))
        given_up q k sq sk (inr (inr (inr (inr w)))) = inr (inr (inr (inr (ground (arith, w)))))

        one_more :
            (q k : ℕ)
            → ((q == r) ≡ true) ⊎ ((q == r) ≡ false)
            → (s.refused k q ≡ false) ⊎ (0 < s.failed q)
            → (at_pair s.refused h r k q ≡ false)
              ⊎ (0 < at_key s.failed r (min (s.failed r + 1) (2 ^ 32 - 1)) q)
        one_more q k (inl same) c = inr (rw same (omega arith))
        one_more q k (inr other) (inl c) = inl (ground (arith, other, c))
        one_more q k (inr other) (inr c) = inr (rw other c)
