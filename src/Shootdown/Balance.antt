-- ===== src/Shootdown/Balance.antt =====
-- The counter of a request of orbit-core/src/tlb_shootdown.rs is the number of targets that have not
-- settled it: those not reached, and those with an entry in their ring or in hand.
use orbit.Base.{
  ℕ, zero, suc, ◌+◌, ◌-◌, ◌≤◌, ◌<◌, ◌≡◌, refl, ap, true, false, List, [], ◌∷◌, ◌++◌, length, ltb,
  ◌==◌, ==_refl, ==_iff, ==_ne, if◌then◌else◌, arith, All, subst, min, ◌^◌, Bool-cases, ltb→lt, ◌⊎◌,
  inl, inr,
}
use orbit.Shootdown.{
  ShootdownEntry, empty, req, Hand, idle, taken, fenced, System, at_key, push_target, offer,
  receive, advance, Event, sender, receiver, step, shootdown_ring_cap, at_pair,
}

abbrev pub sum_to : ℕ → (ℕ → ℕ) → ℕ
sum_to zero f = 0
sum_to (suc n) f = sum_to n f + f n

pub sum_to-same : (n : ℕ) (f g : ℕ → ℕ) → ((k : ℕ) → k < n → g k ≡ f k) → sum_to n g ≡ sum_to n f
sum_to-same zero f g h = refl
sum_to-same (suc n) f g h =
    omega (arith, sum_to-same n f g (λ k lt. h k (omega arith)), h n (omega arith))

-- A sum after one term has changed.
pub sum_to-change :
    (n : ℕ) (f g : ℕ → ℕ) (i : ℕ)
    → i < n
    → ((k : ℕ) → (k == i) ≡ false → g k ≡ f k)
    → sum_to n g + f i ≡ sum_to n f + g i
sum_to-change zero f g i lt h = absurd (omega arith)
sum_to-change (suc n) f g i lt h = elim (Bool-cases (n == i)) [
  | inl last ↦
      let e : n ≡ i = (==_iff n i).0 last in
      let below =
        sum_to-same n f g (λ k kn. h k (==_ne k i (λ q. absurd (omega (arith, kn, q, e))))) in
      rw (← e) (omega (arith, below))
  | inr other ↦
      let same = h n other in omega (arith, sum_to-change n f g i (ground (arith, other)) h, same)
]

pub sum_to-zero : (n : ℕ) (f : ℕ → ℕ) (i : ℕ) → sum_to n f ≡ 0 → i < n → f i ≡ 0
sum_to-zero zero f i z lt = absurd (omega arith)
sum_to-zero (suc n) f i z lt = elim (Bool-cases (i == n)) [
  | inl last ↦ let e : i ≡ n = (==_iff i n).0 last in rw e (omega arith)
  | inr other ↦ sum_to-zero n f i (omega arith) (ground (arith, other))
]

pub sum_to-le : (n : ℕ) (f : ℕ → ℕ) (i : ℕ) → i < n → f i ≤ sum_to n f
sum_to-le zero f i lt = absurd (omega arith)
sum_to-le (suc n) f i lt = elim (Bool-cases (i == n)) [
  | inl last ↦ let e : i ≡ n = (==_iff i n).0 last in rw e (omega arith)
  | inr other ↦ omega (arith, sum_to-le n f i (ground (arith, other)))
]

-- The entries of a request in a ring, and in a hand.
abbrev pub queued : ℕ → List ShootdownEntry → ℕ
queued r [] = 0
queued r (empty ∷ es) = queued r es
queued r (req q ∷ es) = (if q == r then 1 else 0) + queued r es

pub queued-snoc :
    (r q : ℕ) (es : List ShootdownEntry)
    → queued r (es ++ (req q ∷ [])) ≡ queued r es + (if q == r then 1 else 0)
queued-snoc r q [] = omega arith
queued-snoc r q (empty ∷ es) = queued-snoc r q es
queued-snoc r q (req p ∷ es) = omega (arith, queued-snoc r q es)

abbrev pub held : ℕ → Hand → ℕ
held r idle = 0
held r (taken q) = if q == r then 1 else 0
held r (fenced q) = if q == r then 1 else 0

abbrev pub load : ℕ → System → ℕ → ℕ
load r s h = queued r (s.ring h) + held r (s.hand h)

-- The balance, with all the targets among the `n` harts.
pub record IsBalanced (n : ℕ) (s : System) : Type 0 where
  pub balance : (r : ℕ) → s.ack r ≡ length (s.remaining r) + sum_to n (load r s)
  pub within : (r : ℕ) → All (λ h. h < n) (s.remaining r)

-- A change at one hart keeps the balance if it does so there.
module _ (n : ℕ) (s s' : System) (h : ℕ) (lt : h < n) (b : IsBalanced n s) where
  at_hart :
      ((q k : ℕ) → (k == h) ≡ false → load q s' k ≡ load q s k)
      → ((q : ℕ)
          → s'.ack q + load q s h + length (s.remaining q)
            ≡ s.ack q + load q s' h + length (s'.remaining q))
      → ((q : ℕ) → All (λ k. k < n) (s'.remaining q))
      → IsBalanced n s'
  at_hart others here inside = record {
    balance = λ q.
        let c = sum_to-change n (load q s) (load q s') h lt (others q) in
        let old = b.balance q in let now = here q in omega arith;
    within = inside;
  }

-- Each access keeps the balance.
module _ (n : ℕ) (s : System) (b : IsBalanced n s) where
  pub offer-IsBalanced : (r : ℕ) (hs : List ℕ) → s.remaining r ≡ hs → IsBalanced n (offer r hs s)
  unfolding offer push_target
  offer-IsBalanced r [] e = b
  offer-IsBalanced r (h ∷ hs) e = elim (Bool-cases (ltb (length (s.ring h)) shootdown_ring_cap)) [
    | inl room ↦ rw room (
        at_hart n s
          (record s {
            remaining = at_key s.remaining r hs;
            ring = at_key s.ring h (s.ring h ++ (req r ∷ []));
          })
          h (all.0) b (λ q k off. rw off refl) (λ q. joined q (Bool-cases (q == r)))
          (λ q. smaller q))
    | inr full ↦ rw full (
        at_hart n s
          (record s {
            remaining = at_key s.remaining r hs;
            ack = at_key s.ack r (s.ack r - 1);
            failed = at_key s.failed r (min (s.failed r + 1) (2 ^ 32 - 1));
            refused = at_pair s.refused h r;
          })
          h (all.0) b (λ q k off. refl) (λ q. given_up q (Bool-cases (q == r))) (λ q. smaller q))
  ]
    where
      all : All (λ k. k < n) (h ∷ hs)
      all = subst (λ l. All (λ k. k < n) l) e (b.within r)

      smaller : (q : ℕ) → All (λ k. k < n) (at_key s.remaining r hs q)
      smaller q = elim (Bool-cases (q == r)) [
        | inl same ↦ rw same (all.1)
        | inr other ↦ rw other (b.within q)
      ]

      flipped : (q : ℕ) → (q == r) ≡ false → (r == q) ≡ false
      flipped q other = ground (arith, other)

      longer : length (s.remaining r) ≡ suc (length hs)
      longer = ap length e

      joined :
          (q : ℕ)
          → ((q == r) ≡ true) ⊎ ((q == r) ≡ false)
          → s.ack q + load q s h + length (s.remaining q)
            ≡ s.ack q
              + (queued q (at_key s.ring h (s.ring h ++ (req r ∷ [])) h) + held q (s.hand h))
              + length (at_key s.remaining r hs q)
      joined q (inl same) =
          let eq : q ≡ r = (==_iff q r).0 same in
          rw (eq, ==_refl h, queued-snoc r r (s.ring h), ==_refl r) (omega (arith, longer))
      joined q (inr other) =
          rw (other, ==_refl h, queued-snoc q r (s.ring h), flipped q other) (omega arith)

      given_up :
          (q : ℕ)
          → ((q == r) ≡ true) ⊎ ((q == r) ≡ false)
          → at_key s.ack r (s.ack r - 1) q + load q s h + length (s.remaining q)
            ≡ s.ack q + load q s h + length (at_key s.remaining r hs q)
      given_up q (inl same) =
          let eq : q ≡ r = (==_iff q r).0 same in
          let old = b.balance r in rw (eq, ==_refl r) (omega (arith, longer, old))
      given_up q (inr other) = rw other refl

  module _ (h : ℕ) (lt : h < n) where
    receive-IsBalanced :
        (es : List ShootdownEntry) → s.ring h ≡ es → s.hand h ≡ idle → IsBalanced n (receive h es s)
    unfolding receive
    receive-IsBalanced [] e free = b
    receive-IsBalanced (empty ∷ es) e free =
        at_hart n s (record s { ring = at_key s.ring h es }) h lt b (λ q j off. rw off refl)
          (λ q. rw (==_refl h, e) refl) b.within
    receive-IsBalanced (req r ∷ es) e free =
        at_hart n s (record s { ring = at_key s.ring h es; hand = at_key s.hand h (taken r) }) h lt
          b (λ q j off. rw off refl) (λ q. rw (==_refl h, e, free) (omega arith)) b.within

    pub advance-IsBalanced : (v : Hand) → s.hand h ≡ v → IsBalanced n (advance h v s)
    unfolding advance
    advance-IsBalanced idle e = receive-IsBalanced (s.ring h) refl e
    advance-IsBalanced (taken r) e =
        at_hart n s
          (record s { hand = at_key s.hand h (fenced r); applied = at_pair s.applied h r }) h lt b
          (λ q j off. rw off refl) (λ q. rw (==_refl h, e) refl) b.within
    advance-IsBalanced (fenced r) e =
        at_hart n s (record s { hand = at_key s.hand h idle; ack = at_key s.ack r (s.ack r - 1) }) h
          lt b (λ q j off. rw off refl) (λ q. rw (==_refl h, e) (settled q (Bool-cases (q == r))))
          b.within
      where
        owed : 1 ≤ s.ack r
        owed =
            let total = b.balance r in
            let here = sum_to-le n (load r s) h lt in
            let one : held r (s.hand h) ≡ 1 = rw (e, ==_refl r) refl in omega arith

        settled :
            (q : ℕ)
            → ((q == r) ≡ true) ⊎ ((q == r) ≡ false)
            → at_key s.ack r (s.ack r - 1) q
                + (queued q (s.ring h) + (if r == q then 1 else 0))
                + length (s.remaining q)
              ≡ s.ack q + (queued q (s.ring h) + 0) + length (s.remaining q)
        settled q (inl same) =
            let eq : q ≡ r = (==_iff q r).0 same in rw (eq, ==_refl r) (omega (arith, owed))
        settled q (inr other) =
            let flip : (r == q) ≡ false = ground (arith, other) in rw (other, flip) refl

  pub step-IsBalanced : (e : Event) → IsBalanced n (step n e s)
  unfolding step
  step-IsBalanced (sender r) = offer-IsBalanced r (s.remaining r) refl
  step-IsBalanced (receiver h) = elim (Bool-cases (ltb h n)) [
    | inl lt ↦ rw lt (advance-IsBalanced h (ltb→lt h n lt) (s.hand h) refl)
    | inr off ↦ rw off b
  ]
