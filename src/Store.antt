-- ===== src/Store.antt =====
-- The threads behind the pointers that the scheduler holds, and what its queue promises of them
-- (orbit-core/src/ready_queue.rs: every queued pointer is a thread that may be dispatched, and no
-- thread is queued twice).
use orbit.Base.{
  mem, Distinct, ℕ, ◌≡◌, refl, inl, inr, Bool, true, false, ◌==◌, ◌||◌, if◌then◌else◌, List, [],
  ◌∷◌, ◌++◌, arith, All, All-append, ==_iff, Bool-cases,
}
use orbit.Thread.{Thread, as_usize, ready, exited}

abbrev pub Store : Type 0
Store = ℕ → Thread

abbrev pub update : Store → ℕ → Thread → Store
update st p t q = if p == q then t else st q

-- A queued thread is Ready, or was killed in the queue.
abbrev pub dispatchable : ℕ → Bool
dispatchable state = state == as_usize ready || state == as_usize exited

pub record QueueOk (st : Store) (queue : List ℕ) : Type 0 where
  pub each : All (λ p. dispatchable (st p).state ≡ true) queue
  pub distinct : Distinct queue

-- A thread that is neither Ready nor Exited is not in the queue.
pub mem_of_parked :
    (st : Store) (queue : List ℕ) (p : ℕ)
    → All (λ q. dispatchable (st q).state ≡ true) queue
    → dispatchable (st p).state ≡ false
    → mem p queue ≡ false
mem_of_parked st [] p each h = refl
mem_of_parked st (q ∷ qs) p each h = elim (Bool-cases (q == p)) [
  | inl e ↦ let same : q ≡ p = (==_iff q p).0 e in absurd (ground arith)
  | inr e ↦ rw (e, mem_of_parked st qs p (each.1) h) refl
]

mem-append : (p q : ℕ) (ps : List ℕ) → mem p (ps ++ (q ∷ [])) ≡ (mem p ps || q == p)
mem-append p q [] = ground arith
mem-append p q (r ∷ rs) = ground (arith, mem-append p q rs)

pub Distinct-snoc :
    (ps : List ℕ) (q : ℕ) → Distinct ps → mem q ps ≡ false → Distinct (ps ++ (q ∷ []))
Distinct-snoc [] q d h = (refl, tt)
Distinct-snoc (p ∷ ps) q d h =
    (ground (arith, mem-append p q ps), Distinct-snoc ps q (d.1) (ground arith))

-- Changing one thread to a dispatchable one, or one that is not queued, keeps the rest.
pub All-update :
    (st : Store) (p : ℕ) (t : Thread) (queue : List ℕ)
    → All (λ q. dispatchable (st q).state ≡ true) queue
    → dispatchable t.state ≡ true
    → All (λ q. dispatchable (update st p t q).state ≡ true) queue
All-update st p t [] each h = tt
All-update st p t (q ∷ qs) each h = (ground arith, All-update st p t qs (each.1) h)

-- Promoting a thread that is not dispatchable and queueing it keeps the promises.
pub promote-QueueOk :
    (st : Store) (queue : List ℕ) (p : ℕ) (t : Thread)
    → QueueOk st queue
    → dispatchable (st p).state ≡ false
    → t.state ≡ as_usize ready
    → QueueOk (update st p t) (queue ++ (p ∷ []))
promote-QueueOk st queue p t ok h r = record {
  each =
      All-append (λ q. dispatchable (update st p t q).state ≡ true) queue (p ∷ [])
        (All-update st p t queue ok.each (ground arith)) (ground arith, tt);
  distinct = Distinct-snoc queue p ok.distinct (mem_of_parked st queue p ok.each h);
}

-- Changing a thread's other fields keeps them too.
pub same_state-QueueOk :
    (st : Store) (queue : List ℕ) (p : ℕ) (t : Thread)
    → QueueOk st queue
    → t.state ≡ (st p).state
    → QueueOk (update st p t) queue
same_state-QueueOk st queue p t ok h = record { each = keeps queue ok.each; distinct = ok.distinct }
  where
    keeps :
        (qs : List ℕ)
        → All (λ q. dispatchable (st q).state ≡ true) qs
        → All (λ q. dispatchable (update st p t q).state ≡ true) qs
    keeps [] each = tt
    keeps (q ∷ qs) each = (
      elim (Bool-cases (p == q)) [
        | inl e ↦ let same : p ≡ q = (==_iff p q).0 e in ground arith
        | inr e ↦ rw e (each.0)
      ],
      keeps qs (each.1),
    )
