-- ===== src/ReadyQueue.antt =====
-- orbit-core/src/ready_queue.rs: the runnable threads, oldest first. A `Runnable` is the pointer that
-- it holds, and the affinity is read from the thread behind it.
mod Tests
use orbit.Base.{
  mem, Distinct, ℕ, zero, suc, ◌≡◌, refl, ap, ◌⊎◌, inl, inr, Bool, true, false, not, ◌==◌, ◌||◌,
  if◌then◌else◌, List, [], ◌∷◌, ◌++◌, Option, none, some, arith, All, All-retain, retain, bit_and,
  Bool-cases, Option-cases, length,
}
use orbit.Thread.{Thread}
use orbit.Store.{Store, QueueOk, dispatchable}

abbrev pub ReadyQueue : Type 0
ReadyQueue = List ℕ

unfoldable pub push : ReadyQueue → ℕ → ReadyQueue
push queue runnable = queue ++ (runnable ∷ [])

-- `r.affinity() & hart_mask != 0`.
abbrev pub permits : Store → ℕ → ℕ → Bool
permits st mask p = not (bit_and (st p).affinity mask == 0)

-- `iter().position(..)` and `VecDeque::remove`.
position : (ℕ → Bool) → List ℕ → Option ℕ
position test [] = none
position test (p ∷ ps) =
    if test p then some 0 else elim (position test ps) [ none ↦ none | some i ↦ some (suc i) ]

remove_at : ℕ → List ℕ → Option (ℕ × List ℕ)
remove_at i [] = none
remove_at zero (p ∷ ps) = some (p, ps)
remove_at (suc i) (p ∷ ps) = elim (remove_at i ps) [ none ↦ none | some (q, qs) ↦ some (q, p ∷ qs) ]

unfoldable pub pop_for : Store → ReadyQueue → ℕ → Option (ℕ × ReadyQueue)
unfolding position remove_at
pop_for st queue mask = elim (position (permits st mask) queue) [
  | none ↦ none
  | some i ↦ remove_at i queue
]

unfoldable pub remove_thread : ReadyQueue → ℕ → ReadyQueue
remove_thread queue thread = retain (λ p. not (p == thread)) queue

-- What a pop answers: the queue in two parts round the first thread that the mask permits.
pub record Popped (test : ℕ → Bool) (queue : List ℕ) (p : ℕ) (rest : List ℕ) : Type 0 where
  pub before : List ℕ
  pub after : List ℕ
  pub whole : queue ≡ before ++ (p ∷ after)
  pub left : rest ≡ before ++ after
  pub skipped : All (λ q. test q ≡ false) before
  pub chosen : test p ≡ true

abbrev take_first : (ℕ → Bool) → List ℕ → Option (ℕ × List ℕ)
take_first test queue = elim (position test queue) [ none ↦ none | some i ↦ remove_at i queue ]

take_first-cases :
    (test : ℕ → Bool) (queue : List ℕ)
    → ((take_first test queue ≡ none) × All (λ q. test q ≡ false) queue)
      ⊎ ((p : ℕ) × (rest : List ℕ) × (take_first test queue ≡ some (p, rest))
          × Popped test queue p rest)
unfolding position remove_at
take_first-cases test [] = inl (refl, tt)
take_first-cases test (p ∷ ps) = elim (Bool-cases (test p)) [
  | inl hit ↦ inr (
    p,
    ps,
    ground arith,
    record { before = []; after = ps; whole = refl; left = refl; skipped = tt; chosen = hit },
  )
  | inr miss ↦ elim (take_first-cases test ps) [
    | inl (e, none_fit) ↦ inl (ground arith, (miss, none_fit))
    | inr (q, rest, e, found) ↦ inr (
      q,
      p ∷ rest,
      ground arith,
      record {
        before = p ∷ found.before;
        after = found.after;
        whole = ap (◌∷◌ p) found.whole;
        left = ap (◌∷◌ p) found.left;
        skipped = (miss, found.skipped);
        chosen = found.chosen;
      },
    )
  ]
]

-- `pop_for` answers with the oldest thread that the hart may run, and leaves all the others in their
-- order; it answers with none exactly if the hart may run none of them.
pub pop_for_lem :
    (st : Store) (queue : ReadyQueue) (mask : ℕ)
    → ((pop_for st queue mask ≡ none) × All (λ q. permits st mask q ≡ false) queue)
      ⊎ ((p : ℕ) × (rest : List ℕ) × (pop_for st queue mask ≡ some (p, rest))
          × Popped (permits st mask) queue p rest)
unfolding pop_for
pop_for_lem st queue mask = take_first-cases (permits st mask) queue

-- A scrub leaves no entry for the thread, and keeps what the queue promises.
pub remove_thread-QueueOk :
    (st : Store) (queue : ReadyQueue) (thread : ℕ)
    → QueueOk st queue
    → QueueOk st (remove_thread queue thread) × (mem thread (remove_thread queue thread) ≡ false)
unfolding remove_thread
remove_thread-QueueOk st queue thread ok = (
  record {
    each = All-retain (λ p. dispatchable (st p).state ≡ true) keep queue ok.each;
    distinct = kept_distinct queue ok.distinct;
  },
  gone queue,
)
  where
    keep : ℕ → Bool
    keep p = not (p == thread)

    kept_mem : (p : ℕ) (ps : List ℕ) → mem p ps ≡ false → mem p (retain keep ps) ≡ false
    kept_mem p [] h = refl
    kept_mem p (q ∷ qs) h = ground (arith, kept_mem p qs)

    kept_distinct : (ps : List ℕ) → Distinct ps → Distinct (retain keep ps)
    kept_distinct [] d = tt
    kept_distinct (p ∷ ps) d = ground (arith, kept_distinct ps (d.1), kept_mem p ps (d.0))

    gone : (ps : List ℕ) → mem thread (retain keep ps) ≡ false
    gone [] = refl
    gone (p ∷ ps) = ground (arith, gone ps)
