-- ===== src/SleepHeap/Order.antt =====
-- The order of the heap of orbit-core/src/sleep_heap.rs, and what a push and a scrub keep.
use orbit.Base.{
  ◌⊎◌, ℕ, ◌+◌, ◌≤◌, ◌≡◌, refl, inl, inr, Bool, false, not, ◌==◌, [], ◌∷◌, none, some, retain,
  length, arith, All, All-retain, Bool-cases, min,
}
use orbit.SleepHeap.{SleepEntry, SleepHeap, earlier, insert, push, next_wake, remove_thread}

-- No entry stands before one that is earlier.
abbrev pub IsOrdered : SleepHeap → Type 0
IsOrdered [] = Unit
IsOrdered (e ∷ es) = All (λ x. e.wake_time ≤ x.wake_time) es × IsOrdered es

All-later :
    (a b : SleepEntry) (es : SleepHeap)
    → a.wake_time ≤ b.wake_time
    → All (λ x. b.wake_time ≤ x.wake_time) es
    → All (λ x. a.wake_time ≤ x.wake_time) es
All-later a b [] h k = tt
All-later a b (e ∷ es) h k = (omega (arith, k.0), All-later a b es h (k.1))

All-insert :
    (a e : SleepEntry) (es : SleepHeap)
    → a.wake_time ≤ e.wake_time
    → All (λ x. a.wake_time ≤ x.wake_time) es
    → All (λ x. a.wake_time ≤ x.wake_time) (insert e es)
unfolding insert
All-insert a e [] h k = (h, tt)
All-insert a e (x ∷ xs) h k = ground (arith, All-insert a e xs h (k.1))

insert-IsOrdered : (e : SleepEntry) (es : SleepHeap) → IsOrdered es → IsOrdered (insert e es)
unfolding insert
insert-IsOrdered e [] o = (tt, tt)
insert-IsOrdered e (x ∷ xs) o = elim (Bool-cases (earlier e x)) [
  | inl before ↦
      let le : e.wake_time ≤ x.wake_time = ground arith in
      rw before ((le, All-later e x xs le (o.0)), o)
  | inr after ↦
      let le : x.wake_time ≤ e.wake_time = ground arith in
      rw after (All-insert x e xs le (o.0), insert-IsOrdered e xs (o.1))
]

-- A push keeps the order, adds one entry, and the next wake is the earlier of the new deadline and
-- the old one.
pub push_lem :
    (heap : SleepHeap) (thread wake_time sleep_seq : ℕ)
    → IsOrdered heap
    → let heap' = push heap thread wake_time sleep_seq in
      IsOrdered heap'
      × (length heap' ≡ length heap + 1)
      × (next_wake heap'
          ≡ some (elim (next_wake heap) [ none ↦ wake_time | some t ↦ min wake_time t ]))
unfolding push next_wake
push_lem heap thread wake_time sleep_seq o =
    (insert-IsOrdered _ heap o, length-insert _ heap, next_wake-insert _ heap)
  where
    length-insert : (e : SleepEntry) (es : SleepHeap) → length (insert e es) ≡ length es + 1
    length-insert e [] = omega arith
    length-insert e (x ∷ xs) = ground (arith, length-insert e xs)

    next_wake-insert :
        (e : SleepEntry) (es : SleepHeap)
        → next_wake (insert e es)
          ≡ some (elim (next_wake es) [ none ↦ e.wake_time | some t ↦ min e.wake_time t ])
    next_wake-insert e [] = refl
    next_wake-insert e (x ∷ xs) = ground arith

retain-IsOrdered :
    (keep : SleepEntry → Bool) (es : SleepHeap) → IsOrdered es → IsOrdered (retain keep es)
retain-IsOrdered keep [] o = tt
retain-IsOrdered keep (e ∷ es) o = ground (
  arith,
  retain-IsOrdered keep es (o.1),
  All-retain (λ x. e.wake_time ≤ x.wake_time) keep es (o.0),
)

-- After a scrub no entry names the thread, and the order stands.
pub remove_thread_lem :
    (heap : SleepHeap) (thread : ℕ)
    → IsOrdered heap
    → IsOrdered (remove_thread heap thread)
      × All (λ e. (e.thread == thread) ≡ false) (remove_thread heap thread)
unfolding remove_thread
remove_thread_lem heap thread o = (retain-IsOrdered _ heap o, scrubbed heap)
  where
    scrubbed :
        (es : SleepHeap)
        → All (λ e. (e.thread == thread) ≡ false) (retain (λ e. not (e.thread == thread)) es)
    scrubbed [] = tt
    scrubbed (e ∷ es) = ground (arith, scrubbed es)

-- Where an entry is in a heap.
abbrev pub In : SleepEntry → SleepHeap → Type 0
In e [] = ⊥
In e (x ∷ xs) = (x ≡ e) ⊎ In e xs

-- A push adds its entry and keeps all others.
pub In-push :
    (heap : SleepHeap) (thread wake_time sleep_seq : ℕ) (x : SleepEntry)
    → let e : SleepEntry = record {
      wake_time = wake_time;
      sleep_seq = sleep_seq;
      thread = thread;
    } in
      (In x (push heap thread wake_time sleep_seq) → (e ≡ x) ⊎ In x heap)
      × ((e ≡ x) ⊎ In x heap → In x (push heap thread wake_time sleep_seq))
unfolding push insert
In-push heap thread wake_time sleep_seq x = go heap
  where
    e : SleepEntry
    e = record { wake_time = wake_time; sleep_seq = sleep_seq; thread = thread }

    go :
        (es : SleepHeap)
        → (In x (insert e es) → (e ≡ x) ⊎ In x es) × ((e ≡ x) ⊎ In x es → In x (insert e es))
    go [] = (λ i. i, λ i. i)
    go (y ∷ ys) = elim (Bool-cases (earlier e y)) [
      | inl b ↦ rw b (λ i. i, λ i. i)
      | inr b ↦
          let r = go ys in
          rw b (
            λ i. elim i [
              | inl h ↦ inr (inl h)
              | inr h ↦ elim (r.0 h) [ inl k ↦ inl k | inr k ↦ inr (inr k) ]
            ],
            λ i. elim i [
              | inl h ↦ inr (r.1 (inl h))
              | inr h ↦ elim h [ inl k ↦ inl k | inr k ↦ inr (r.1 (inr k)) ]
            ],
          )
    ]
