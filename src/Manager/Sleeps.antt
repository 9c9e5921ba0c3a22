-- ===== src/Manager/Sleeps.antt =====
-- The sleepers of manager/src/lib.rs: the drain of the notices and the heap.
mod Pause
pub mod Drained
pub mod Woken
use orbit.Base.{
  if◌then◌else◌, ℕ, ◌+◌, ◌-◌, min, ◌≤◌, ◌<◌, ◌≡◌, refl, sym, ap, subst, ◌∙◌, ◌⊎◌, inl, inr, true,
  false, ltb, ltb→lt, ◌==◌, List, [], ◌∷◌, ◌++◌, append_assoc, append-nil, arith, All, Bool-cases,
  done,
}
use orbit.Thread.{as_usize, ready, promote_ready_from_parked}
use orbit.Thread.Cap.{claim_parked, promote_wake, consume_wake}
use orbit.Store.{update, QueueOk, promote-QueueOk}
use orbit.ReadyQueue as Ready
use orbit.SleepHeap.{SleepHeap, SleepEntry, Verdict, verdict, drain_woken, next_wake}
use orbit.SleepHeap as Heap
use orbit.SleepHeap.Order.{IsOrdered, push_lem, In, In-push}
use orbit.SleepHeap.Drain.{Rests, drain_woken-Rests, Verdict-cases}
use Woken.{
  Calm, asleep, is_live, Calm-still, Calm-then, Calm-asleep, Calm-pending, wake_sleeper-Calm,
  unclaimed-asleep,
}
use orbit.Manager.{
  SleepNotice, Pass, has_pending_wake, wake_sleeper, file_notices, drain_sleeps,
  next_sleep_in_cycles,
}
use Drained.{entries, Accounted, Due, due, Tickled, tickled, asleep-before, drain_woken-Calm}

file_notices-Calm :
    (notices : List SleepNotice) (heap : SleepHeap) (s : Pass)
    → IsOrdered heap
    → QueueOk s.mem s.queue
    → (heap' : SleepHeap) × (s' : Pass) × (new : List ℕ) × (file_notices notices heap s
        ≡ done (heap', s'))
      × IsOrdered heap'
      × Calm (Tickled (entries notices) s) s s' new
      × ((x : SleepEntry) → In x heap ⊎ In x (entries notices) → Accounted s' heap' x)
      × ((x : SleepEntry) → In x heap' → In x heap ⊎ In x (entries notices))
unfolding file_notices
file_notices-Calm [] heap s o ok = (
  heap,
  s,
  [],
  refl,
  o,
  Calm-still _ s ok,
  λ x i. elim i [ inl j ↦ inl j | inr j ↦ absurd j ],
  λ x i. inl i,
)
file_notices-Calm (n ∷ ns) heap s o ok = elim (Bool-cases (n.thread == 0)) [
  | inl z ↦ rw z (file_notices-Calm ns heap s o ok)
  | inr z ↦ elim (Bool-cases (has_pending_wake (s.mem n.thread))) [
    | inl w ↦
        let e : SleepEntry = record {
          wake_time = n.wake_time;
          sleep_seq = n.sleep_seq;
          thread = n.thread;
        } in
        let (s1, new1, e1, c1, gone) =
          wake_sleeper-Calm (Tickled (e ∷ entries ns) s) n.thread s ok
            (tickled e (inl refl) refl w) in
        let (heap', s', new, r, o', c, kept, from) = file_notices-Calm ns heap s1 o c1.ok in
        (
          heap',
          s',
          new1 ++ new,
          rw (z, w, e1) r,
          o',
          rw z (
              Calm-then _ _ s s1 s' new1 new c1 c (more e s1 (λ q. Calm-pending _ s s1 new1 q c1))),
          rw z (λ x i. elim i [
            | inl j ↦ kept x (inl j)
            | inr (inl same) ↦ inr (
                subst (λ y. asleep s' y ≡ false) same
                  (Calm-asleep _ s1 s' new e c (unclaimed-asleep s1 e n.thread refl gone)))
            | inr (inr j) ↦ kept x (inr j)
          ]),
          rw z (λ x i. elim (from x i) [ inl j ↦ inl j | inr j ↦ inr (inr j) ]),
        )
    | inr w ↦
        let e : SleepEntry = record {
          wake_time = n.wake_time;
          sleep_seq = n.sleep_seq;
          thread = n.thread;
        } in
        let (heap', s', new, r, o', c, kept, from) =
          file_notices-Calm ns (Heap.push heap n.thread n.wake_time n.sleep_seq) s
            ((push_lem heap n.thread n.wake_time n.sleep_seq o).0) ok in
        (
          heap',
          s',
          new,
          rw (z, w) r,
          o',
          rw z (Calm-then _ _ s s s' [] new (Calm-still _ s ok) c (more e s (λ q h. h))),
          rw z (λ x i. elim i [
            | inl j ↦ kept x (inl ((In-push heap n.thread n.wake_time n.sleep_seq x).1 (inr j)))
            | inr (inl same) ↦
                kept x (inl ((In-push heap n.thread n.wake_time n.sleep_seq x).1 (inl same)))
            | inr (inr j) ↦ kept x (inr j)
          ]),
          rw z (λ x i. elim (from x i) [
            | inl j ↦ elim ((In-push heap n.thread n.wake_time n.sleep_seq x).0 j) [
              | inl k ↦ inr (inl k)
              | inr k ↦ inl k
            ]
            | inr j ↦ inr (inr j)
          ]),
        )
  ]
]
  where
    more :
        (e : SleepEntry) (u : Pass)
        → ((q : ℕ) → has_pending_wake (u.mem q) ≡ true → has_pending_wake (s.mem q) ≡ true)
        → (q : ℕ) → Tickled (entries ns) u q
        → Tickled (e ∷ entries ns) s q
    more e u f q (tickled x i th w) = tickled x (inr i) th (f q w)

-- Why `drain_sleeps` wakes a thread.
abbrev pub Cause : ℕ → SleepHeap → SleepHeap → Pass → ℕ → Type 0
Cause now heap noticed s p = Tickled noticed s p ⊎ Due now heap s p ⊎ Due now noticed s p

All-In : {P : SleepEntry → Type 0} (xs : SleepHeap) → ((x : SleepEntry) → In x xs → P x) → All P xs
All-In [] f = tt
All-In (x ∷ xs) f = (f x (inl refl), All-In xs (λ y i. f y (inr i)))

-- From an ordered heap and a ready queue that keeps its promises, `drain_sleeps` never panics, and the
-- queue still keeps them. The threads that it wakes are made Ready with their wake reasons consumed and
-- queued behind the others, and no other thread changes. Each of them slept past a deadline of the
-- heap or of a notice, or had a wake pending and a notice. Every entry of the heap and every notice is
-- accounted for at the end: it is in the heap, or its thread does not sleep in that sleep any more. The
-- drain stops with the heap empty, at an entry whose thread is on its way into that very park, or with
-- no deadline that has passed.
pub drain_sleeps-Rests :
    (now : ℕ) (notices : List SleepNotice) (heap : SleepHeap) (s : Pass)
    → IsOrdered heap
    → QueueOk s.mem s.queue
    → (heap' : SleepHeap) × (s' : Pass) × (new : List ℕ) × (drain_sleeps now notices heap s
        ≡ done (heap', s'))
      × Rests (λ u p. u.mem p) wake_sleeper now s' heap'
      × Calm (Cause now heap (entries notices) s) s s' new
      × All (Accounted s' heap') heap
      × All (Accounted s' heap') (entries notices)
unfolding drain_sleeps
drain_sleeps-Rests now notices heap s o ok =
    let (heap1, s1, new1, e1, o1, c1, kept1, from1) = file_notices-Calm notices heap s o ok in
    let (heap2, s2, new2, e2, c2, kept2) = drain_woken-Calm now heap1 s1 c1.ok in
    let all : (x : SleepEntry) → In x heap ⊎ In x (entries notices) → Accounted s2 heap2 x = λ x i.
      elim (kept1 x i) [ inl j ↦ kept2 x j | inr h ↦ inr (Calm-asleep _ s1 s2 new2 x c2 h) ] in
    (
      heap2,
      s2,
      new1 ++ new2,
      rw e1 e2,
      (drain_woken-Rests (λ u p. u.mem p) wake_sleeper now heap1 s1 heap2 s2 o1 e2).0,
      Calm-then (Cause now heap (entries notices) s) _ s s1 s2 new1 new2
          (Calm-then _ _ s s s1 [] new1 (Calm-still _ s ok) c1 (λ q t. inl t)) c2
          (cause s1 heap1 from1 (λ x. asleep-before _ s s1 new1 x c1)),
      All-In heap (λ x i. all x (inl i)),
      All-In (entries notices) (λ x i. all x (inr i)),
    )
  where
    cause :
        (s1 : Pass) (heap1 : SleepHeap)
        → ((x : SleepEntry) → In x heap1 → In x heap ⊎ In x (entries notices))
        → ((x : SleepEntry) → asleep s1 x ≡ true → asleep s x ≡ true)
        → (q : ℕ) → Due now heap1 s1 q
        → Cause now heap (entries notices) s q
    cause s1 heap1 from f q (due x i th w a) = elim (from x i) [
      | inl j ↦ inr (inl (due x j th w (f x a)))
      | inr j ↦ inr (inr (due x j th w (f x a)))
    ]
