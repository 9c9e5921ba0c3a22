-- ===== src/Manager/Sleeps/Drained.antt =====
-- The drain of the sleep heap by `drain_sleeps` of manager/src/lib.rs.
use orbit.Base.{
  if◌then◌else◌, ℕ, ◌≤◌, ◌≡◌, refl, ap, subst, ◌⊎◌, inl, inr, true, false, ltb, ◌==◌, List, [], ◌∷◌,
  ◌++◌, arith, Bool-cases, done,
}
use orbit.Store.{QueueOk}
use orbit.SleepHeap.{SleepHeap, SleepEntry, verdict, drain_woken}
use orbit.SleepHeap.Order.{In}
use orbit.SleepHeap.Drain.{Verdict-cases}
use orbit.Manager.Sleeps.Woken.{
  Calm, asleep, is_live, Calm-still, Calm-then, Calm-asleep, wake_sleeper-Calm, unclaimed-asleep,
}
use orbit.Manager.{SleepNotice, Pass, has_pending_wake, wake_sleeper}

-- The sleeps that the notices tell of; the null pointer stands for no notice.
abbrev pub entries : List SleepNotice → SleepHeap
entries [] = []
entries (n ∷ ns) =
    if n.thread == 0
    then entries ns
    else record { wake_time = n.wake_time; sleep_seq = n.sleep_seq; thread = n.thread } ∷ entries ns

-- An entry that is still in the heap, or whose thread does not sleep in that sleep.
abbrev pub Accounted : Pass → SleepHeap → SleepEntry → Type 0
Accounted s heap e = In e heap ⊎ (asleep s e ≡ false)

-- Why a thread is woken: it sleeps and its deadline has passed, or it had a wake pending when the
-- notice of its sleep came.
pub data Due (now : ℕ) (heap : SleepHeap) (s : Pass) (p : ℕ) : Type 0 where
  due :
      (e : SleepEntry)
      → In e heap
      → e.thread ≡ p
      → e.wake_time ≤ now
      → asleep s e ≡ true
      → Due now heap s p

pub data Tickled (noticed : SleepHeap) (s : Pass) (p : ℕ) : Type 0 where
  tickled :
      (e : SleepEntry)
      → In e noticed
      → e.thread ≡ p
      → has_pending_wake (s.mem p) ≡ true
      → Tickled noticed s p

-- A thread that sleeps after a part of the drain slept before it.
pub asleep-before :
    (C : ℕ → Type 0) (s s' : Pass) (new : List ℕ) (e : SleepEntry)
    → Calm C s s' new
    → asleep s' e ≡ true
    → asleep s e ≡ true
asleep-before C s s' new e c h = elim (Bool-cases (asleep s e)) [
  | inl k ↦ k
  | inr k ↦ absurd (ground (arith, h, Calm-asleep C s s' new e c k))
]

pub drain_woken-Calm :
    (now : ℕ) (heap : SleepHeap) (s : Pass)
    → QueueOk s.mem s.queue
    → (heap' : SleepHeap) × (s' : Pass) × (new : List ℕ) × (drain_woken
          (λ u p. u.mem p)
          wake_sleeper
          now
          heap
          s
        ≡ done (heap', s'))
      × Calm (Due now heap s) s s' new
      × ((x : SleepEntry) → In x heap → Accounted s' heap' x)
unfolding drain_woken
drain_woken-Calm now [] s ok = ([], s, [], refl, Calm-still _ s ok, λ x i. absurd i)
drain_woken-Calm now (e ∷ es) s ok =
    elim (Verdict-cases (verdict (λ u p. u.mem p) wake_sleeper s e)) [
      | inl v ↦
          let (heap', s', new, r, c, kept) = drain_woken-Calm now es s ok in
          (
            heap',
            s',
            new,
            rw (drain_woken, v) r,
            Calm-then _ _ s s s' [] new (Calm-still _ s ok) c (more s s (λ x h. h)),
            λ x i. elim i [
              | inl same ↦ inr (
                  subst (λ y. asleep s' y ≡ false) same (Calm-asleep _ s s' new e c (ap is_live v)))
              | inr j ↦ kept x j
            ],
          )
      | inr (inl v) ↦ (e ∷ es, s, [], rw (drain_woken, v) refl, Calm-still _ s ok, λ x i. inl i)
      | inr (inr v) ↦ elim (Bool-cases (ltb now e.wake_time)) [
        | inl later ↦
            (e ∷ es, s, [], rw (drain_woken, v, later) refl, Calm-still _ s ok, λ x i. inl i)
        | inr past ↦
            let (s1, new1, e1, c1, gone) =
              wake_sleeper-Calm (Due now (e ∷ es) s) e.thread s ok
                (due e (inl refl) refl (ground (arith, past)) (ap is_live v)) in
            let (heap', s', new, r, c, kept) = drain_woken-Calm now es s1 c1.ok in
            (
              heap',
              s',
              new1 ++ new,
              rw (drain_woken, v, past, e1) r,
              Calm-then _ _ s s1 s' new1 new c1 c (more s s1 (λ x. asleep-before _ s s1 new1 x c1)),
              λ x i. elim i [
                | inl same ↦ inr (
                    subst (λ y. asleep s' y ≡ false) same
                      (Calm-asleep _ s1 s' new e c (unclaimed-asleep s1 e e.thread refl gone)))
                | inr j ↦ kept x j
              ],
            )
      ]
    ]
  where
    more :
        (t u : Pass)
        → ((x : SleepEntry) → asleep u x ≡ true → asleep t x ≡ true)
        → (q : ℕ) → Due now es u q
        → Due now (e ∷ es) t q
    more t u f q (due x i th w a) = due x (inr i) th w (f x a)
