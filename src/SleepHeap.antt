-- ===== src/SleepHeap.antt =====
-- orbit-core/src/sleep_heap.rs. The `BinaryHeap` is a list in the order of its entries, the earliest
-- first; where two entries compare as equal, which the heap leaves open, the one pushed first comes
-- first. A pointer to a thread is a number; `look` reads the thread behind it in a state of the
-- caller's, which the callback of a drain may change.
pub mod Drain
pub mod Order
pub mod Tests
use orbit.Base.{
  ℕ, Bool, true, false, not, ◌==◌, ltb, ◌&&◌, ◌||◌, if◌then◌else◌, List, [], ◌∷◌, Option, none,
  some, retain, length, Run, done, ◌>>=◌,
}
use orbit.Thread.{Thread, as_usize, ready, blocking, assigned, running, exited, suspended}

pub record SleepEntry : Type 0 where
  pub wake_time : ℕ
  pub sleep_seq : ℕ
  pub thread : ℕ

abbrev pub SleepHeap : Type 0
SleepHeap = List SleepEntry

-- `a.cmp(b)` is less.
abbrev pub earlier : SleepEntry → SleepEntry → Bool
earlier a b =
    ltb a.wake_time b.wake_time || a.wake_time == b.wake_time && ltb a.sleep_seq b.sleep_seq

insert : SleepEntry → SleepHeap → SleepHeap
insert e [] = e ∷ []
insert e (x ∷ xs) = if earlier e x then e ∷ x ∷ xs else x ∷ insert e xs

unfoldable pub push : SleepHeap → ℕ → ℕ → ℕ → SleepHeap
unfolding insert
push heap thread wake_time sleep_seq =
    insert (record { wake_time = wake_time; sleep_seq = sleep_seq; thread = thread }) heap

unfoldable pub next_wake : SleepHeap → Option ℕ
next_wake [] = none
next_wake (e ∷ es) = some e.wake_time

unfoldable pub remove_thread : SleepHeap → ℕ → SleepHeap
remove_thread heap thread = retain (λ e. not (e.thread == thread)) heap

pub data Verdict : Type 0 where
  stale transient live : Verdict

unfoldable pub classify : ℕ → ℕ → ℕ → Verdict
classify live_seq live_state entry_seq =
    if not (live_seq == entry_seq)
    then stale
    else if live_state == as_usize suspended
    then live
    else if live_state == as_usize ready
    then stale
    else if live_state == as_usize exited
    then stale
    else if live_state == as_usize blocking
    then stale
    else if live_state == as_usize running || live_state == as_usize assigned
    then transient
    else stale

module _ {ℓ} {S : Type ℓ} (look : S → ℕ → Thread) (wake : ℕ → S → Run S) where
  -- The verdict on an entry as the drain reads it.
  abbrev pub verdict : S → SleepEntry → Verdict
  verdict s e = classify (look s e.thread).sleep_seq (look s e.thread).state e.sleep_seq

  -- The heap that is left and the caller's state.
  unfoldable pub drain_woken : ℕ → SleepHeap → S → Run (SleepHeap × S)
  drain_woken now [] s = done ([], s)
  drain_woken now (e ∷ es) s = elim (verdict s e) [
    | stale ↦ drain_woken now es s
    | transient ↦ done (e ∷ es, s)
    | live ↦ elim (ltb now e.wake_time) [
      | true ↦ done (e ∷ es, s)
      | false ↦ wake e.thread s >>= λ s'. drain_woken now es s'
    ]
  ]
