-- ===== src/Kernel/Pids.antt =====
-- That the search for a process number ends, `next_pid` of kmain/src/kernel/mod.rs.
use orbit.Base.{
  Bool-cases, inl, inr, ==_ne, ℕ, zero, suc, ◌+◌, ◌-◌, ◌%◌, ◌^◌, ◌<◌, ◌≤◌, ◌≡◌, Bool, true, false,
  leb, ◌==◌, if◌then◌else◌, Option, none, some, arith, subst, sym, refl,
}
use orbit.Base.Map.{contains_key}
use orbit.Kernel.Processes.{Processes, search_pid, next_pid}

-- Whether a search gave a number that the table does not hold.
pub is_free : Processes → Option ℕ → Bool
is_free ps none = false
is_free ps (some pid) = if contains_key pid ps then false else true

-- The rounds from one number to another, along 1 to 65535.
rounds : ℕ → ℕ → ℕ
rounds next pid = if leb next pid then pid - next else 65535 - next + pid

successor : ℕ → ℕ
successor next = if (next + 1) % 65536 == 0 then 1 else (next + 1) % 65536

rounds-successor :
    (next pid : ℕ)
    → next < 65536
    → 1 ≤ pid
    → pid < 65536
    → (next == pid) ≡ false
    → (successor next < 65536) × (rounds (successor next) pid + 1 ≤ rounds next pid)
unfolding rounds successor
rounds-successor next pid ns one ps apart = ground arith

search_pid-finds :
    (fuel next pid : ℕ) (ps : Processes)
    → next < 65536
    → 1 ≤ pid
    → pid < 65536
    → contains_key pid ps ≡ false
    → rounds next pid < fuel
    → is_free ps (search_pid fuel next ps) ≡ true
unfolding is_free search_pid successor
search_pid-finds zero next pid ps ns one below free enough = absurd (omega arith)
search_pid-finds (suc fuel) next pid ps ns one below free enough =
    elim (Bool-cases (contains_key next ps)) [
      | inr here ↦ rw (here, here) refl
      | inl taken ↦
          let apart : (next == pid) ≡ false =
            ==_ne next pid
              (λ same. ground (arith, subst (λ k. contains_key k ps ≡ false) (sym same) free)) in
          let more = rounds-successor next pid ns one below apart in
          rw taken
            (search_pid-finds fuel (successor next) pid ps more.0 one below free (omega arith))
    ]

-- If a number from 1 to 65535 is not in the table, the search ends with a number that is not, whichever
-- was given out last.
pub next_pid-is_free :
    (current pid : ℕ) (ps : Processes)
    → 1 ≤ pid
    → pid < 2 ^ 16
    → contains_key pid ps ≡ false
    → is_free ps (next_pid current ps) ≡ true
unfolding next_pid rounds
next_pid-is_free current pid ps one below free =
    search_pid-finds 65536 ((current + 1) % 65536) pid ps (omega arith) one below free
      (ground arith)
