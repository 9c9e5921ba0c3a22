-- ===== src/Kernel/Wait/Accounts.antt =====
-- How many answers and exit codes a history of Wait gives out.
use orbit.Base.{
  ℕ, ◌+◌, ◌^◌, ◌≤◌, ◌≡◌, refl, ltb, if◌then◌else◌, List, [], ◌∷◌, ◌++◌, Option, none, some, arith,
  length, length-append,
}
use orbit.Base.Map.{
  lookup, remove, total, weight, total-insert, total-remove, length-remove, length-insert-le,
  IsSorted,
}
use orbit.Kernel.Processes.{Process, Processes, Reply, to_ret}
use orbit.Kernel.Wait.{
  wait_live, run_wait_any_child, run_wait_pid_req, report_exit, exit_process, Event, spawned, waits,
  exits, step, run,
}
use orbit.Kernel.Wait.Tables.{IsTable, step-IsTable, remove-IsTable}

abbrev pub one_if : Option ℕ → ℕ
one_if none = 0
one_if (some tid) = 1

-- The threads that wait through a process, and the codes that it has yet to fetch.
abbrev pub waiting : Process → ℕ
waiting p = one_if p.exit_waiter + one_if p.any_child_waiter

abbrev pub unfetched : Process → ℕ
unfetched p = length p.dead_children

-- A reply that carries an error has a first value from 2 ^ 63 on; any other carries an exit code.
abbrev pub codes : List Reply → ℕ
codes [] = 0
codes ((tid, []) ∷ rs) = codes rs
codes ((tid, v ∷ vs) ∷ rs) = (if ltb v (2 ^ 63) then 1 else 0) + codes rs

-- The events that may end in an answer, and those that may end in a code.
abbrev pub asked : Event → ℕ
asked (spawned p) = waiting p
asked (waits selector caller_pid caller_tid) = 1
asked (exits pid exit_code) = 0

abbrev pub ended : Event → ℕ
ended (spawned p) = unfetched p
ended (waits selector caller_pid caller_tid) = 0
ended (exits pid exit_code) = 1

abbrev pub sum_of : (Event → ℕ) → List Event → ℕ
sum_of f [] = 0
sum_of f (ev ∷ evs) = f ev + sum_of f evs

module _ (ps : Processes) (sorted : IsSorted ps) where
  wait-answers :
      (selector pid tid : ℕ)
      → length (run_wait_pid_req ps selector pid tid).1
          + total waiting (run_wait_pid_req ps selector pid tid).0
        ≤ total waiting ps + 1
  unfolding run_wait_pid_req wait_live run_wait_any_child
  wait-answers selector pid tid = grind (arith, total-insert waiting 0)

  wait-codes :
      (selector pid tid : ℕ)
      → codes (run_wait_pid_req ps selector pid tid).1
          + total unfetched (run_wait_pid_req ps selector pid tid).0
        ≤ total unfetched ps
  unfolding run_wait_pid_req wait_live run_wait_any_child to_ret
  wait-codes selector pid tid = grind (arith, total-insert unfetched 0, length-remove)

  report-answers :
      (p : Process)
      → length (report_exit ps p).1 + total waiting (report_exit ps p).0
        ≤ total waiting ps + waiting p
  unfolding report_exit
  report-answers p = grind (arith, total-insert waiting 0)

  report-codes :
      (p : Process)
      → codes (report_exit ps p).1 + total unfetched (report_exit ps p).0 ≤ total unfetched ps + 1
  unfolding report_exit
  report-codes p = grind (arith, total-insert unfetched 0, length-insert-le)

module _ (ps : Processes) (table : IsTable ps) where
  exit-answers :
      (pid code : ℕ)
      → length (exit_process ps pid code).1 + total waiting (exit_process ps pid code).0
        ≤ total waiting ps
  unfolding exit_process
  exit-answers pid code = by_process (lookup pid ps) refl
    where
      by_process :
          (o : Option Process)
          → lookup pid ps ≡ o
          → (let r : Processes × List Reply = elim o [
            | none ↦ (ps, [])
            | some p ↦ report_exit (remove pid ps) (record p { exit_code = code })
          ] in
              length r.1 + total waiting r.0 ≤ total waiting ps)
      by_process none at = omega arith
      by_process (some p) at =
          let rest = (remove-IsTable ps table pid).sorted in
          let sum = total-remove waiting pid ps in
          let was : weight waiting (lookup pid ps) ≡ waiting p = rw at refl in
          omega
            (arith, sum, was, report-answers (remove pid ps) rest (record p { exit_code = code }))

  exit-codes :
      (pid code : ℕ)
      → codes (exit_process ps pid code).1 + total unfetched (exit_process ps pid code).0
        ≤ total unfetched ps + 1
  unfolding exit_process
  exit-codes pid code = by_process (lookup pid ps)
    where
      by_process :
          (o : Option Process)
          → (let r : Processes × List Reply = elim o [
            | none ↦ (ps, [])
            | some p ↦ report_exit (remove pid ps) (record p { exit_code = code })
          ] in
              codes r.1 + total unfetched r.0 ≤ total unfetched ps + 1)
      by_process none = omega arith
      by_process (some p) =
          let rest = (remove-IsTable ps table pid).sorted in
          omega (
            arith,
            total-remove unfetched pid ps,
            report-codes (remove pid ps) rest (record p { exit_code = code }),
          )

  step-answers :
      (ev : Event)
      → length (step ps ev).1 + total waiting (step ps ev).0 ≤ total waiting ps + asked ev
  unfolding step
  step-answers (spawned p) = omega (arith, total-insert waiting 0 p.pid p ps table.sorted)
  step-answers (waits selector pid tid) = wait-answers ps table.sorted selector pid tid
  step-answers (exits pid code) = omega (arith, exit-answers pid code)

  step-codes :
      (ev : Event)
      → codes (step ps ev).1 + total unfetched (step ps ev).0 ≤ total unfetched ps + ended ev
  unfolding step
  step-codes (spawned p) = omega (arith, total-insert unfetched 0 p.pid p ps table.sorted)
  step-codes (waits selector pid tid) = omega (arith, wait-codes ps table.sorted selector pid tid)
  step-codes (exits pid code) = exit-codes pid code

codes-append : (rs qs : List Reply) → codes (rs ++ qs) ≡ codes rs + codes qs
codes-append [] qs = omega arith
codes-append ((tid, []) ∷ rs) qs = codes-append rs qs
codes-append ((tid, v ∷ vs) ∷ rs) qs = omega (arith, codes-append rs qs)

-- From any table: a history answers no more threads than waited at the start or asked since, those
-- that wait at the end counted, and it gives out no more exit codes than were unfetched at the start
-- or came by an exit, those left unfetched counted.
pub run_accounts :
    (ps : Processes) (evs : List Event)
    → IsTable ps
    → (length (run ps evs).1 + total waiting (run ps evs).0 ≤ total waiting ps + sum_of asked evs)
      × (codes (run ps evs).1 + total unfetched (run ps evs).0
          ≤ total unfetched ps + sum_of ended evs)
unfolding run
run_accounts ps [] table = (omega arith, omega arith)
run_accounts ps (ev ∷ evs) table =
    let later = run_accounts (step ps ev).0 evs (step-IsTable ps table ev) in
    let qs = (run (step ps ev).0 evs).1 in
    (
      omega (arith, length-append (step ps ev).1 qs, later.0, step-answers ps table ev),
      omega (arith, codes-append (step ps ev).1 qs, later.1, step-codes ps table ev),
    )
