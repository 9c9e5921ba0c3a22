-- ===== src/Kernel/Wait/Tables.antt =====
-- What the events of Wait keep of the process table.
use orbit.Base.{ℕ, ◌≡◌, refl, List, [], Option, none, some, arith, ==_iff}
use orbit.Base.Map.{
  lookup, insert, remove, IsSorted, lookup-insert, lookup-remove, insert-Rising, remove-Rising,
}
use orbit.Kernel.Processes.{Process, Processes, Reply}
use orbit.Kernel.Wait.{
  wait_live, run_wait_any_child, run_wait_pid_req, report_exit, exit_process, Event, spawned, waits,
  exits, step,
}

abbrev pub number_at : ℕ → Option Process → ℕ
number_at k none = k
number_at k (some p) = p.pid

-- The keys rise, and each process stands under its own number.
pub record IsTable (ps : Processes) : Type 0 where
  pub sorted : IsSorted ps
  pub number : (k : ℕ) → number_at k (lookup k ps) ≡ k

module _ (ps : Processes) (table : IsTable ps) where
  insert-IsSorted : (k : ℕ) (p : Process) → IsSorted (insert k p ps)
  insert-IsSorted k p = insert-Rising 0 k p ps (omega arith) table.sorted

  pub insert-IsTable : (k : ℕ) (p : Process) → p.pid ≡ k → IsTable (insert k p ps)
  insert-IsTable k p here = record {
    sorted = insert-IsSorted k p;
    number = λ j. grind (arith, lookup-insert, table.number, ==_iff);
  }

  pub remove-IsTable : (k : ℕ) → IsTable (remove k ps)
  remove-IsTable k = record {
    sorted = remove-Rising 0 k ps table.sorted;
    number = λ j. grind (arith, lookup-remove 0 k j ps table.sorted, table.number, ==_iff);
  }

  pub number_of : (k : ℕ) (p : Process) → lookup k ps ≡ some p → p.pid ≡ k
  number_of k p at = grind (arith, table.number k)

  run_wait_pid_req-IsTable :
      (selector pid tid : ℕ) → IsTable (run_wait_pid_req ps selector pid tid).0
  unfolding run_wait_pid_req wait_live run_wait_any_child
  run_wait_pid_req-IsTable selector pid tid = grind (arith, insert-IsTable, number_of)

module _ (ps : Processes) (table : IsTable ps) where
  report_exit-IsTable : (p : Process) → IsTable (report_exit ps p).0
  unfolding report_exit
  report_exit-IsTable p = grind (arith, insert-IsTable, number_of)

module _ (ps : Processes) (table : IsTable ps) where
  exit_process-IsTable : (pid code : ℕ) → IsTable (exit_process ps pid code).0
  unfolding exit_process
  exit_process-IsTable pid code = by_process (lookup pid ps)
    where
      by_process :
          (o : Option Process)
          → IsTable
              (elim o as (λ x. Processes × List Reply) [
                | none ↦ (ps, [])
                | some p ↦ report_exit (remove pid ps) (record p { exit_code = code })
              ]).0
      by_process none = table
      by_process (some p) =
          report_exit-IsTable (remove pid ps) (remove-IsTable ps table pid)
            (record p { exit_code = code })

  pub step-IsTable : (ev : Event) → IsTable (step ps ev).0
  unfolding step
  step-IsTable (spawned p) = insert-IsTable ps table p.pid p refl
  step-IsTable (waits selector pid tid) = run_wait_pid_req-IsTable ps table selector pid tid
  step-IsTable (exits pid code) = exit_process-IsTable pid code
