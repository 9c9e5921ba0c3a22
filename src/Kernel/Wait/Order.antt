-- ===== src/Kernel/Wait/Order.antt =====
-- `run_wait_pid_req` and the report of an exit in either order, with other events between them.
use orbit.Base.{
  ℕ, ◌%◌, ◌^◌, ◌<◌, ◌≡◌, Bool, true, false, not, ◌==◌, ◌&&◌, if◌then◌else◌, List, [], ◌∷◌, Option,
  none, some, arith, ==_iff,
}
use orbit.Base.Map.{lookup, lookup-insert, lookup-remove_ne}
use orbit.Kernel.Processes.{Process, Processes, as_isize}
use orbit.Kernel.Wait.{
  any_child, wait_live, run_wait_any_child, run_wait_pid_req, report_exit, exit_process, Event,
  spawned, waits, exits, step, run,
}

-- The event ends the process or puts another under its number.
abbrev pub ends : ℕ → Event → Bool
ends c (spawned p) = p.pid == c
ends c (waits selector caller_pid caller_tid) = false
ends c (exits pid exit_code) = pid == c

abbrev pub spared : ℕ → List Event → Bool
spared c [] = true
spared c (ev ∷ evs) = not (ends c ev) && spared c evs

-- The thread that waits for this process and is to hear of its exit.
abbrev pub waiter_of : Option Process → Option ℕ
waiter_of none = none
waiter_of (some p) = if p.detached then none else p.exit_waiter

module _ (c t : ℕ) (ps : Processes) (parked : waiter_of (lookup c ps) ≡ some t) where
  wait_live-waits : (k pid tid : ℕ) → waiter_of (lookup c (wait_live ps k pid tid).0) ≡ some t
  unfolding wait_live
  wait_live-waits k pid tid = grind (arith, lookup-insert, ==_iff k c)

  run_wait_any_child-waits :
      (pid tid : ℕ) → waiter_of (lookup c (run_wait_any_child ps pid tid).0) ≡ some t
  unfolding run_wait_any_child
  run_wait_any_child-waits pid tid = grind (arith, lookup-insert, ==_iff pid c)

  run_wait_pid_req-waits :
      (k pid tid : ℕ) → waiter_of (lookup c (run_wait_pid_req ps k pid tid).0) ≡ some t
  unfolding run_wait_pid_req
  run_wait_pid_req-waits k pid tid =
      grind (arith, lookup-insert, ==_iff pid c, wait_live-waits, run_wait_any_child-waits)

  exit_process-waits :
      (k code : ℕ) → (k == c) ≡ false → waiter_of (lookup c (exit_process ps k code).0) ≡ some t
  unfolding exit_process report_exit
  exit_process-waits k code other = grind (arith, lookup-insert, lookup-remove_ne, ==_iff)

  step-waits : (ev : Event) → ends c ev ≡ false → waiter_of (lookup c (step ps ev).0) ≡ some t
  unfolding step
  step-waits (spawned p) other = rw (lookup-insert p.pid c p ps, other) parked
  step-waits (waits k pid tid) other = run_wait_pid_req-waits k pid tid
  step-waits (exits k code) other = exit_process-waits k code other

run-waits :
    (c t : ℕ) (ps : Processes) (evs : List Event)
    → waiter_of (lookup c ps) ≡ some t
    → spared c evs ≡ true
    → waiter_of (lookup c (run ps evs).0) ≡ some t
unfolding run
run-waits c t ps [] parked spare = parked
run-waits c t ps (ev ∷ evs) parked spare =
    run-waits c t (step ps ev).0 evs (step-waits c t ps parked ev (ground arith)) (ground arith)

-- The exit code that a process has yet to fetch for a child.
abbrev pub owed : ℕ → Option Process → Option ℕ
owed c none = none
owed c (some q) = lookup c q.dead_children

exit-replies :
    (c t code : ℕ) (ps : Processes)
    → waiter_of (lookup c ps) ≡ some t
    → (exit_process ps c code).1 ≡ (t, 0 ∷ as_isize code ∷ []) ∷ []
unfolding exit_process report_exit
exit-replies c t code ps parked = grind arith

parks :
    (ps : Processes) (c pid tid : ℕ) (p : Process)
    → c < 2 ^ 16
    → lookup c ps ≡ some p
    → p.parent_pid ≡ pid
    → p.detached ≡ false
    → p.exit_waiter ≡ none
    → owed c (lookup pid ps) ≡ none
    → ((run_wait_pid_req ps c pid tid).1 ≡ [])
      × (waiter_of (lookup c (run_wait_pid_req ps c pid tid).0) ≡ some tid)
unfolding run_wait_pid_req wait_live
parks ps c pid tid p small at mine seen free nothing =
    let whole : c % 2 ^ 16 ≡ c = omega arith in
    let known : (c == any_child) ≡ false = ground arith in grind (arith, lookup-insert)

-- A thread of the parent waits for a live child that is not detached and for which nobody waits, and
-- the parent has no exit code to fetch under the child's number (left there by a dead child that had
-- the number before). The thread gets no answer at once. Whatever happens after that, as long as the child does not end and no other
-- process takes its number: when the child exits, that thread and no other is told, with the code.
pub wait_then_exit :
    (ps : Processes) (c pid tid code : ℕ) (p : Process) (evs : List Event)
    → c < 2 ^ 16
    → lookup c ps ≡ some p
    → p.parent_pid ≡ pid
    → p.detached ≡ false
    → p.exit_waiter ≡ none
    → owed c (lookup pid ps) ≡ none
    → spared c evs ≡ true
    → ((run_wait_pid_req ps c pid tid).1 ≡ [])
      × ((exit_process (run (run_wait_pid_req ps c pid tid).0 evs).0 c code).1
          ≡ (tid, 0 ∷ as_isize code ∷ []) ∷ [])
wait_then_exit ps c pid tid code p evs small at mine seen free nothing spare =
    let now = parks ps c pid tid p small at mine seen free nothing in
    (now.0, exit-replies c tid code _ (run-waits c tid _ evs now.1 spare))
