-- ===== src/Kernel/Wait/Debts.antt =====
-- What `report_exit` leaves behind for a parent that is not waiting stays until the parent asks.
use orbit.Base.{
  ℕ, ◌%◌, ◌^◌, ◌<◌, ◌≡◌, ◌≢◌, Bool, true, false, not, ◌==◌, ◌&&◌, ◌||◌, List, [], ◌∷◌, none, some,
  arith, ==_iff, ==_ne, sym, ◌∙◌,
}
use orbit.Base.Map.{lookup, remove, lookup-insert, lookup-remove_ne}
use orbit.Kernel.Processes.{Process, Processes, as_isize}
use orbit.Kernel.Wait.{
  any_child, wait_live, run_wait_any_child, run_wait_pid_req, report_exit, exit_process, Event,
  spawned, waits, exits, step, run,
}
use orbit.Kernel.Wait.Order.{owed}
use orbit.Kernel.Wait.Tables.{IsTable, number_of, step-IsTable}

-- The event starts or ends the parent or the child, or is a wait of the parent that the child meets.
abbrev pub concerns : ℕ → ℕ → Event → Bool
concerns pid c (spawned p) = p.pid == pid || p.pid == c
concerns pid c (waits selector caller_pid caller_tid) =
    caller_pid == pid && (selector == any_child || selector % 2 ^ 16 == c)
concerns pid c (exits k exit_code) = k == pid || k == c

abbrev pub unconcerned : ℕ → ℕ → List Event → Bool
unconcerned pid c [] = true
unconcerned pid c (ev ∷ evs) = not (concerns pid c ev) && unconcerned pid c evs

module _ (ps : Processes) (table : IsTable ps) where
  module _ (pid c code : ℕ) (debt : owed c (lookup pid ps) ≡ some code) where
    wait-owed :
        (selector caller tid : ℕ)
        → concerns pid c (waits selector caller tid) ≡ false
        → owed c (lookup pid (run_wait_pid_req ps selector caller tid).0) ≡ some code
    unfolding run_wait_pid_req wait_live run_wait_any_child
    wait-owed selector caller tid away = grind (arith, lookup-insert, lookup-remove_ne, ==_iff)

    exit-owed :
        (k status : ℕ)
        → concerns pid c (exits k status) ≡ false
        → owed c (lookup pid (exit_process ps k status).0) ≡ some code
    unfolding exit_process report_exit
    exit-owed k status away =
        grind (arith, lookup-insert, lookup-remove_ne, ==_iff, number_of ps table)

    step-owed :
        (ev : Event) → concerns pid c ev ≡ false → owed c (lookup pid (step ps ev).0) ≡ some code
    unfolding step
    step-owed (spawned p) away = grind (arith, lookup-insert)
    step-owed (waits selector caller tid) away = wait-owed selector caller tid away
    step-owed (exits k status) away = exit-owed k status away

run-owed :
    (pid c code : ℕ) (ps : Processes) (evs : List Event)
    → IsTable ps
    → owed c (lookup pid ps) ≡ some code
    → unconcerned pid c evs ≡ true
    → owed c (lookup pid (run ps evs).0) ≡ some code
unfolding run
run-owed pid c code ps [] table debt away = debt
run-owed pid c code ps (ev ∷ evs) table debt away =
    run-owed pid c code (step ps ev).0 evs (step-IsTable ps table ev)
      (step-owed ps table pid c code debt ev (ground arith)) (ground arith)

-- A parent that is owed a code gets it when it asks for that child.
wait-pays :
    (ps : Processes) (c pid tid code : ℕ)
    → c < 2 ^ 16
    → owed c (lookup pid ps) ≡ some code
    → (run_wait_pid_req ps c pid tid).1 ≡ (tid, 0 ∷ as_isize code ∷ []) ∷ []
unfolding run_wait_pid_req
wait-pays ps c pid tid code small debt =
    let whole : c % 2 ^ 16 ≡ c = omega arith in
    let known : (c == any_child) ≡ false = ground arith in grind arith

exit-owes :
    (ps : Processes) (c pid code : ℕ) (p q : Process)
    → IsTable ps
    → lookup c ps ≡ some p
    → p.detached ≡ false
    → p.exit_waiter ≡ none
    → p.parent_pid ≡ pid
    → pid ≢ 0
    → pid ≢ c
    → lookup pid ps ≡ some q
    → q.any_child_waiter ≡ none
    → ((exit_process ps c code).1 ≡ [])
      × (owed c (lookup pid (exit_process ps c code).0) ≡ some code)
unfolding exit_process report_exit
exit-owes ps c pid code p q table at seen free mine known apart there idle =
    let still : lookup pid (remove c ps) ≡ some q =
      lookup-remove_ne c pid ps (==_ne c pid (λ e. apart (sym e))) ∙ there in
    grind (arith, lookup-insert, number_of ps table)

-- A child that is not detached exits while nobody waits for it and its parent does not wait for any
-- child: nobody is told. Whatever happens after that, as long as neither process starts again under
-- its number or ends, and no wait of the parent meets the child: the parent's wait for the child is
-- answered at once, with the code.
pub exit_then_wait :
    (ps : Processes) (c pid tid code : ℕ) (p q : Process) (evs : List Event)
    → IsTable ps
    → c < 2 ^ 16
    → lookup c ps ≡ some p
    → p.detached ≡ false
    → p.exit_waiter ≡ none
    → p.parent_pid ≡ pid
    → pid ≢ 0
    → pid ≢ c
    → lookup pid ps ≡ some q
    → q.any_child_waiter ≡ none
    → unconcerned pid c evs ≡ true
    → ((exit_process ps c code).1 ≡ [])
      × ((run_wait_pid_req (run (exit_process ps c code).0 evs).0 c pid tid).1
          ≡ (tid, 0 ∷ as_isize code ∷ []) ∷ [])
exit_then_wait ps c pid tid code p q evs table small at seen free mine known apart there idle away =
    let left = exit-owes ps c pid code p q table at seen free mine known apart there idle in
    let ended : IsTable (exit_process ps c code).0 =
      unfold step in step-IsTable ps table (exits c code) in
    let kept = run-owed pid c code _ evs ended left.1 away in
    (left.0, wait-pays _ c pid tid code small kept)
