-- ===== src/Kernel/Wait/Tests.antt =====
-- A parent and its child on concrete histories: runs of Wait, and the theorems applied.
use orbit.Base.{
  ℕ, ◌+◌, ◌≤◌, ◌≡◌, refl, true, false, List, [], ◌∷◌, none, some, arith, length, ==_iff,
}
use orbit.Base.Map.{total, lookup, insert, remove}
use orbit.Outcome.{return, park_for_publish}
use orbit.Kernel.Processes.{Process, Processes, new, as_isize, to_ret, next_pid}
use orbit.Kernel.Wait.{
  any_child, wait_pid_req, run_wait_pid_req, exit_process, Event, spawned, waits, exits, step, run,
}
use orbit.Kernel.Pids.{is_free, next_pid-is_free}
use orbit.Kernel.Wait.Order.{wait_then_exit}
use orbit.Kernel.Wait.Debts.{exit_then_wait}
use orbit.Kernel.Wait.Tables.{IsTable}
use orbit.Kernel.Wait.Accounts.{run_accounts, waiting, unfetched, codes, asked, ended, sum_of}

abbrev pub child_of : ℕ → ℕ → Process
child_of parent pid = record {
  pid = pid;
  parent_pid = parent;
  exit_code = 0;
  exit_finalized = false;
  exit_waiter = none;
  any_child_waiter = none;
  dead_children = [];
  detached = false;
  threads = [];
  uid = 0;
  euid = 0;
  suid = 0;
  gid = 0;
  egid = 0;
  sgid = 0;
  groups = [];
  login_name = none;
}

new_child : new 3 2 ≡ child_of 2 3
unfolding new
new_child = refl

abbrev family : Processes
family = (2, child_of 1 2) ∷ (3, child_of 2 3) ∷ []

family-IsTable : IsTable family
unfolding lookup
family-IsTable = record {
  sorted = omega arith;
  number = λ k. ground (arith, ==_iff 2 k, ==_iff 3 k);
}

abbrev between : List Event
between = spawned (child_of 2 7) ∷ waits any_child 2 41 ∷ exits 7 5 ∷ []

wait_then_exit_example :
    ((run_wait_pid_req family 3 2 40).1 ≡ [])
    × ((exit_process (run (run_wait_pid_req family 3 2 40).0 between).0 3 9).1
        ≡ (40, 0 ∷ as_isize 9 ∷ []) ∷ [])
unfolding lookup
wait_then_exit_example =
    wait_then_exit family 3 2 40 9 (child_of 2 3) between (omega arith) refl refl refl refl refl
      refl

abbrev meanwhile : List Event
meanwhile = spawned (child_of 2 7) ∷ waits 7 2 41 ∷ exits 7 5 ∷ []

exit_then_wait_example :
    ((exit_process family 3 9).1 ≡ [])
    × ((run_wait_pid_req (run (exit_process family 3 9).0 meanwhile).0 3 2 40).1
        ≡ (40, 0 ∷ as_isize 9 ∷ []) ∷ [])
unfolding lookup
exit_then_wait_example =
    exit_then_wait family 3 2 40 9 (child_of 2 3) (child_of 1 2) meanwhile family-IsTable
      (omega arith) refl refl refl refl (omega arith) (omega arith) refl refl refl

abbrev history : List Event
history = waits 3 2 40 ∷ waits 3 2 41 ∷ exits 3 9 ∷ waits any_child 2 42 ∷ []

run_accounts_example :
    (length (run family history).1 + total waiting (run family history).0
      ≤ total waiting family + sum_of asked history)
    × (codes (run family history).1 + total unfetched (run family history).0
        ≤ total unfetched family + sum_of ended history)
run_accounts_example = run_accounts family history family-IsTable

-- The second waiter is refused, the first is told, and the last has no child left.
answers_so_far :
    (run family history).1
    ≡ (41, to_ret 16 ∷ 0 ∷ []) ∷ (40, 0 ∷ 9 ∷ []) ∷ (42, to_ret 10 ∷ 0 ∷ []) ∷ []
unfolding run step run_wait_pid_req exit_process lookup insert remove
answers_so_far = refl

-- The thread that waits for any child stays parked when the last child's exit goes to another thread.
forgotten_waiter :
    run family (waits any_child 2 41 ∷ waits 3 2 40 ∷ exits 3 9 ∷ [])
    ≡ ((2, record (child_of 1 2) { any_child_waiter = some 41 }) ∷ [], (40, 0 ∷ 9 ∷ []) ∷ [])
unfolding run step run_wait_pid_req exit_process lookup insert remove
forgotten_waiter = refl

-- A wait for a detached child is accepted, and its exit tells nobody.
detached_unheard :
    (run
      ((2, child_of 1 2) ∷ (3, record (child_of 2 3) { detached = true }) ∷ [])
      (waits 3 2 40 ∷ exits 3 9 ∷ [])).1
    ≡ []
unfolding run step run_wait_pid_req exit_process lookup insert remove
detached_unheard = refl

-- A number that is used again before the old code was fetched: the wait for the live child is answered
-- with the code of the dead one.
stale_code :
    (run family (exits 3 9 ∷ spawned (child_of 2 3) ∷ waits 3 2 40 ∷ [])).1 ≡ (40, 0 ∷ 9 ∷ []) ∷ []
unfolding run step run_wait_pid_req exit_process lookup insert remove
stale_code = refl

-- The number after 65535 is 0, which elsewhere stands for no process.
wraps_to_zero : next_pid 65535 family ≡ some 0
unfolding next_pid lookup
wraps_to_zero = refl

-- A selector above 65535 passes the boundary and names the child whose number its low half spells.
wide_selector :
    (wait_pid_req 2 65539 false ≡ (park_for_publish, some 65539))
    × ((run_wait_pid_req family 65539 2 40).0 ≡ (run_wait_pid_req family 3 2 40).0)
unfolding wait_pid_req run_wait_pid_req lookup insert
wide_selector = (refl, refl)

own_number : wait_pid_req 2 2 false ≡ (return (to_ret 22), none)
unfolding wait_pid_req
own_number = refl

next_pid-is_free_example : is_free family (next_pid 2 family) ≡ true
unfolding lookup
next_pid-is_free_example = next_pid-is_free 2 4 family (omega arith) (omega arith) refl
