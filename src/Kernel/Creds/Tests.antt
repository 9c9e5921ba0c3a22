-- ===== src/Kernel/Creds/Tests.antt =====
-- A process with two threads that gives up root: runs of Creds, and the theorems applied.
use orbit.Base.{◌≡◌, refl, List, [], ◌∷◌, none, some, arith, ◌==◌, if◌then◌else◌}
use orbit.Base.Map.{lookup, insert}
use orbit.Thread.Tests.{parked}
use orbit.Store.{Store}
use orbit.Manager.{Manager}
use orbit.Kernel.Processes.{Process, Processes, to_ret}
use orbit.Kernel.Wait.Tests.{child_of}
use orbit.Kernel.Creds.{
  Call, setuid, setgid, setgroups, copied, run, run_setuid, with_uid, with_gid,
}
use orbit.Kernel.Creds.Confined.{Confined, run-Confined}
use orbit.Kernel.Creds.Stamps.{Synced}
use orbit.Kernel.Creds.Synced.{run-Synced}

abbrev login : Process
login = record (child_of 1 2) { threads = 20 ∷ 21 ∷ [] }

abbrev table : Processes
table = (2, login) ∷ (3, record (child_of 1 3) { threads = 30 ∷ [] }) ∷ []

abbrev threads : Store
threads q = record parked {
  pid = if q == 130 then 3 else 2;
  tid = q;
  uid = 0;
  euid = 0;
  suid = 0;
  gid = 0;
  egid = 0;
  sgid = 0;
}

abbrev manager : Manager
manager = record {
  threads = (20, 120) ∷ (21, 121) ∷ (30, 130) ∷ [];
  ready = [];
  sleeping = [];
  net_thread_tid = none;
  gpu_thread_tid = none;
  serial_thread_tid = none;
}

-- The gid and the groups go first, since without root they stay.
abbrev drop : List Call
drop =
    setgid 2 100
    ∷ setgroups 2 1 (copied (100 ∷ []))
    ∷ setuid 2 1000
    ∷ setuid 2 0
    ∷ setgid 2 0
    ∷ setgroups 2 0 (copied [])
    ∷ []

table-Synced : Synced manager table threads
unfolding lookup
table-Synced = omega arith

run-Synced_example :
    Synced manager (run manager (table, threads) drop).0 (run manager (table, threads) drop).1
run-Synced_example = run-Synced manager table threads drop (omega arith) table-Synced

abbrev user : Process
user = record login { uid = 1000; euid = 1001; suid = 1001; gid = 100; egid = 100; sgid = 100 }

run-Confined_example :
    Confined user (lookup 2 (run manager ((2, user) ∷ [], threads) (setuid 2 1000 ∷ drop)).0)
unfolding lookup
run-Confined_example =
    run-Confined manager user 2 ((2, user) ∷ []) threads (setuid 2 1000 ∷ drop) refl refl

-- The effective id alone moves, and not back to root.
dropped :
    lookup 2 (run manager (table, threads) drop).0
    ≡ some (record login {
      uid = 1000;
      euid = 1000;
      suid = 1000;
      gid = 100;
      egid = 100;
      sgid = 100;
      groups = 100 ∷ [];
    })
unfolding run lookup insert with_uid with_gid
dropped = refl

refused : (run_setuid ((2, user) ∷ []) manager threads 2 7).2 ≡ to_ret 1
unfolding run_setuid lookup with_uid
refused = refl
