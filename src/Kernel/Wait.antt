-- ===== src/Kernel/Wait.antt =====
-- Waiting for a child and the report of an exit, kmain/src/kernel/mod.rs, with the boundary check of
-- `wait_pid` in orbit-core/src/syscall.rs. The selector of a wait is an `i32`.
pub mod Accounts
pub mod Debts
pub mod Order
pub mod Tables
pub mod Tests
use orbit.Base.{
  ℕ, ◌+◌, ◌-◌, ◌%◌, ◌^◌, Bool, true, false, not, ltb, leb, ◌==◌, ◌&&◌, ◌||◌, if◌then◌else◌, List,
  [], ◌∷◌, ◌++◌, Option, none, some, retain,
}
use orbit.Base.Map.{lookup, insert, remove}
use orbit.Outcome.{SyscallOutcome, return, park_for_publish}
use orbit.Kernel.Processes.{
  Process, Processes, Reply, to_ret, as_isize, eperm, echild, eagain, ebusy, einval, new,
}

-- `-1` as an `i32`.
abbrev pub any_child : ℕ
any_child = 2 ^ 32 - 1

-- `wait_pid_req`: `reg` is the argument's register and `full` whether the work queue is. The second
-- result is the selector that is queued.
unfoldable pub wait_pid_req : ℕ → ℕ → Bool → SyscallOutcome × Option ℕ
unfolding to_ret
wait_pid_req pid reg full =
    let target = reg % 2 ^ 32 in
    if target == 0 || leb (2 ^ 31) target && ltb target any_child
    then (return (to_ret einval), none)
    else if ltb target (2 ^ 31) && target == pid
    then (return (to_ret einval), none)
    else if full
    then (return (to_ret eagain), none)
    else (park_for_publish, some target)

-- `parent.dead_children.remove(&target_pid)`, if the caller's process is there.
abbrev pub reaped : Processes → ℕ → ℕ → Option (Processes × ℕ)
reaped ps caller_pid target_pid = elim (lookup caller_pid ps) [
  | none ↦ none
  | some parent ↦ elim (lookup target_pid parent.dead_children) [
    | none ↦ none
    | some code ↦ some (
      insert caller_pid (record parent { dead_children = remove target_pid parent.dead_children })
          ps,
      code,
    )
  ]
]

-- What follows for a target that is not among the dead.
unfoldable pub wait_live : Processes → ℕ → ℕ → ℕ → Processes × List Reply
unfolding to_ret
wait_live ps target_pid caller_pid caller_tid = elim (lookup target_pid ps) [
  | none ↦ (ps, (caller_tid, to_ret echild ∷ 0 ∷ []) ∷ [])
  | some target ↦
      if not (target.parent_pid == caller_pid)
      then (ps, (caller_tid, to_ret eperm ∷ 0 ∷ []) ∷ [])
      else elim target.exit_waiter [
        | some tid ↦ (ps, (caller_tid, to_ret ebusy ∷ 0 ∷ []) ∷ [])
        | none ↦ (insert target_pid (record target { exit_waiter = some caller_tid }) ps, [])
      ]
]

abbrev pub has_live_child : ℕ → Processes → Bool
has_live_child pid [] = false
has_live_child pid ((k, p) ∷ ps) = p.parent_pid == pid && not p.detached || has_live_child pid ps

unfoldable pub run_wait_any_child : Processes → ℕ → ℕ → Processes × List Reply
unfolding to_ret as_isize
run_wait_any_child ps caller_pid caller_tid = elim (lookup caller_pid ps) [
  | none ↦ (ps, (caller_tid, to_ret echild ∷ 0 ∷ []) ∷ [])
  | some parent ↦ elim parent.dead_children [
    | (pid, code) ∷ rest ↦ (
      insert caller_pid (record parent { dead_children = rest }) ps,
      (caller_tid, pid ∷ as_isize code ∷ []) ∷ [],
    )
    | [] ↦ elim parent.any_child_waiter [
      | some tid ↦ (ps, (caller_tid, to_ret ebusy ∷ 0 ∷ []) ∷ [])
      | none ↦
          if has_live_child caller_pid ps
          then (insert caller_pid (record parent { any_child_waiter = some caller_tid }) ps, [])
          else (ps, (caller_tid, to_ret echild ∷ 0 ∷ []) ∷ [])
    ]
  ]
]

unfoldable pub run_wait_pid_req : Processes → ℕ → ℕ → ℕ → Processes × List Reply
unfolding run_wait_any_child wait_live as_isize
run_wait_pid_req ps selector caller_pid caller_tid =
    if selector == any_child
    then run_wait_any_child ps caller_pid caller_tid
    else elim (reaped ps caller_pid (selector % 2 ^ 16)) [
      | some (ps', code) ↦ (ps', (caller_tid, 0 ∷ as_isize code ∷ []) ∷ [])
      | none ↦ wait_live ps (selector % 2 ^ 16) caller_pid caller_tid
    ]

-- The part of `dealloc_process` that reports the exit of a process that the table no longer holds.
unfoldable pub report_exit : Processes → Process → Processes × List Reply
unfolding as_isize
report_exit ps p = if p.detached then (ps, []) else elim p.exit_waiter [
  | some waiter_tid ↦ (ps, (waiter_tid, 0 ∷ as_isize p.exit_code ∷ []) ∷ [])
  | none ↦ if p.parent_pid == 0 then (ps, []) else elim (lookup p.parent_pid ps) [
    | none ↦ (ps, [])
    | some parent ↦ elim parent.any_child_waiter [
      | some waiter_tid ↦ (
        insert p.parent_pid (record parent { any_child_waiter = none }) ps,
        (waiter_tid, p.pid ∷ as_isize p.exit_code ∷ []) ∷ [],
      )
      | none ↦ (
        insert p.parent_pid
            (record parent { dead_children = insert p.pid p.exit_code parent.dead_children }) ps,
        [],
      )
    ]
  ]
]

-- What the table goes through: a process starts, a thread waits, or a process is reaped.
pub data Event : Type 0 where
  spawned : (p : Process) → Event
  waits : (selector caller_pid caller_tid : ℕ) → Event
  exits : (pid exit_code : ℕ) → Event

-- The end of a process with the code that the reaper gave it.
unfoldable pub exit_process : Processes → ℕ → ℕ → Processes × List Reply
unfolding report_exit
exit_process ps pid code = elim (lookup pid ps) [
  | none ↦ (ps, [])
  | some p ↦ report_exit (remove pid ps) (record p { exit_code = code })
]

unfoldable pub step : Processes → Event → Processes × List Reply
unfolding run_wait_pid_req exit_process
step ps (spawned p) = (insert p.pid p ps, [])
step ps (waits selector caller_pid caller_tid) = run_wait_pid_req ps selector caller_pid caller_tid
step ps (exits pid exit_code) = exit_process ps pid exit_code

unfoldable pub run : Processes → List Event → Processes × List Reply
unfolding step
run ps [] = (ps, [])
run ps (ev ∷ evs) =
    let (ps', replies) = step ps ev in let (end, later) = run ps' evs in (end, replies ++ later)
