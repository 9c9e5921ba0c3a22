-- ===== src/Kernel/Processes.antt =====
-- The process table of kmain/src/kernel/mod.rs with the fields of `Process` (process/src/lib.rs) that
-- its system calls read, and the replies by which a parked thread learns its result. An `i32` is its
-- bit pattern in 32 bits, an `isize` its bit pattern in 64.
use orbit.Base.{
  ℕ, zero, suc, ◌+◌, ◌-◌, ◌%◌, ◌^◌, Bool, false, ltb, ◌==◌, if◌then◌else◌, List, [], Option, none,
  some,
}
use orbit.Base.Map.{contains_key}

pub record Process : Type 0 where
  pub pid : ℕ
  pub parent_pid : ℕ
  pub exit_code : ℕ
  pub exit_finalized : Bool
  pub exit_waiter : Option ℕ
  pub any_child_waiter : Option ℕ
  pub dead_children : List (ℕ × ℕ)
  pub detached : Bool
  pub threads : List ℕ
  pub uid : ℕ
  pub euid : ℕ
  pub suid : ℕ
  pub gid : ℕ
  pub egid : ℕ
  pub sgid : ℕ
  pub groups : List ℕ
  pub login_name : Option (List ℕ)

abbrev pub Processes : Type 0
Processes = List (ℕ × Process)

unfoldable pub new : ℕ → ℕ → Process
new pid parent_pid = record {
  pid = pid;
  parent_pid = parent_pid;
  exit_code = 0;
  exit_finalized = false;
  exit_waiter = none;
  any_child_waiter = none;
  dead_children = [];
  detached = false;
  threads = [];
  uid = 0;
  euid = 0;
  suid = 0;
  gid = 0;
  egid = 0;
  sgid = 0;
  groups = [];
  login_name = none;
}

-- One call of `publish_pending_for_tid`: the thread and the values.
abbrev pub Reply : Type 0
Reply = ℕ × List ℕ

-- `Errno::new(code).to_ret()`.
unfoldable pub to_ret : ℕ → ℕ
to_ret code = 2 ^ 64 - code

abbrev pub eperm : ℕ
eperm = 1

abbrev pub esrch : ℕ
esrch = 3

abbrev pub ebadf : ℕ
ebadf = 9

abbrev pub echild : ℕ
echild = 10

abbrev pub eagain : ℕ
eagain = 11

abbrev pub efault : ℕ
efault = 14

abbrev pub ebusy : ℕ
ebusy = 16

abbrev pub einval : ℕ
einval = 22

-- `code as isize` of an `i32`.
unfoldable pub as_isize : ℕ → ℕ
as_isize code = if ltb code (2 ^ 31) then code else code + (2 ^ 64 - 2 ^ 32)

-- One round of the loop after another, from `next` on; `none` is the end of the fuel.
unfoldable pub search_pid : ℕ → ℕ → Processes → Option ℕ
search_pid zero next ps = none
search_pid (suc fuel) next ps =
    let rest = search_pid fuel (if (next + 1) % 2 ^ 16 == 0 then 1 else (next + 1) % 2 ^ 16) ps in
    if contains_key next ps then rest else some next

-- The pid is `current_process_id` afterwards, too.
unfoldable pub next_pid : ℕ → Processes → Option ℕ
unfolding search_pid
next_pid current_process_id ps = search_pid (2 ^ 16) ((current_process_id + 1) % 2 ^ 16) ps
