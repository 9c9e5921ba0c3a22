-- ===== src/Thread.antt =====
-- `Thread` of process/src/lib.rs: its state word, the edges that the code lets it take, and the slot
-- in which a manager leaves a parked thread's return values. A word is a number; an `isize` or `i64`
-- is its bit pattern, so that casts between them are the identity. Atomic loads and stores are those
-- of one call that runs alone. Pointers to stacks, tables and channels are left out.
pub mod Cap
pub mod Lifecycle
pub mod Resume
pub mod Tests
use orbit.Base.{
  ℕ, suc, ◌+◌, ◌<◌, ◌^◌, ◌≡◌, Bool, true, false, ◌==◌, ◌||◌, if◌then◌else◌, List, [], ◌∷◌, Option,
  none, some, length, take, set, replicate, min, Run, done, panic,
}

pub data ThreadState : Type 0 where
  ready blocking assigned running exited suspended : ThreadState

-- `state as usize`.
abbrev pub as_usize : ThreadState → ℕ
as_usize ready = 0
as_usize blocking = 1
as_usize assigned = 2
as_usize running = 3
as_usize exited = 4
as_usize suspended = 5

-- `sstatus.SPP`: the mode that a trap came from.
pub data Spp : Type 0 where
  user supervisor : Spp

-- `TrapFrame` of device/src/lib.rs.
pub record TrapFrame : Type 0 where
  pub regs : List ℕ
  pub fregs : List ℕ
  pub asid : ℕ
  pub scratch : ℕ

abbrev pub pending_state_none : ℕ
pending_state_none = 0

abbrev pub pending_state_signaled : ℕ
pending_state_signaled = 1

pub record FaultInfo : Type 0 where
  pub cause : ℕ
  pub epc : ℕ
  pub stval : ℕ

pub record Thread : Type 0 where
  pub pc : ℕ
  pub state : ℕ
  pub wake_time : ℕ
  pub wake_override : ℕ
  pub last_wake_reason : ℕ
  pub sleep_seq : ℕ
  pub frame : TrapFrame
  pub mode : Spp
  pub fault_info : Option FaultInfo
  pub pending_rets : List ℕ
  pub perms : ℕ
  pub perm_role : ℕ
  pub allowed_affinity : ℕ
  pub affinity : ℕ
  pub cpu_ticks_total : ℕ
  pub context_switches : ℕ
  pub syscall_count : ℕ
  pub syscall_ticks : ℕ
  pub uid : ℕ
  pub euid : ℕ
  pub suid : ℕ
  pub gid : ℕ
  pub egid : ℕ
  pub sgid : ℕ
  pub tid : ℕ
  pub pid : ℕ
  pub slot : Option ℕ
  pub stdout_redirect : Option ℕ
  pub pending_state : ℕ
  pub pending_ret_count : ℕ
  pub ticks : ℕ

pub record ThreadInit : Type 0 where
  pub entrypoint : ℕ
  pub mode : Spp
  pub tid : ℕ
  pub pid : ℕ
  pub frame : TrapFrame
  pub slot : Option ℕ
  pub allowed_affinity : ℕ
  pub affinity : ℕ
  pub perms : ℕ
  pub role : ℕ
  pub uid : ℕ
  pub euid : ℕ
  pub suid : ℕ
  pub gid : ℕ
  pub egid : ℕ
  pub sgid : ℕ
  pub stdout_redirect : Option ℕ

unfoldable pub new : ThreadInit → Thread
new init = record {
  pc = init.entrypoint;
  state = as_usize ready;
  wake_time = 0;
  wake_override = 0;
  last_wake_reason = 0;
  sleep_seq = 0;
  frame = init.frame;
  mode = init.mode;
  fault_info = none;
  pending_rets = 0 ∷ 0 ∷ 0 ∷ 0 ∷ [];
  perms = init.perms;
  perm_role = init.role;
  allowed_affinity = init.allowed_affinity;
  affinity = init.affinity;
  cpu_ticks_total = 0;
  context_switches = 0;
  syscall_count = 0;
  syscall_ticks = 0;
  uid = init.uid;
  euid = init.euid;
  suid = init.suid;
  gid = init.gid;
  egid = init.egid;
  sgid = init.sgid;
  tid = init.tid;
  pid = init.pid;
  slot = init.slot;
  stdout_redirect = init.stdout_redirect;
  pending_state = pending_state_none;
  pending_ret_count = 0;
  ticks = 0;
}

unfoldable pub reset_pending : Thread → Thread
reset_pending t = record t { pending_state = pending_state_none; pending_ret_count = 0 }

-- The stores `rets[i] = vals[i]` up to the shorter length.
abbrev pub overwrite : List ℕ → List ℕ → List ℕ
overwrite [] vals = []
overwrite (r ∷ rets) [] = r ∷ rets
overwrite (r ∷ rets) (v ∷ vals) = v ∷ overwrite rets vals

unfoldable pub publish_results : Thread → List ℕ → Thread
publish_results t vals = record t {
  pending_rets = overwrite t.pending_rets vals;
  pending_ret_count = min (length vals) (length t.pending_rets);
  pending_state = pending_state_signaled;
}

-- The values that the slot holds, and the thread with the slot emptied; `none` if nothing was
-- published. `out` of the source has four places.
unfoldable pub take_pending_results : Thread → Option (List ℕ × Thread)
take_pending_results t =
    if t.pending_state == pending_state_signaled
    then some (
      take (min t.pending_ret_count 4) t.pending_rets,
      record t { pending_state = pending_state_none },
    )
    else none

-- `transition_allowed(from, to)`.
unfoldable pub transition_allowed : ℕ → ThreadState → Bool
transition_allowed from assigned = from == as_usize ready
transition_allowed from running = from == as_usize assigned
transition_allowed from ready = from == as_usize running
transition_allowed from blocking = from == as_usize running
transition_allowed from suspended = from == as_usize running
transition_allowed from exited = from == as_usize running

unfoldable pub transition_to : Thread → ThreadState → Run Thread
unfolding transition_allowed
transition_to t to =
    if t.state == as_usize exited
    then done t
    else if transition_allowed t.state to
    then done (record t { state = as_usize to })
    else panic

unfoldable pub promote_ready_from_parked : Thread → Run Thread
promote_ready_from_parked t =
    if t.state == as_usize blocking || t.state == as_usize suspended
    then done (record t { state = as_usize ready })
    else panic

unfoldable pub try_mark_assigned : Thread → Run (Bool × Thread)
try_mark_assigned t =
    if t.state == as_usize ready
    then done (true, record t { state = as_usize assigned })
    else if t.state == as_usize exited
    then done (false, t)
    else panic
