-- ===== src/Outcome.antt =====
-- orbit-core/src/lib.rs: what the trap shim does with the outcome of a syscall handler, and
-- orbit-core/src/trap.rs: when a trap frame is saved to the thread.
pub mod Shape
mod Tests
use orbit.Base.{ℕ, ◌+◌, ◌-◌, ◌^◌, Bool, true, false, ◌==◌, ◌||◌, if◌then◌else◌, Option, none, some}
use orbit.Thread.{
  Spp, user, supervisor, Thread, TrapFrame, ThreadState, ready, blocking, running, suspended,
  as_usize,
}
use orbit.Thread.Cap.{
  commit_return, commit_return2, commit_yield, commit_yield_retry, set_wake_time, save_trap_frame,
}

pub data SyscallOutcome : Type 0 where
  return : (ret : ℕ) → SyscallOutcome
  return2 : (ret0 ret1 : ℕ) → SyscallOutcome
  done_reschedule : (ret : ℕ) → SyscallOutcome
  sleep_until : (deadline : ℕ) → SyscallOutcome
  park_for_publish : SyscallOutcome
  retry_on_doorbell : SyscallOutcome
  retry_until_deadline : (deadline : ℕ) → SyscallOutcome

pub data ShimAction : Type 0 where
  resume : ShimAction
  yield_to : ThreadState → ShimAction

abbrev pub usize_max : ℕ
usize_max = 2 ^ 64 - 1

abbrev pub is_user : Spp → Bool
is_user user = true
is_user supervisor = false

unfoldable pub commit_allowed : Thread → Bool
commit_allowed t =
    if is_user t.mode
    then t.state == as_usize running
      || t.state == as_usize suspended
      || t.state == as_usize blocking
    else false

-- The commit of each outcome: the thread, the frame and the action.
commit : SyscallOutcome → Thread → TrapFrame → ℕ → ShimAction × Thread × TrapFrame
unfolding commit_return commit_return2 commit_yield commit_yield_retry set_wake_time
commit (return ret) t f epc = let (t', f') = commit_return t ret epc f in (resume, t', f')
commit (return2 ret0 ret1) t f epc =
    let (t', f') = commit_return2 t ret0 ret1 epc f in (resume, t', f')
commit (done_reschedule ret) t f epc =
    let (t', f') = commit_yield t (some ret) epc f in (yield_to ready, t', f')
commit (sleep_until deadline) t f epc =
    let (t', f') = commit_yield t (some 0) epc f in
    (yield_to suspended, set_wake_time t' deadline, f')
commit park_for_publish t f epc =
    let (t', f') = commit_yield t none epc f in (yield_to blocking, t', f')
commit retry_on_doorbell t f epc =
    let (t', f') = commit_yield_retry t epc f in
    (yield_to suspended, set_wake_time t' usize_max, f')
commit (retry_until_deadline deadline) t f epc =
    let (t', f') = commit_yield_retry t epc f in (yield_to suspended, set_wake_time t' deadline, f')

unfoldable pub apply_syscall_outcome :
    SyscallOutcome → Thread → TrapFrame → ℕ → ShimAction × Thread × TrapFrame
unfolding commit_allowed commit
apply_syscall_outcome outcome t f epc =
    if commit_allowed t then commit outcome t f epc else (resume, t, f)

abbrev pub same_mode : Spp → Bool → Bool
same_mode user from_user = from_user
same_mode supervisor from_user = if from_user then false else true

-- `update_trap_frame`.
unfoldable pub update_trap_frame : Thread → ℕ → TrapFrame → Bool → Thread × TrapFrame
unfolding save_trap_frame
update_trap_frame t epc f from_user =
    let f' = record f { asid = t.pid } in
    if same_mode t.mode from_user
    then if t.state == as_usize running
        || t.state == as_usize suspended
        || t.state == as_usize blocking
      then (save_trap_frame t f' epc, f')
      else (t, f')
    else (t, f')
