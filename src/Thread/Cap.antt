-- ===== src/Thread/Cap.antt =====
-- The capability layer of process/src/cap.rs, over `Thread`: what the hart that runs a thread, and
-- the manager, may do to it. A claim answers whether the state allows the capability; the verbs of
-- the capability are the functions below. `vals.len() <= 4` is a debug assertion, and the release
-- code takes the first four.
use orbit.Base.{
  ℕ, suc, ◌+◌, ◌%◌, ◌^◌, Bool, ◌==◌, ◌||◌, if◌then◌else◌, List, [], ◌∷◌, Option, none, some, take,
  set, get_elem?, bit_or, Run, done, panic, ◌>>=◌,
}
use orbit.Thread.{
  ready, blocking, running, assigned, exited, suspended, as_usize, TrapFrame, FaultInfo, Thread,
  reset_pending, promote_ready_from_parked, take_pending_results,
}

-- `regs[10 + i] = vals[i]`, from register `i` on.
abbrev pub write_regs : List ℕ → ℕ → List ℕ → List ℕ
write_regs regs i [] = regs
write_regs regs i (v ∷ vals) = write_regs (set regs i v) (suc i) vals

abbrev pub write_args : Thread → List ℕ → Thread
write_args t vals = record t { frame = record (t.frame) { regs = write_regs t.frame.regs 10 vals } }

-- The wake reasons become the last reason, and none is left.
abbrev pub consume_wake : Thread → Thread
consume_wake t = record t { wake_override = 0; last_wake_reason = t.wake_override }

-- `epc + 4` on `usize`.
abbrev pub after_ecall : ℕ → ℕ
after_ecall epc = (epc + 4) % 2 ^ 64

-- Each of the commits of `RunningThread` also writes the trap frame that it is given, and returns it.
unfoldable pub commit_return : Thread → ℕ → ℕ → TrapFrame → Thread × TrapFrame
commit_return t ret epc f =
    let f' = record f { regs = set f.regs 10 ret } in
    (record t { frame = f'; pc = after_ecall epc }, f')

unfoldable pub commit_return2 : Thread → ℕ → ℕ → ℕ → TrapFrame → Thread × TrapFrame
commit_return2 t ret0 ret1 epc f =
    let f' = record f { regs = set (set f.regs 10 ret0) 11 ret1 } in
    (record t { frame = f'; pc = after_ecall epc }, f')

abbrev with_ret : Option ℕ → TrapFrame → TrapFrame
with_ret none f = f
with_ret (some r) f = record f { regs = set f.regs 10 r }

unfoldable pub commit_yield : Thread → Option ℕ → ℕ → TrapFrame → Thread × TrapFrame
commit_yield t ret epc f =
    let f' = with_ret ret f in (record t { frame = f'; pc = after_ecall epc }, f')

unfoldable pub commit_yield_retry : Thread → ℕ → TrapFrame → Thread × TrapFrame
commit_yield_retry t epc f = (record t { frame = f; pc = epc }, f)

unfoldable pub set_wake_time : Thread → ℕ → Thread
set_wake_time t wake_time = record t { wake_time = wake_time }

unfoldable pub save_trap_frame : Thread → TrapFrame → ℕ → Thread
save_trap_frame t f pc = record t { frame = f; pc = pc }

unfoldable pub set_fault : Thread → FaultInfo → Thread
set_fault t info = record t { fault_info = some info }

unfoldable pub account_syscall : Thread → ℕ → Thread
account_syscall t elapsed = record t {
  syscall_count = (t.syscall_count + 1) % 2 ^ 64;
  syscall_ticks = (t.syscall_ticks + elapsed) % 2 ^ 64;
}

-- `RunningThread::into_runnable`: a panic unless the thread is Ready.
unfoldable pub into_runnable : Thread → Run Thread
into_runnable t = if t.state == as_usize ready then done t else panic

-- `RunningThread::resume_with`: the own hart's resume keeps the pending slot.
unfoldable pub resume_with : Thread → List ℕ → Run Thread
unfolding promote_ready_from_parked
resume_with t vals = promote_ready_from_parked (write_args t (take 4 vals))

-- `RunningThread::try_claim_own_pending`: `none` if nothing was published.
unfoldable pub try_claim_own_pending : Thread → Run (Option Thread)
unfolding take_pending_results promote_ready_from_parked
try_claim_own_pending t = elim (take_pending_results t) [
  | none ↦ done none
  | some (rets, t') ↦ promote_ready_from_parked (write_args t' rets) >>= λ u. done (some u)
]

-- `ManagerThread`.
unfoldable pub claim_parked : Thread → Bool
claim_parked t = t.state == as_usize blocking || t.state == as_usize suspended

unfoldable pub claim_ready : Thread → Bool
claim_ready t = t.state == as_usize ready

unfoldable pub claim_exited : Thread → Bool
claim_exited t = t.state == as_usize exited

unfoldable pub frame_reg : Thread → ℕ → Option ℕ
frame_reg t i =
    if t.state == as_usize running || t.state == as_usize assigned
    then none
    else get_elem? t.frame.regs i

unfoldable pub note_wake : Thread → ℕ → Thread
note_wake t reason = record t { wake_override = bit_or t.wake_override reason }

unfoldable pub set_permissions : Thread → ℕ → ℕ → Thread
set_permissions t perms role = record t { perms = perms; perm_role = role }

unfoldable pub set_uid_triplet : Thread → ℕ → ℕ → ℕ → Thread
set_uid_triplet t uid euid suid = record t { uid = uid; euid = euid; suid = suid }

unfoldable pub set_gid_triplet : Thread → ℕ → ℕ → ℕ → Thread
set_gid_triplet t gid egid sgid = record t { gid = gid; egid = egid; sgid = sgid }

unfoldable pub mark_exited : Thread → Thread
mark_exited t = record t { state = as_usize exited }

-- `ParkedMut`: the verbs that turn a parked thread into a `Runnable`.
unfoldable pub write_rets : Thread → List ℕ → Run Thread
unfolding reset_pending promote_ready_from_parked
write_rets t vals = promote_ready_from_parked (reset_pending (write_args t (take 4 vals)))

unfoldable pub resume_published : Thread → Run (Option Thread)
unfolding take_pending_results promote_ready_from_parked
resume_published t = elim (take_pending_results t) [
  | none ↦ done none
  | some (rets, t') ↦
      promote_ready_from_parked (consume_wake (write_args t' rets)) >>= λ u. done (some u)
]

unfoldable pub promote_wake : Thread → Run Thread
unfolding promote_ready_from_parked
promote_wake t = promote_ready_from_parked (consume_wake t)
