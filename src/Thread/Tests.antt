-- ===== src/Thread/Tests.antt =====
-- The calls of process/src/lib.rs and process/src/cap.rs at one thread.
use orbit.Base.{◌≡◌, refl, true, List, [], ◌∷◌, none, some, replicate, arith, done}
use orbit.Thread.{
  Thread, ThreadInit, TrapFrame, new, user, as_usize, ready, blocking, assigned, running, exited,
  publish_results, take_pending_results, transition_to,
}
use orbit.Thread.Cap.{write_regs, resume_published, write_rets, promote_wake, claim_parked}
use orbit.Thread.Resume.{publish_then_resume}
use orbit.Thread.Lifecycle.{Call, call, run, edge, call-edge}

abbrev pub blank : TrapFrame
blank = record { regs = replicate 32 0; fregs = replicate 32 0; asid = 0; scratch = 0 }

abbrev init : ThreadInit
init = record {
  entrypoint = 0x1000;
  mode = user;
  tid = 7;
  pid = 3;
  frame = blank;
  slot = none;
  allowed_affinity = 15;
  affinity = 1;
  perms = 0;
  role = 0;
  uid = 0;
  euid = 0;
  suid = 0;
  gid = 0;
  egid = 0;
  sgid = 0;
  stdout_redirect = none;
}

abbrev fresh : Thread
unfolding new
fresh = new init

-- Dispatched, run, and parked for a publication.
abbrev park : List Call
park = Call.try_assign ∷ Call.transition running ∷ Call.note_wake 2 ∷ Call.transition blocking ∷ []

abbrev pub parked : Thread
parked = record {
  pc = 0x1000;
  state = 1;
  wake_time = 0;
  wake_override = 2;
  last_wake_reason = 0;
  sleep_seq = 0;
  frame = blank;
  mode = user;
  fault_info = none;
  pending_rets = 0 ∷ 0 ∷ 0 ∷ 0 ∷ [];
  perms = 0;
  perm_role = 0;
  allowed_affinity = 15;
  affinity = 1;
  cpu_ticks_total = 0;
  context_switches = 0;
  syscall_count = 0;
  syscall_ticks = 0;
  uid = 0;
  euid = 0;
  suid = 0;
  gid = 0;
  egid = 0;
  sgid = 0;
  tid = 7;
  pid = 3;
  slot = none;
  stdout_redirect = none;
  pending_state = 0;
  pending_ret_count = 0;
  ticks = 0;
}

run-park : run (new init) park ≡ done parked
unfolding run call new transition_to
run-park = unfold orbit.Thread.try_mark_assigned orbit.Thread.Cap.note_wake in refl

abbrev resumed : Thread
resumed = record parked {
  state = 0;
  frame = record blank { regs = write_regs (replicate 32 0) 10 (5 ∷ 6 ∷ []) };
  wake_override = 0;
  last_wake_reason = 2;
}

publish_then_resume_example :
    (u : Thread) × (resume_published (publish_results parked (5 ∷ 6 ∷ [])) ≡ done (some u))
    × (u.frame.regs ≡ resumed.frame.regs)
    × (u.state ≡ 0)
    × (take_pending_results u ≡ none)
    × (u.wake_override ≡ 0)
    × (u.last_wake_reason ≡ 2)
    × (u.pc ≡ 0x1000)
unfolding claim_parked
publish_then_resume_example = publish_then_resume parked (5 ∷ 6 ∷ []) refl (omega arith) refl

call-edge_example : edge 1 4 ≡ true
unfolding call
call-edge_example =
    call-edge parked Call.mark_exited (record parked { state = 4 })
      (unfold orbit.Thread.Cap.mark_exited in refl)

killed_run :
    run (record parked { state = 4 }) (Call.transition ready ∷ Call.try_assign ∷ [])
    ≡ done (record parked { state = 4 })
killed_run = unfold run call transition_to orbit.Thread.try_mark_assigned in refl
