-- ===== src/Outcome/Shape.antt =====
-- The park shapes of orbit-core/src/lib.rs: which state, program counter and deadline each outcome
-- leaves, and when nothing is written.
use orbit.Base.{
  ℕ, ◌≡◌, refl, Bool, true, false, List, set, Option, none, some, arith, ◌<◌, ◌+◌, ◌^◌,
  if◌then◌else◌,
}
use orbit.Thread.{Thread, TrapFrame, ready, blocking, suspended}
use orbit.Outcome.{
  SyscallOutcome, return, return2, done_reschedule, sleep_until, park_for_publish,
  retry_on_doorbell, retry_until_deadline, ShimAction, resume, yield_to, usize_max, commit_allowed,
  apply_syscall_outcome, update_trap_frame,
}

-- The table of the comment on `SyscallOutcome`: the state that the thread yields into, if it yields,
-- whether the ecall is run again, the values for registers 10 and 11, and the deadline.
pub record ParkShape : Type 0 where
  pub action : ShimAction
  pub again : Bool
  pub ret0 : Option ℕ
  pub ret1 : Option ℕ
  pub deadline : Option ℕ

abbrev pub shape : SyscallOutcome → ParkShape
shape (return r) = record {
  action = resume;
  again = false;
  ret0 = some r;
  ret1 = none;
  deadline = none;
}
shape (return2 r0 r1) = record {
  action = resume;
  again = false;
  ret0 = some r0;
  ret1 = some r1;
  deadline = none;
}
shape (done_reschedule r) = record {
  action = yield_to ready;
  again = false;
  ret0 = some r;
  ret1 = none;
  deadline = none;
}
shape (sleep_until d) = record {
  action = yield_to suspended;
  again = false;
  ret0 = some 0;
  ret1 = none;
  deadline = some d;
}
shape park_for_publish = record {
  action = yield_to blocking;
  again = false;
  ret0 = none;
  ret1 = none;
  deadline = none;
}
shape retry_on_doorbell = record {
  action = yield_to suspended;
  again = true;
  ret0 = none;
  ret1 = none;
  deadline = some usize_max;
}
shape (retry_until_deadline d) = record {
  action = yield_to suspended;
  again = true;
  ret0 = none;
  ret1 = none;
  deadline = some d;
}

abbrev pub put : Option ℕ → ℕ → List ℕ → List ℕ
put none i regs = regs
put (some v) i regs = set regs i v

abbrev pub pick : Bool → ℕ → ℕ → ℕ
pick true a b = a
pick false a b = b

abbrev pub or_else : Option ℕ → ℕ → ℕ
or_else none d = d
or_else (some v) d = v

-- For a user thread that is Running, Suspended or Blocking, every outcome is carried out as the table
-- says: the action, the saved and the returned registers, a program counter at the ecall or past it
-- (for an ecall that does not end the address space), and the wake time, which only the outcomes
-- with a deadline write. The state word is left to the yield.
pub apply_shape :
    (o : SyscallOutcome) (t : Thread) (f : TrapFrame) (epc : ℕ)
    → commit_allowed t ≡ true
    → epc + 4 < 2 ^ 64
    → let (action, t', f') = apply_syscall_outcome o t f epc in
      (action ≡ (shape o).action)
      × (f'.regs ≡ put (shape o).ret1 11 (put (shape o).ret0 10 f.regs))
      × (t'.frame ≡ f')
      × (t'.pc ≡ pick (shape o).again epc (epc + 4))
      × (t'.wake_time ≡ or_else (shape o).deadline t.wake_time)
      × (t'.state ≡ t.state)
unfolding apply_syscall_outcome commit_allowed
apply_shape (return r) t f epc h k = rw h (refl, refl, refl, omega arith, refl, refl)
apply_shape (return2 r0 r1) t f epc h k = rw h (refl, refl, refl, omega arith, refl, refl)
apply_shape (done_reschedule r) t f epc h k = rw h (refl, refl, refl, omega arith, refl, refl)
apply_shape (sleep_until d) t f epc h k = rw h (refl, refl, refl, omega arith, refl, refl)
apply_shape park_for_publish t f epc h k = rw h (refl, refl, refl, omega arith, refl, refl)
apply_shape retry_on_doorbell t f epc h k = rw h (refl, refl, refl, refl, refl, refl)
apply_shape (retry_until_deadline d) t f epc h k = rw h (refl, refl, refl, refl, refl, refl)

-- The gate of a user ecall's outcome is the gate by which `update_trap_frame` saves a trap taken
-- from user mode: the frame and the program counter are saved to exactly the threads that an
-- outcome may be committed to. The frame's address space is set in any case.
pub gates_mirror :
    (t : Thread) (f : TrapFrame) (epc : ℕ)
    → update_trap_frame t epc f true ≡ (
        if commit_allowed t
        then (record t { frame = record f { asid = t.pid }; pc = epc }, record f { asid = t.pid })
        else (t, record f { asid = t.pid }))
unfolding update_trap_frame commit_allowed
gates_mirror t f epc = ground arith
