-- ===== src/Outcome/Tests.antt =====
-- Outcomes of orbit-core/src/lib.rs at one running thread.
use orbit.Base.{◌≡◌, refl, true, replicate, set, arith, if◌then◌else◌}
use orbit.Thread.{Thread, suspended}
use orbit.Thread.Tests.{blank, parked}
use orbit.Outcome.{yield_to, sleep_until, commit_allowed, apply_syscall_outcome, update_trap_frame}
use orbit.Outcome.Shape.{apply_shape, gates_mirror}

abbrev caller : Thread
caller = record parked { state = 3 }

apply_shape_example :
    let (action, t', f') = apply_syscall_outcome (sleep_until 500) caller blank 0x1000 in
    (action ≡ yield_to suspended)
    × (f'.regs ≡ set (replicate 32 0) 10 0)
    × (t'.frame ≡ f')
    × (t'.pc ≡ 0x1004)
    × (t'.wake_time ≡ 500)
    × (t'.state ≡ 3)
unfolding commit_allowed
apply_shape_example = apply_shape (sleep_until 500) caller blank 0x1000 refl (omega arith)

gates_mirror_example : update_trap_frame caller 0x1000 blank true ≡ (
    if commit_allowed caller
    then (
      record caller { frame = record blank { asid = 3 }; pc = 0x1000 },
      record blank { asid = 3 },
    )
    else (caller, record blank { asid = 3 }))
gates_mirror_example = gates_mirror caller blank 0x1000
