-- ===== src/Thread/Lifecycle.antt =====
-- The life of a thread (process/src/lib.rs, process/src/cap.rs) as a sequence of calls, from any
-- hart and in any order: each is one call of the state machine or of the capability layer.
use orbit.Base.{
  ℕ, ◌≡◌, inl, inr, Bool, true, ◌==◌, ◌||◌, ◌&&◌, List, [], ◌∷◌, Option, none, some, arith, Run,
  Run-cases, done, panic, ◌>>=◌,
}
use orbit.Thread.{
  Thread, ThreadState, ready, blocking, assigned, running, exited, suspended, as_usize,
  transition_to, try_mark_assigned, publish_results,
}
use orbit.Thread.Cap
use orbit.Thread.Cap.{write_regs}

pub data Call : Type 0 where
  transition : ThreadState → Call
  try_assign : Call
  write_rets resume_with publish : List ℕ → Call
  resume_published try_claim_own promote_wake mark_exited : Call
  note_wake : ℕ → Call

abbrev or_same : Thread → Run (Option Thread) → Run Thread
or_same t (done none) = done t
or_same t (done (some u)) = done u
or_same t panic = panic

unfoldable pub call : Thread → Call → Run Thread
call t (Call.transition to) = transition_to t to
call t Call.try_assign = try_mark_assigned t >>= λ r. done (r.1)
call t (Call.write_rets vals) = Cap.write_rets t vals
call t (Call.resume_with vals) = Cap.resume_with t vals
call t (Call.publish vals) = done (publish_results t vals)
call t Call.resume_published = or_same t (Cap.resume_published t)
call t Call.try_claim_own = or_same t (Cap.try_claim_own_pending t)
call t Call.promote_wake = Cap.promote_wake t
call t Call.mark_exited = done (Cap.mark_exited t)
call t (Call.note_wake reason) = done (Cap.note_wake t reason)

unfoldable pub run : Thread → List Call → Run Thread
unfolding call
run t [] = done t
run t (c ∷ cs) = call t c >>= λ u. run u cs

-- The edges of the state word, as the comments of process/src/lib.rs draw them: dispatch, the exits
-- of a running thread, the way back from a park, and the kill.
abbrev pub edge : ℕ → ℕ → Bool
edge s s' =
    s == s'
    || s == as_usize ready && s' == as_usize assigned
    || s == as_usize assigned && s' == as_usize running
    || s == as_usize running
      && (s' == as_usize ready || s' == as_usize blocking || s' == as_usize suspended)
    || (s == as_usize blocking || s == as_usize suspended) && s' == as_usize ready
    || s' == as_usize exited

transition_to-edge :
    (t : Thread) (to : ThreadState) (u : Thread)
    → transition_to t to ≡ done u
    → edge t.state u.state ≡ true
unfolding transition_to
transition_to-edge t ready u e = ground arith
transition_to-edge t to u e = ground arith

-- Whatever call succeeds on a thread, in whatever state: the state word takes one of the edges
-- above or stays. None leads out of Exited.
pub call-edge :
    (t : Thread) (c : Call) (u : Thread) → call t c ≡ done u → edge t.state u.state ≡ true
unfolding call
call-edge t (Call.transition to) u e = transition_to-edge t to u e
call-edge t Call.try_assign u e = unfold try_mark_assigned in ground arith
call-edge t (Call.write_rets vals) u e = unfold Cap.write_rets in ground arith
call-edge t (Call.resume_with vals) u e = unfold Cap.resume_with in ground arith
call-edge t (Call.publish vals) u e = unfold publish_results in ground arith
call-edge t Call.resume_published u e = unfold Cap.resume_published in ground arith
call-edge t Call.try_claim_own u e = unfold Cap.try_claim_own_pending in ground arith
call-edge t Call.promote_wake u e = unfold Cap.promote_wake in ground arith
call-edge t Call.mark_exited u e = unfold Cap.mark_exited in ground arith
call-edge t (Call.note_wake reason) u e = unfold Cap.note_wake in ground arith

exited-edge : (s s' : ℕ) → s ≡ as_usize exited → edge s s' ≡ true → s' ≡ as_usize exited
exited-edge s s' e h = ground arith

-- No history brings an exited thread back.
pub exited_absorbs :
    (t : Thread) (cs : List Call) (u : Thread)
    → t.state ≡ as_usize exited
    → run t cs ≡ done u
    → u.state ≡ as_usize exited
unfolding run
exited_absorbs t [] u d e = ground arith
exited_absorbs t (c ∷ cs) u d e = elim (Run-cases (call t c)) [
  | inl (v, h) ↦
      exited_absorbs v cs u (exited-edge t.state v.state d (call-edge t c v h)) (rw h at e)
  | inr h ↦ absurd (ground arith)
]
