-- ===== src/Thread/Resume.antt =====
-- How a parked thread comes back (process/src/lib.rs, process/src/cap.rs): what a manager publishes
-- reaches the argument registers once, and no claim of a parked thread panics.
use orbit.Base.{
  ℕ, zero, suc, ◌≤◌, ◌≡◌, refl, ap, true, false, min, List, [], ◌∷◌, none, some, length, take,
  arith, done, panic,
}
use orbit.Thread.{
  Thread, ready, as_usize, pending_state_none, overwrite, publish_results, take_pending_results,
  promote_ready_from_parked, reset_pending,
}
use orbit.Thread.Cap.{
  write_regs, write_args, consume_wake, claim_parked, write_rets, resume_published, promote_wake,
}

-- Four or fewer values fill the front of the slot.
pub take-overwrite :
    (rets vals : List ℕ) (n : ℕ)
    → n ≡ length vals
    → length vals ≤ length rets
    → take n (overwrite rets vals) ≡ vals
take-overwrite rets [] zero e h = refl
take-overwrite rets [] (suc n) e h = absurd (omega arith)
take-overwrite [] (v ∷ vals) n e h = absurd (omega arith)
take-overwrite (r ∷ rets) (v ∷ vals) zero e h = absurd (omega arith)
take-overwrite (r ∷ rets) (v ∷ vals) (suc n) e h =
    ap (◌∷◌ v) (take-overwrite rets vals n (omega arith) (omega arith))

pub length-overwrite : (rets vals : List ℕ) → length (overwrite rets vals) ≡ length rets
length-overwrite [] vals = refl
length-overwrite (r ∷ rets) [] = refl
length-overwrite (r ∷ rets) (v ∷ vals) = ap suc (length-overwrite rets vals)

-- The thread as it stands once it has been resumed with `vals`.
abbrev pub resumed : Thread → List ℕ → Thread
resumed t vals = record (consume_wake (write_args t vals)) {
  state = as_usize ready;
  pending_state = pending_state_none;
}

take_published :
    (t : Thread) (vals : List ℕ)
    → length vals ≤ 4
    → length t.pending_rets ≡ 4
    → take_pending_results (publish_results t vals)
      ≡ some (vals, record (publish_results t vals) { pending_state = pending_state_none })
unfolding take_pending_results publish_results
take_published t vals few four =
    ap (λ rets. some (rets, record (publish_results t vals) { pending_state = pending_state_none }))
      (take-overwrite t.pending_rets vals _ (omega arith) (omega arith))

promote_parked :
    (t : Thread)
    → claim_parked t ≡ true
    → promote_ready_from_parked t ≡ done (record t { state = as_usize ready })
unfolding claim_parked promote_ready_from_parked
promote_parked t h = rw h refl

-- What a manager publishes to a parked thread, at most four values, reaches its registers from the
-- tenth on when a claim resumes it: the thread is Ready, its slot is empty, so that a second take
-- finds nothing, and the wake reasons noted so far have become the last reason. (`pending_rets` has
-- four places.)
pub publish_then_resume :
    (t : Thread) (vals : List ℕ)
    → claim_parked t ≡ true
    → length vals ≤ 4
    → length t.pending_rets ≡ 4
    → (u : Thread) × (resume_published (publish_results t vals) ≡ done (some u))
      × (u.frame.regs ≡ write_regs t.frame.regs 10 vals)
      × (u.state ≡ as_usize ready)
      × (take_pending_results u ≡ none)
      × (u.wake_override ≡ 0)
      × (u.last_wake_reason ≡ t.wake_override)
      × (u.pc ≡ t.pc)
unfolding resume_published claim_parked publish_results
publish_then_resume t vals parked few four = (
  record (consume_wake (write_args (publish_results t vals) vals)) {
    state = as_usize ready;
    pending_state = pending_state_none;
  },
  rw
      (
        take-overwrite t.pending_rets vals (min (min (length vals) (length t.pending_rets)) 4)
            (omega arith) (omega arith),
        parked,
      )
      refl,
  refl,
  refl,
  refl,
  refl,
  refl,
  refl,
)

-- On a thread that the claim admits, `write_rets` makes it Ready with the values in its registers
-- and an empty slot, and keeps the wake reasons; `promote_wake` makes it Ready with the frame as it
-- was, and turns the wake reasons into the last reason. Neither panics.
claimed_verbs :
    (t : Thread) (vals : List ℕ)
    → claim_parked t ≡ true
    → ((u : Thread) × (write_rets t vals ≡ done u)
        × (u.state ≡ as_usize ready)
        × (u.frame.regs ≡ write_regs t.frame.regs 10 (take 4 vals))
        × (take_pending_results u ≡ none)
        × (u.wake_override ≡ t.wake_override))
      × ((u : Thread) × (promote_wake t ≡ done u)
          × (u.state ≡ as_usize ready)
          × (u.frame ≡ t.frame)
          × (u.wake_override ≡ 0)
          × (u.last_wake_reason ≡ t.wake_override))
unfolding claim_parked write_rets promote_wake take_pending_results
claimed_verbs t vals h = (
  (
    record (reset_pending (write_args t (take 4 vals))) { state = as_usize ready },
    rw h refl,
    refl,
    refl,
    refl,
    refl,
  ),
  (record (consume_wake t) { state = as_usize ready }, rw h refl, refl, refl, refl, refl),
)

-- On any other thread each of these verbs, and `resume_published` after a publication, panics: no
-- path makes a thread Ready that is not parked.
unclaimed_verbs :
    (t : Thread) (vals : List ℕ)
    → claim_parked t ≡ false
    → (write_rets t vals ≡ panic)
      × (promote_wake t ≡ panic)
      × (resume_published (publish_results t vals) ≡ panic)
unfolding claim_parked write_rets promote_wake resume_published publish_results
unclaimed_verbs t vals h = (rw h refl, rw h refl, rw h refl)
