-- ===== src/Shootdown/Tests.antt =====
-- Two senders and three harts of orbit-core/src/tlb_shootdown.rs.
use orbit.Base.{ℕ, zero, suc, ◌<◌, ◌≡◌, refl, true, false, List, [], ◌∷◌, All, arith, ◌⊎◌}
use orbit.Shootdown.{
  Event, sender, receiver, begin, step, run, returned, offer, push_target, advance, receive,
}
use orbit.Shootdown.Safety.{run-returned}

abbrev targets_of : ℕ → List ℕ
targets_of zero = 1 ∷ 2 ∷ []
targets_of (suc zero) = 0 ∷ 2 ∷ []
targets_of (suc (suc r)) = []

-- Each hart drains what it was sent, in the order of its ring.
abbrev history : List Event
history =
    sender 0
    ∷ receiver 1
    ∷ sender 1
    ∷ sender 1
    ∷ sender 0
    ∷ receiver 1
    ∷ receiver 1
    ∷ receiver 2
    ∷ receiver 2
    ∷ receiver 2
    ∷ receiver 2
    ∷ receiver 2
    ∷ receiver 2
    ∷ []

ends : returned 0 (run 3 history (begin targets_of)) ≡ true
unfolding returned run step offer push_target advance receive begin
ends = refl

-- Hart 0 has not drained its ring.
waits : returned 1 (run 3 history (begin targets_of)) ≡ false
unfolding returned run step offer push_target advance receive begin
waits = refl

targets_within : (r : ℕ) → All (λ h. h < 3) (targets_of r)
targets_within zero = omega arith
targets_within (suc zero) = omega arith
targets_within (suc (suc r)) = tt

run-returned_example :
    ((run 3 history (begin targets_of)).applied 2 0 ≡ true)
    ⊎ (((run 3 history (begin targets_of)).refused 2 0 ≡ true)
        × (0 < (run 3 history (begin targets_of)).failed 0))
run-returned_example = run-returned targets_of 3 targets_within history 0 2 refl ends
