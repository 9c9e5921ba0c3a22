-- ===== src/ReadyQueue/Tests.antt =====
-- A queue of orbit-core/src/ready_queue.rs, and a hart that may run its second thread.
use orbit.Base.{◌≡◌, refl, ◌==◌, if◌then◌else◌, [], ◌∷◌, some}
use orbit.Thread.Tests.{parked}
use orbit.Store.{Store}
use orbit.ReadyQueue.{pop_for}

abbrev threads : Store
threads p =
    if p == 5 then record parked { state = 0; affinity = 3 } else record parked { state = 0 }

takes_second : pop_for threads (6 ∷ 5 ∷ []) 2 ≡ some (5, 6 ∷ [])
unfolding pop_for
takes_second = refl
