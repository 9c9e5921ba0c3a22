-- ===== src/SleepHeap/Tests.antt =====
-- A heap of orbit-core/src/sleep_heap.rs.
use orbit.Base.{[], ◌∷◌, arith}
use orbit.SleepHeap.{SleepHeap}
use orbit.SleepHeap.Order.{IsOrdered}

abbrev pub sleepers : SleepHeap
sleepers =
    record { wake_time = 40; sleep_seq = 1; thread = 7 }
    ∷ record { wake_time = 90; sleep_seq = 2; thread = 8 }
    ∷ []

abbrev pub sleepers-IsOrdered : IsOrdered sleepers
sleepers-IsOrdered = ((omega arith, tt), (tt, tt))
