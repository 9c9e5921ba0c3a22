-- ===== src/Sched/Tests.antt =====
-- Harts and queued threads of orbit-core/src/sched.rs.
use orbit.Base.{◌==◌, if◌then◌else◌, refl, [], ◌∷◌, none, some}
use orbit.Thread.Tests.{parked}
use orbit.Store.{Store, QueueOk}
use orbit.Sched.{HartView, World}

-- Thread 5 may run on harts 0 and 1, every other on hart 0.
abbrev threads : Store
threads p =
    if p == 5 then record parked { state = 0; affinity = 3 } else record parked { state = 0 }

abbrev world : World
world = record { threads = threads; queue = 6 ∷ 5 ∷ []; wakes = [] }

abbrev caller : HartView
caller = record { hart_id = 0; current = none }

abbrev remote : HartView
remote = record { hart_id = 1; current = none }

abbrev working : HartView
working = record { hart_id = 2; current = some 9 }

abbrev world_ok : QueueOk threads (6 ∷ 5 ∷ [])
world_ok = record { each = (refl, (refl, tt)); distinct = (refl, (refl, tt)) }
