-- ===== src/Manager/Tests.antt =====
-- A registry of two threads, one blocked and one asleep, for manager/src/lib.rs.
use orbit.Base.{
  mem, ℕ, ◌≡◌, ◌==◌, ◌&&◌, if◌then◌else◌, refl, Bool, true, false, List, [], ◌∷◌, none, some, arith,
  All, done, replicate,
}
use orbit.Base.Map.{lookup}
use orbit.Thread.{Thread}
use orbit.Thread.Cap.{write_regs}
use orbit.Thread.Tests.{parked}
use orbit.Store.{Store, QueueOk}
use orbit.SleepHeap.{SleepHeap}
use orbit.SleepHeap.Drain.{Rests}
use orbit.SleepHeap.Tests.{sleepers, sleepers-IsOrdered}
use orbit.Manager.{
  WakeEvent, SleepNotice, Manager, Pass, WakeQueue, set_wake_reason_where, drain_wakes,
  wake_sleeper, drain_sleeps, publish_pending_for_tid,
}
use orbit.Manager.Wakes.{woken, set_wake_reason_where_lem}
use orbit.Manager.Delivery.{publish_delivers}
use orbit.Manager.Sleeps.{Cause, drain_sleeps-Rests}
use orbit.Manager.Sleeps.Drained.{entries, Accounted}
use orbit.Manager.Sleeps.Woken.{Calm}

-- Thread 1 (tid 7) is blocked, thread 7 (tid 8) is asleep, thread 2 runs, the others are Ready.
abbrev threads : Store
threads p =
    if p == 1
    then parked
    else if p == 7
    then record parked { state = 5; tid = 8; sleep_seq = 1 }
    else if p == 2
    then record parked { state = 3; tid = 9 }
    else record parked { state = 0; tid = 0 }

abbrev manager : Manager
manager = record {
  threads = (7, 1) ∷ (8, 7) ∷ [];
  ready = 3 ∷ [];
  sleeping = sleepers;
  net_thread_tid = some 8;
  gpu_thread_tid = none;
  serial_thread_tid = none;
}

abbrev pass : Pass
pass = record { mem = threads; queue = 3 ∷ [] }

abbrev pass_ok : QueueOk threads (3 ∷ [])
pass_ok = record { each = (refl, tt); distinct = (refl, tt) }

abbrev of_pid_three : Thread → Bool
of_pid_three t = t.pid == 3

set_wake_reason_where_lem_example :
    (s' : Pass) × (set_wake_reason_where 2 of_pid_three (1 ∷ 7 ∷ []) pass ≡ done s')
    × ((p : ℕ)
        → s'.mem p ≡ (
            if mem p (1 ∷ 7 ∷ []) && of_pid_three (threads p)
            then woken 2 (threads p)
            else threads p))
    × (s'.queue ≡ 3 ∷ 7 ∷ [])
    × QueueOk s'.mem s'.queue
set_wake_reason_where_lem_example =
    set_wake_reason_where_lem 2 of_pid_three (1 ∷ 7 ∷ []) pass (refl, (refl, tt)) pass_ok

abbrev never_full : List WakeEvent → Bool
never_full events = false

publish_delivers_example :
    let empty : WakeQueue = record { events = []; peak = 0; drops = 0 } in
    let published = publish_pending_for_tid never_full manager 7 (5 ∷ 6 ∷ []) threads empty in
    (s' : Pass) × (drain_wakes manager published.1.events (record pass { mem = published.0 })
      ≡ done s')
    × ((s'.mem 1).state ≡ 0)
    × ((s'.mem 1).frame.regs ≡ write_regs (replicate 32 0) 10 (5 ∷ 6 ∷ []))
    × (mem 1 s'.queue ≡ true)
unfolding lookup
publish_delivers_example =
    publish_delivers never_full manager 7 1 (5 ∷ 6 ∷ []) pass refl refl refl (omega arith) refl
      (refl, (refl, tt)) pass_ok refl

abbrev notices : List SleepNotice
notices = record { wake_time = 30; sleep_seq = 1; thread = 2 } ∷ []

drain_sleeps-Rests_example :
    (heap' : SleepHeap) × (s' : Pass) × (new : List ℕ) × (drain_sleeps 50 notices sleepers pass
      ≡ done (heap', s'))
    × Rests (λ u p. u.mem p) wake_sleeper 50 s' heap'
    × Calm (Cause 50 sleepers (entries notices) pass) pass s' new
    × All (Accounted s' heap') sleepers
    × All (Accounted s' heap') (entries notices)
drain_sleeps-Rests_example = drain_sleeps-Rests 50 notices sleepers pass sleepers-IsOrdered pass_ok
