-- ===== src/Manager.antt =====
-- manager/src/lib.rs: the thread registry, the ready queue and the sleep heap, and the drains that
-- promote parked threads. The registry maps a tid to a thread's pointer. A lock-free queue of the
-- `thingbuf` crate is the list of the entries that a drain pops from it. The null pointer is 0.
pub mod Wakes
pub mod Delivery
pub mod Reap
pub mod Sleeps
mod Tests
use orbit.Base.{
  ℕ, ◌+◌, ◌-◌, ◌%◌, ◌^◌, min, max, Bool, true, false, not, ◌==◌, ltb, leb, ◌&&◌, ◌||◌,
  if◌then◌else◌, List, [], ◌∷◌, ◌++◌, Option, none, some, length, retain, map, Run, done, panic,
  ◌>>=◌,
}
use orbit.Base.Map.{lookup, insert, remove, contains_key}
use orbit.Thread.{
  Thread, as_usize, ready, blocking, suspended, pending_state_signaled, publish_results,
}
use orbit.Thread.Cap.{note_wake, claim_parked, resume_published, promote_wake}
use orbit.Store.{Store, update}
use orbit.SleepHeap.{SleepHeap, drain_woken}
use orbit.SleepHeap as Heap
use orbit.ReadyQueue.{ReadyQueue}
use orbit.ReadyQueue as Ready

pub data WakeEvent : Type 0 where
  no_event net gpu serial : WakeEvent
  of_pid : ℕ → WakeEvent
  of_tid : ℕ → WakeEvent
  input_tid : ℕ → WakeEvent

pub record SleepNotice : Type 0 where
  pub wake_time : ℕ
  pub sleep_seq : ℕ
  pub thread : ℕ

pub record Manager : Type 0 where
  pub threads : List (ℕ × ℕ)
  pub ready : ReadyQueue
  pub sleeping : SleepHeap
  pub net_thread_tid : Option ℕ
  pub gpu_thread_tid : Option ℕ
  pub serial_thread_tid : Option ℕ

-- The threads behind the pointers, and the ready queue.
pub record Pass : Type 0 where
  pub mem : Store
  pub queue : ReadyQueue

-- `process::wake_reason`.
abbrev pub tickle_reason : ℕ
tickle_reason = 1

abbrev pub net_io : ℕ
net_io = 2

abbrev pub input_io : ℕ
input_io = 16

unfoldable pub register : Manager → ℕ → ℕ → Manager
register m tid handle = record m { threads = insert tid handle m.threads }

unfoldable pub unregister : Manager → ℕ → Option ℕ × Manager
unregister m tid = (lookup tid m.threads, record m { threads = remove tid m.threads })

unfoldable pub forget_thread : Manager → ℕ → Manager
forget_thread m thread = record m {
  sleeping = Heap.remove_thread m.sleeping thread;
  ready = Ready.remove_thread m.ready thread;
}

unfoldable pub tid_in_use : Manager → ℕ → Bool
tid_in_use m tid = contains_key tid m.threads

unfoldable pub admit : Manager → ℕ → Manager
admit m r = record m { ready = Ready.push m.ready r }

unfoldable pub runnable_thread_count : Store → Manager → ℕ
runnable_thread_count st m = length (retain (λ t. (st (t.1)).state == as_usize ready) m.threads)

-- `pending_signaled` and `has_pending_wake` of a view.
abbrev pub pending_signaled : Thread → Bool
pending_signaled t = t.pending_state == pending_state_signaled

abbrev pub has_pending_wake : Thread → Bool
has_pending_wake t = not (t.wake_override == 0)

-- The body of the loop of `set_wake_reason_where` for a thread that the predicate holds of: the thread
-- after it, and whether a `Runnable` was minted.
unfoldable pub wake_thread : ℕ → Thread → Run (Thread × Bool)
wake_thread reason t =
    let st = t.state in
    let has_rets = pending_signaled t in
    let noted = note_wake t reason in
    let published = resume_published noted >>= λ r.
    done (elim r [ none ↦ (noted, false) | some u ↦ (u, true) ]) in
    if st == as_usize suspended
    then if claim_parked noted
      then if has_rets then published else (promote_wake noted >>= λ u. done (u, true))
      else done (noted, false)
    else if st == as_usize blocking && has_rets
    then if claim_parked noted then published else done (noted, false)
    else done (noted, false)

-- The registry's threads in the order of their tids.
unfoldable pub set_wake_reason_where : ℕ → (Thread → Bool) → List ℕ → Pass → Run Pass
set_wake_reason_where reason pred [] s = done s
set_wake_reason_where reason pred (p ∷ ps) s =
    let skip = set_wake_reason_where reason pred ps s in
    let serve = wake_thread reason (s.mem p) >>= λ (t, minted).
    set_wake_reason_where reason pred ps (record {
      mem = update s.mem p t;
      queue = if minted then Ready.push s.queue p else s.queue;
    }) in
    if pred (s.mem p) then serve else skip

-- The reason that an event carries, and the threads that it names.
abbrev pub driver : Option ℕ → Thread → Bool
driver (some tid) t = t.tid == tid
driver none t = t.pid == 0

abbrev pub reason_of : WakeEvent → ℕ
reason_of no_event = 0
reason_of net = tickle_reason
reason_of gpu = tickle_reason
reason_of serial = tickle_reason
reason_of (of_pid pid) = net_io
reason_of (of_tid tid) = net_io
reason_of (input_tid tid) = input_io

abbrev pub names : Manager → WakeEvent → Thread → Bool
names m no_event t = false
names m net t = driver m.net_thread_tid t
names m gpu t = driver m.gpu_thread_tid t
names m serial t = driver m.serial_thread_tid t
names m (of_pid pid) t = t.pid == pid
names m (of_tid tid) t = t.tid == tid
names m (input_tid tid) t = t.tid == tid

abbrev pub pointers : Manager → List ℕ
pointers m = map (λ t. t.1) m.threads

unfoldable pub handle_event : Manager → WakeEvent → Pass → Run Pass
handle_event m no_event s = done s
handle_event m event s = set_wake_reason_where (reason_of event) (names m event) (pointers m) s

unfoldable pub drain_wakes : Manager → List WakeEvent → Pass → Run Pass
drain_wakes m [] s = done s
drain_wakes m (event ∷ events) s = handle_event m event s >>= drain_wakes m events

-- `claim_parked` and then `promote_wake`, which queues the thread.
unfoldable pub wake_sleeper : ℕ → Pass → Run Pass
wake_sleeper p s =
    if claim_parked (s.mem p)
    then (promote_wake (s.mem p) >>= λ t.
        done (record { mem = update s.mem p t; queue = Ready.push s.queue p }))
    else done s

-- The first loop of `drain_sleeps`: a notice whose thread has been woken on its way is promoted, the
-- others are filed.
unfoldable pub file_notices : List SleepNotice → SleepHeap → Pass → Run (SleepHeap × Pass)
file_notices [] heap s = done (heap, s)
file_notices (notice ∷ notices) heap s =
    let next = file_notices notices heap s in
    let promoted = wake_sleeper notice.thread s >>= file_notices notices heap in
    let filed =
      file_notices notices (Heap.push heap notice.thread notice.wake_time notice.sleep_seq) s in
    if notice.thread == 0
    then next
    else if has_pending_wake (s.mem notice.thread)
    then promoted
    else filed

unfoldable pub drain_sleeps : ℕ → List SleepNotice → SleepHeap → Pass → Run (SleepHeap × Pass)
drain_sleeps now notices heap s = file_notices notices heap s >>= λ (heap', s').
    drain_woken (λ u p. u.mem p) wake_sleeper now heap' s'

-- The notices of one hart's inbox; the inboxes are drained one after the other.
abbrev drain_inbox : List ℕ → ReadyQueue → ReadyQueue
drain_inbox [] queue = queue
drain_inbox (p ∷ ps) queue =
    if p == 0 then drain_inbox ps queue else drain_inbox ps (Ready.push queue p)

unfoldable pub drain_ready_inboxes : List (List ℕ) → ReadyQueue → ReadyQueue
drain_ready_inboxes [] queue = queue
drain_ready_inboxes (inbox ∷ inboxes) queue = drain_ready_inboxes inboxes (drain_inbox inbox queue)

unfoldable pub next_sleep_in_cycles : SleepHeap → ℕ → ℕ → ℕ
next_sleep_in_cycles sleeping now cap = elim (Heap.next_wake sleeping) [
  | none ↦ cap
  | some t ↦ if ltb now t then min (t - now) cap else 0
]

-- `WAKE_QUEUE` with its counters. `full` says when the queue refuses another entry.
pub record WakeQueue : Type 0 where
  pub events : List WakeEvent
  pub peak : ℕ
  pub drops : ℕ

unfoldable pub wake_queue_push : (List WakeEvent → Bool) → WakeQueue → WakeEvent → Bool × WakeQueue
wake_queue_push full q ev =
    if full q.events
    then (false, record q { drops = (q.drops + 1) % 2 ^ 64 })
    else let events = q.events ++ (ev ∷ []) in
      (true, record q { events = events; peak = max q.peak (length events) })

unfoldable pub publish_pending_for_tid :
    (List WakeEvent → Bool) → Manager → ℕ → List ℕ → Store → WakeQueue → Store × WakeQueue
publish_pending_for_tid full m tid vals st q = elim (lookup tid m.threads) [
  | none ↦ (st, q)
  | some p ↦ (update st p (publish_results (st p) vals), (wake_queue_push full q (of_tid tid)).1)
]

-- The watchdog: the thread that it watches and since when.
pub record Watchdog : Type 0 where
  pub stuck_tid : ℕ
  pub stuck_since : ℕ

abbrev pub is_stuck : ℕ → Thread → Bool
is_stuck now t =
    t.state == as_usize blocking && pending_signaled t
    || t.state == as_usize suspended && has_pending_wake t
    || t.state == as_usize suspended && leb t.wake_time now

abbrev pub culprit : ℕ → Store → List ℕ → ℕ
culprit now st [] = 0
culprit now st (p ∷ ps) = if is_stuck now (st p) then (st p).tid else culprit now st ps

-- Whether a census is printed, and the watchdog after.
unfoldable pub check_stuck_threads : ℕ → Store → Manager → Watchdog → Bool × Watchdog
check_stuck_threads now st m w =
    let c = culprit now st (pointers m) in
    if c == 0
    then (false, record w { stuck_tid = 0 })
    else if w.stuck_tid == c
    then if ltb 30000000 ((now + 2 ^ 64 - w.stuck_since) % 2 ^ 64)
      then (true, record w { stuck_since = now })
      else (false, w)
    else (false, record { stuck_tid = c; stuck_since = now })
