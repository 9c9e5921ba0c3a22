-- ===== src/Kernel/Futex.antt =====
-- The futex queues of kmain/src/kernel/mod.rs: `run_futex_wait_req`, `run_futex_wake_req`, the sweep
-- of `dealloc_process`, and the arms of `drain_pending_work` that call them. An address is translated
-- by the caller's page table, and `word` gives the 32-bit words of physical memory.
pub mod Fifo
mod Tests
use orbit.Base.{
  ℕ, ◌-◌, Bool, true, false, not, ◌==◌, if◌then◌else◌, List, [], ◌∷◌, ◌++◌, Option, none, some,
  length, take, drop, min, map, retain,
}
use orbit.Base.Map.{lookup, insert, remove}
use orbit.Paging.Walk.{RootTable, Memory, virt_to_phys}
use orbit.Kernel.Processes.{Reply, to_ret, eagain, efault}

pub record FutexWaiter : Type 0 where
  pub tid : ℕ
  pub pid : ℕ
  pub deadline_ticks : ℕ

abbrev pub Queues : Type 0
Queues = List (ℕ × List FutexWaiter)

-- Whose call it is, with the memory as it stands.
pub record Caller : Type 0 where
  pub pid : ℕ
  pub tid : ℕ
  pub root : RootTable
  pub mem : Memory
  pub word : ℕ → ℕ

abbrev pub waiter : Caller → FutexWaiter
waiter c = record { tid = c.tid; pid = c.pid; deadline_ticks = 0 }

abbrev pub or_default : Option (List FutexWaiter) → List FutexWaiter
or_default none = []
or_default (some q) = q

-- `entry(pa).or_default()`.
abbrev pub queue_at : Queues → ℕ → List FutexWaiter
queue_at m pa = or_default (lookup pa m)

-- What follows on the translated address.
unfoldable pub wait_at : Queues → ℕ → Caller → Option ℕ → Queues × List Reply
unfolding to_ret
wait_at m expected c none = (m, (c.tid, to_ret efault ∷ []) ∷ [])
wait_at m expected c (some pa) =
    if c.word pa == expected
    then (insert pa (queue_at m pa ++ (waiter c ∷ [])) m, [])
    else (m, (c.tid, to_ret eagain ∷ []) ∷ [])

unfoldable pub run_futex_wait_req : Queues → ℕ → ℕ → Caller → Queues × List Reply
unfolding wait_at
run_futex_wait_req m uaddr expected c = wait_at m expected c (virt_to_phys c.root c.mem uaddr)

abbrev pub is_empty {ℓ} : {A : Type ℓ} → List A → Bool
is_empty [] = true
is_empty (x ∷ xs) = false

abbrev pub woken : FutexWaiter → Reply
woken w = (w.tid, 0 ∷ [])

-- The waiters are resumed first, and the caller is told their number last.
unfoldable pub wake_queue :
    Queues → ℕ → ℕ → Caller → Option (List FutexWaiter) → Queues × List Reply
wake_queue m pa n c none = (m, (c.tid, 0 ∷ []) ∷ [])
wake_queue m pa n c (some waiters) =
    let k = min n (length waiters) in
    let left = drop k waiters in
    (
      if is_empty left then remove pa m else insert pa left m,
      map woken (take k waiters) ++ ((c.tid, k ∷ []) ∷ []),
    )

unfoldable pub wake_at : Queues → ℕ → Caller → Option ℕ → Queues × List Reply
unfolding to_ret wake_queue
wake_at m n c none = (m, (c.tid, to_ret efault ∷ []) ∷ [])
wake_at m n c (some pa) = wake_queue m pa n c (lookup pa m)

unfoldable pub run_futex_wake_req : Queues → ℕ → ℕ → Caller → Queues × List Reply
unfolding wake_at
run_futex_wake_req m uaddr n c = wake_at m n c (virt_to_phys c.root c.mem uaddr)

-- The sweep for a process that is gone.
unfoldable pub sweep : ℕ → Queues → Queues
sweep dead_pid [] = []
sweep dead_pid ((pa, waiters) ∷ m) =
    let kept = retain (λ w. not (w.pid == dead_pid)) waiters in
    let rest = sweep dead_pid m in if is_empty kept then rest else (pa, kept) ∷ rest

pub data Call : Type 0 where
  wait : (uaddr expected : ℕ) → Caller → Call
  wake : (uaddr n : ℕ) → Caller → Call
  gone : (pid : ℕ) → Call

unfoldable pub call : Queues → Call → Queues × List Reply
unfolding run_futex_wait_req run_futex_wake_req sweep
call m (wait uaddr expected c) = run_futex_wait_req m uaddr expected c
call m (wake uaddr n c) = run_futex_wake_req m uaddr n c
call m (gone pid) = (sweep pid m, [])

unfoldable pub run : Queues → List Call → Queues × List Reply
unfolding call
run m [] = (m, [])
run m (c ∷ cs) =
    let (m', replies) = call m c in let (end, later) = run m' cs in (end, replies ++ later)
