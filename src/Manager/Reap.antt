-- ===== src/Manager/Reap.antt =====
-- The reap of a thread by manager/src/lib.rs: its registry slot goes first, and then every reference of
-- the scheduler to the pointer that the slot held.
use orbit.Base.{ℕ, ◌==◌, if◌then◌else◌, [], ◌∷◌}
use orbit.Store.{Store}
use orbit.SleepHeap.{SleepEntry, SleepHeap}
use orbit.SleepHeap as Heap
use orbit.ReadyQueue as Ready
use orbit.Manager.{Manager}

-- The entries of one thread, in their order.
abbrev pub entries_of : ℕ → SleepHeap → SleepHeap
entries_of q [] = []
entries_of q (e ∷ es) = if e.thread == q then e ∷ entries_of q es else entries_of q es
