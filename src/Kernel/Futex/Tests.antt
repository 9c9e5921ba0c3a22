-- ===== src/Kernel/Futex/Tests.antt =====
-- Threads that wait at one word: runs of Futex, and the theorem applied.
use orbit.Base.{ℕ, ◌==◌, if◌then◌else◌, ◌≡◌, refl, List, [], ◌∷◌}
use orbit.Base.Map.{lookup, insert, remove}
use orbit.Paging.Entry.{is_valid, is_leaf}
use orbit.Paging.Walk.{virt_to_phys}
use orbit.Kernel.Processes.{to_ret}
use orbit.Kernel.Futex.{Caller, Call, wait, wake, gone, run}
use orbit.Kernel.Futex.Fifo.{Stands, run-Stands, run_line}

-- A root whose entries are leaves, so that low addresses translate to themselves.
abbrev caller : ℕ → ℕ → Caller
caller pid tid = record {
  pid = pid;
  tid = tid;
  root = record { table = 0x1000; pa_to_va_bias = 0 };
  mem = λ t i. 0xC7;
  word = λ pa. if pa == 0x4000 then 1 else 0;
}

abbrev calls : List Call
calls =
    wait 0x4000 1 (caller 2 40)
    ∷ wait 0x4000 0 (caller 2 41)
    ∷ wait 0x4000 1 (caller 3 50)
    ∷ wait 0x4000 1 (caller 2 42)
    ∷ gone 3
    ∷ wake 0x4000 1 (caller 4 60)
    ∷ wake 0x4000 9 (caller 4 60)
    ∷ wake 0x4000 1 (caller 4 60)
    ∷ []

empty-Stands : Stands [] []
unfolding lookup
empty-Stands = record { sorted = tt; queues = λ pa. refl }

run-Stands_example :
    Stands (run [] calls).0 (run_line [] calls).0 × ((run [] calls).1 ≡ (run_line [] calls).1)
run-Stands_example = run-Stands [] [] calls empty-Stands

-- The thread that saw another value is turned away; the others are resumed in their order.
queue_history : run [] calls ≡ (
  [],
  (41, to_ret 11 ∷ [])
      ∷ (40, 0 ∷ [])
      ∷ (60, 1 ∷ [])
      ∷ (42, 0 ∷ [])
      ∷ (60, 1 ∷ [])
      ∷ (60, 0 ∷ [])
      ∷ [],
)
unfolding run virt_to_phys lookup insert remove is_valid is_leaf
queue_history = refl
