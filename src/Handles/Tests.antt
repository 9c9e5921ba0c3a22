-- ===== src/Handles/Tests.antt =====
-- A table with the standard streams and a file: runs of Handles, and the theorems applied.
use orbit.Base.{ℕ, ◌-◌, ◌^◌, ◌≡◌, refl, true, false, List, [], ◌∷◌, Option, none, some, arith}
use orbit.Base.Map
use orbit.Kernel.Processes.{to_ret}
use orbit.Handles.{
  file, stdin, event_fd, OpenFile, Slot, ProcessHandles, new, seed_stdio, insert_with_flags,
  insert_at, get_slot, remove_slot, run_fs_seek, with_table, fd_max, remove, get, insert,
}
use orbit.Handles.Descriptors.{
  Op, seeds, inserts, inserts_at, removes, given_out, Ascending, Fresh, given_out-Fresh,
}
use orbit.Handles.Seek.{put_offset, moved, base, run_fs_seek-moved}

abbrev readme : OpenFile
readme = record { inode = 5; offset = 10; dir_cursor = 0; is_regular = true }

abbrev slot : Slot
slot = record { handle = file readme; cloexec = false; nonblock = false }

abbrev ops : List Op
ops =
    seeds
    ∷ inserts (file readme) false true
    ∷ inserts_at 9 slot
    ∷ removes 3
    ∷ inserts (event_fd 1 0) true false
    ∷ []

given_out-Fresh_example :
    Ascending 0 (given_out (record { table = []; next_id = 0 }) ops)
    × Fresh (record { table = []; next_id = 0 }) ops
given_out-Fresh_example =
    given_out-Fresh (record { table = []; next_id = 0 }) ops
      (record { sorted = tt; below = tt; bound = omega arith })

abbrev table : ProcessHandles
table = record { table = (3, slot) ∷ []; next_id = 4 }

abbrev sizes : ℕ → Option ℕ
sizes inode = some 100

-- Thirty bytes back from the end.
run_fs_seek-moved_example :
    run_fs_seek sizes ((2, table) ∷ []) 2 3 (2 ^ 64 - 30) 2
    ≡ with_table
        ((2, table) ∷ [])
        2
        (put_offset table 3 slot readme (moved (base 2 10 100) (2 ^ 64 - 30)))
unfolding get_slot Map.lookup
run_fs_seek-moved_example =
    run_fs_seek-moved sizes ((2, table) ∷ []) 2 3 (2 ^ 64 - 30) 2 100 table slot readme refl refl
      refl refl refl (omega arith) (omega arith) (omega arith) (omega arith)

ops_run : given_out new ops ≡ 3 ∷ 10 ∷ []
unfolding new seed_stdio insert_with_flags insert_at remove_slot Map.insert
ops_run = refl

seek_end : (run_fs_seek sizes ((2, table) ∷ []) 2 3 (2 ^ 64 - 30) 2).1 ≡ 70
unfolding run_fs_seek Map.lookup
seek_end = refl

-- Eleven bytes back from the tenth, and past the largest offset.
seek_out :
    ((run_fs_seek sizes ((2, table) ∷ []) 2 3 (2 ^ 64 - 11) 1).1 ≡ to_ret 22)
    × ((run_fs_seek sizes ((2, table) ∷ []) 2 3 (2 ^ 63 - 1) 2).1 ≡ to_ret 22)
unfolding run_fs_seek Map.lookup
seek_out = (refl, refl)

-- With the last descriptor given out, there is none left; a slot put above it is dropped.
last_descriptor :
    ((insert (record { table = []; next_id = fd_max }) stdin).0 ≡ some fd_max)
    × ((insert (insert (record { table = []; next_id = fd_max }) stdin).1 stdin).0 ≡ none)
    × (insert_at table (2 ^ 31) slot ≡ (none, table))
unfolding insert insert_at
last_descriptor = (refl, refl, refl)

closed : (get (remove table 3).1 3 ≡ none) × ((remove table 3).0 ≡ some (file readme))
unfolding remove get Map.lookup Map.remove
closed = (refl, refl)
