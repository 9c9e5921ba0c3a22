-- ===== src/Syscall/Tests.antt =====
-- Calls of a thread at concrete registers: their handlers, and the theorem applied.
use orbit.Base.{ℕ, ◌≡◌, refl, true, false, ◌==◌, if◌then◌else◌, none, some}
use orbit.Outcome.{return, park_for_publish}
use orbit.Kernel.Processes.{to_ret}
use orbit.Syscall.{Caller, mem_map}
use orbit.Syscall.Memory.{mmap_req}
use orbit.Syscall.Procs.{create_process_v2_req}
use orbit.Syscall.Calls.{mmap, handle, request, handle_lem}
use orbit.Syscall.Lawful.{granted, settled}

-- One address, one length, and 1 in the other registers.
abbrev caller : ℕ → ℕ → Caller
caller vaddr len = record {
  pid = 3;
  tid = 40;
  root_pa = 0x8000_0000;
  allowed_affinity = 15;
  regs = λ r. if r == 11 then vaddr else if r == 12 then len else 1;
}

-- A shared mapping of a page.
mmap_shared :
    mmap_req (caller 0x4000_0000_0000 4096) false
    ≡ (park_for_publish, some (mem_map 0x4000_0000_0000 4096 1 true 3 0x8000_0000 40))
unfolding mmap_req
mmap_shared = refl

-- It is refused in the private half, and beyond the end of the user half.
mmap_refused :
    (mmap_req (caller 0x3_0000_0000 4096) false ≡ (return (to_ret 22), none))
    × (mmap_req (caller 0x7E00_0000_0000 0) false ≡ (return (to_ret 14), none))
unfolding mmap_req
mmap_refused = (refl, refl)

-- Arguments that run over the end of a page.
straddling : create_process_v2_req (caller 0x3_0000_0FF0 0) false ≡ (return (to_ret 22), none)
unfolding create_process_v2_req
straddling = refl

handle_lem_example :
    (settled (handle mmap (caller 0x4000_0000_0000 4096) false) ≡ true)
    × ((handle mmap (caller 0x4000_0000_0000 4096) false).1
        ≡ granted
            (caller 0x4000_0000_0000 4096)
            false
            (request mmap (caller 0x4000_0000_0000 4096)))
handle_lem_example = handle_lem mmap (caller 0x4000_0000_0000 4096) false
