-- ===== src/Syscall/Lawful.antt =====
-- When the work that a handler of orbit-core/src/syscall.rs queues is one that the manager may carry
-- out, after the requests' descriptions in orbit-core/src/pending_work.rs.
use orbit.Base.{
  ℕ, ◌+◌, ◌*◌, ◌/◌, ◌%◌, ◌^◌, Bool, true, false, not, leb, ltb, ◌==◌, ◌&&◌, ◌||◌, if◌then◌else◌,
  Option, none, some, bit_and,
}
use orbit.Layout.{
  between, user_null_guard_end, user_va_end, uproc_priv_base, uproc_priv_end, uproc_shared_base,
  uproc_shared_end,
}
use orbit.Outcome.{return, park_for_publish}
use orbit.Syscall.{
  Caller, PendingWork, mem_map, net_channel_creation, close_handle, create_process, create_thread,
  fs_open, fs_read, fs_stat, fs_readdir, create_process_ex, futex_wait, futex_wake, pledge,
  create_process_v2, fb_surface_create, fb_surface_destroy, event_fd_create, wake_tid, fs_seek,
  fs_fstat, ch_inspect, chdir, get_cwd, get_groups, get_login, set_uid, set_gid, set_groups,
  set_login, argv_envp, Verdict,
}
use orbit.Syscall.Procs

-- A range of user memory, and one of a given length from 1 to `most`.
abbrev pub user : ℕ → ℕ → Bool
user vaddr len = between user_null_guard_end user_va_end vaddr len

abbrev pub within : ℕ → ℕ → ℕ → Bool
within most vaddr len = leb 1 len && leb len most && user vaddr len

-- A structure that lies in one page.
abbrev pub paged : ℕ → ℕ → Bool
paged vaddr size = user vaddr size && leb (vaddr % 4096 + size) 4096

abbrev pub sent : Caller → ℕ → ℕ → Bool
sent t pid tid = pid == t.pid && tid == t.tid

abbrev pub rooted : Caller → ℕ → ℕ → ℕ → Bool
rooted t pid root_pa tid = pid == t.pid && root_pa == t.root_pa && tid == t.tid

-- The work names its caller, and what it names of user memory lies where it may.
unfoldable pub lawful : Caller → PendingWork → Bool
lawful t (mem_map v size perms share pid root_pa tid) =
    rooted t pid root_pa tid
    && user v 1
    && (if share
        then between uproc_shared_base uproc_shared_end v size && perms / 8 % 2 == 0
        else between uproc_priv_base uproc_priv_end v size)
lawful t (net_channel_creation v size nc_type bind pid root_pa tid) =
    rooted t pid root_pa tid && user v 1 && between uproc_shared_base uproc_shared_end v size
lawful t (close_handle fd pid root_pa tid) = rooted t pid root_pa tid && ltb fd (2 ^ 32)
lawful t (create_process v len allowed affinity pid root_pa tid) =
    rooted t pid root_pa tid && user v 1 && user v len
lawful t (create_thread v allowed affinity arg pid parent_allowed tid) =
    sent t pid tid
    && parent_allowed == t.allowed_affinity
    && user v 1
    && (allowed == 0 || affinity == 0 || bit_and affinity allowed == affinity)
lawful t (fs_open v len flags pid root_pa tid) = rooted t pid root_pa tid && within 256 v len
lawful t (fs_read fd v len pid root_pa tid) =
    rooted t pid root_pa tid && ltb fd (2 ^ 32) && within 65536 v len
lawful t (fs_stat v len stat pid root_pa tid) =
    rooted t pid root_pa tid && within 256 v len && user stat 128
lawful t (fs_readdir fd v len pid root_pa tid) =
    rooted t pid root_pa tid && ltb fd (2 ^ 32) && within 4096 v len
lawful t (create_process_ex v len allowed affinity argv argv_len envp pid root_pa tid) =
    rooted t pid root_pa tid
    && user v 1
    && user v len
    && (argv_len == 0 && argv == 0 || within 4096 argv argv_len)
    && (envp == 0 || envp % 4096 == 0 && user envp 4096)
lawful t (futex_wait v expected timeout pid root_pa tid) =
    rooted t pid root_pa tid && ltb expected (2 ^ 32) && v % 4 == 0 && paged v 4
lawful t (futex_wake v n pid root_pa tid) =
    rooted t pid root_pa tid && ltb n (2 ^ 32) && v % 4 == 0 && paged v 4
lawful t (pledge v pid root_pa tid) = rooted t pid root_pa tid && v % 8 == 0 && paged v 16
lawful t (create_process_v2 v pid root_pa tid) =
    rooted t pid root_pa tid && v % 8 == 0 && paged v Procs.args_size
lawful t (fb_surface_create width height format pid root_pa tid) =
    rooted t pid root_pa tid
    && leb 1 width
    && leb 1 height
    && format == 1
    && ltb (width * height * 4) (2 ^ 64)
lawful t (fb_surface_destroy handle pid root_pa tid) =
    rooted t pid root_pa tid && ltb handle (2 ^ 32)
lawful t (event_fd_create v initval flags pid root_pa tid) =
    rooted t pid root_pa tid
    && v % 4096 == 0
    && between uproc_shared_base uproc_shared_end v 4096
    && ltb flags 8
lawful t (wake_tid target pid tid) = sent t pid tid && leb 1 target && ltb target (2 ^ 32)
lawful t (fs_seek fd offset whence pid tid) = sent t pid tid && ltb fd (2 ^ 32) && leb whence 2
lawful t (fs_fstat fd v pid root_pa tid) = rooted t pid root_pa tid && ltb fd (2 ^ 32) && user v 128
lawful t (ch_inspect fd v pid root_pa tid) =
    rooted t pid root_pa tid && ltb fd (2 ^ 32) && paged v 64
lawful t (chdir v len pid root_pa tid) = rooted t pid root_pa tid && within 256 v len
lawful t (get_cwd v len pid root_pa tid) = rooted t pid root_pa tid && within 4096 v len
lawful t (get_groups v count pid root_pa tid) =
    rooted t pid root_pa tid && leb count 16 && (count == 0 || user v (count * 4))
lawful t (get_login v len pid root_pa tid) = rooted t pid root_pa tid && within 4096 v len
lawful t (set_uid uid pid tid) = sent t pid tid && ltb uid (2 ^ 32)
lawful t (set_gid gid pid tid) = sent t pid tid && ltb gid (2 ^ 32)
lawful t (set_groups v count pid root_pa tid) =
    rooted t pid root_pa tid && leb count 16 && (count == 0 || user v (count * 4))
lawful t (set_login v len pid root_pa tid) = rooted t pid root_pa tid && within 32 v len
lawful t (argv_envp pid tid) = sent t pid tid

-- What a queue takes of a request: lawful work, if it has room.
abbrev pub granted : Caller → Bool → Option PendingWork → Option PendingWork
granted t full none = none
granted t full (some w) = if not full && lawful t w then some w else none

-- The thread is parked with work queued, or it returns with none.
abbrev pub settled : Verdict → Bool
settled (park_for_publish, some w) = true
settled (return ret, none) = true
settled other = false
