-- ===== src/Syscall.antt =====
-- The boundary of the system calls, orbit-core/src/syscall.rs: what a handler reads, the work that it
-- may queue for the manager (`PendingWork` of orbit-core/src/pending_work.rs), and its tail. A mask
-- below a power of two is written as a remainder or a quotient; `wait_pid` is in Kernel/Wait.
pub mod Calls
pub mod Files
pub mod Lawful
pub mod Memory
pub mod Procs
mod Tests
use orbit.Base.{ℕ, ◌+◌, ◌-◌, ◌/◌, Bool, true, ◌==◌, if◌then◌else◌, Option, none, some}
use orbit.BindSpec.{BindSpec}
use orbit.Outcome.{SyscallOutcome, return, park_for_publish}
use orbit.Kernel.Processes.{to_ret, eagain}

-- What the handlers read of the calling thread, its registers included.
pub record Caller : Type 0 where
  pub pid : ℕ
  pub tid : ℕ
  pub root_pa : ℕ
  pub allowed_affinity : ℕ
  pub regs : ℕ → ℕ

-- The work of the handlers here, each request's fields first.
pub data PendingWork : Type 0 where
  mem_map :
      (vaddr size page_permissions : ℕ) (share_with_kernel : Bool) (pid root_pa tid : ℕ)
      → PendingWork
  net_channel_creation :
      (nc_vaddr region_size nc_type : ℕ) (bind : BindSpec) (pid root_pa tid : ℕ) → PendingWork
  close_handle : (fd pid root_pa tid : ℕ) → PendingWork
  create_process : (elf_vaddr elf_len allowed_affinity affinity pid root_pa tid : ℕ) → PendingWork
  create_thread : (entry allowed_affinity affinity arg pid parent_allowed tid : ℕ) → PendingWork
  fs_open : (path_vaddr path_len flags pid root_pa tid : ℕ) → PendingWork
  fs_read : (fd buf_vaddr len pid root_pa tid : ℕ) → PendingWork
  fs_stat : (path_vaddr path_len stat_vaddr pid root_pa tid : ℕ) → PendingWork
  fs_readdir : (fd buf_vaddr len pid root_pa tid : ℕ) → PendingWork
  create_process_ex :
      (elf_vaddr elf_len allowed_affinity affinity argv_vaddr argv_len envp_vaddr pid root_pa
        tid : ℕ)
      → PendingWork
  futex_wait : (uaddr expected timeout_ns pid root_pa tid : ℕ) → PendingWork
  futex_wake : (uaddr n pid root_pa tid : ℕ) → PendingWork
  pledge : (req_vaddr pid root_pa tid : ℕ) → PendingWork
  create_process_v2 : (args_vaddr pid root_pa tid : ℕ) → PendingWork
  fb_surface_create : (width height format_raw pid root_pa tid : ℕ) → PendingWork
  fb_surface_destroy : (handle pid root_pa tid : ℕ) → PendingWork
  event_fd_create : (vaddr_hint initval flags pid root_pa tid : ℕ) → PendingWork
  wake_tid : (target_tid pid tid : ℕ) → PendingWork
  fs_seek : (fd offset whence pid tid : ℕ) → PendingWork
  fs_fstat : (fd stat_vaddr pid root_pa tid : ℕ) → PendingWork
  ch_inspect : (fd info_vaddr pid root_pa tid : ℕ) → PendingWork
  chdir : (path_vaddr path_len pid root_pa tid : ℕ) → PendingWork
  get_cwd : (buf_vaddr buf_len pid root_pa tid : ℕ) → PendingWork
  get_groups : (buf_vaddr count pid root_pa tid : ℕ) → PendingWork
  get_login : (buf_vaddr buf_len pid root_pa tid : ℕ) → PendingWork
  set_uid : (uid pid tid : ℕ) → PendingWork
  set_gid : (gid pid tid : ℕ) → PendingWork
  set_groups : (buf_vaddr count pid root_pa tid : ℕ) → PendingWork
  set_login : (name_vaddr name_len pid root_pa tid : ℕ) → PendingWork
  argv_envp : (pid tid : ℕ) → PendingWork

-- A handler's outcome and what it queued.
abbrev pub Verdict : Type 0
Verdict = SyscallOutcome × Option PendingWork

abbrev pub errno : ℕ → Verdict
errno code = (return (to_ret code), none)

-- `full` is whether the work queue is.
unfoldable pub park_on_manager : Bool → PendingWork → Verdict
unfolding to_ret
park_on_manager full w = if full then errno eagain else (park_for_publish, some w)

-- The pages of 4096 bytes of the first and the last byte are compared.
unfoldable pub struct_fits_in_one_page : ℕ → ℕ → Bool
struct_fits_in_one_page vaddr size =
    if size == 0 then true else vaddr / 4096 == (vaddr + size - 1) / 4096
