-- ===== src/Syscall/Calls.antt =====
-- The calls, each with its handler and with the request that the registers spell.
use orbit.Base.{
  ◌*◌, ◌%◌, ◌^◌, ◌≡◌, Bool, true, not, ◌==◌, if◌then◌else◌, Option, none, some, arith, refl,
}
use orbit.BindSpec.{BindSpec, unpack}
use orbit.Layout.{
  user_va_ok-between, user_range_ok-between, user_priv_range_ok-between,
  user_shared_range_ok-between,
}
use orbit.Syscall.{Caller, PendingWork, Verdict}
use orbit.Syscall.Memory
use orbit.Syscall.Files
use orbit.Syscall.Procs
use orbit.Syscall.Lawful.{lawful, granted, settled}

pub data Call : Type 0 where
  mmap fb_surface_create fb_surface_destroy eventfd create_netch fs_seek fs_fstat : Call
  ch_inspect chdir getcwd close_handle fs_open fs_read fs_stat : Call
  fs_readdir wake_tid getgroups getlogin setuid setgid setgroups : Call
  setlogin argv_envp create_process create_process_ex futex_wait futex_wake create_thread : Call
  pledge create_process_v2 : Call

unfoldable pub handle : Call → Caller → Bool → Verdict
unfolding Memory.mmap_req Memory.fb_surface_create_req Memory.fb_surface_destroy_req
    Memory.eventfd_req Memory.nc_create_req Files.fs_seek_req Files.fs_fstat_req
    Files.ch_inspect_req Files.chdir_req Files.getcwd_req Files.close_req Files.fs_open_req
    Files.fs_read_req Files.fs_stat_req Files.fs_readdir_req Procs.wake_tid_req Procs.getgroups_req
    Procs.getlogin_req Procs.setuid_req Procs.setgid_req Procs.setgroups_req Procs.setlogin_req
    Procs.argv_envp_req Procs.create_process_req Procs.create_process_ex_req Procs.futex_wait_req
    Procs.futex_wake_req Procs.create_thread Procs.pledge_req Procs.create_process_v2_req
handle mmap t full = Memory.mmap_req t full
handle fb_surface_create t full = Memory.fb_surface_create_req t full
handle fb_surface_destroy t full = Memory.fb_surface_destroy_req t full
handle eventfd t full = Memory.eventfd_req t full
handle create_netch t full = Memory.nc_create_req t full
handle fs_seek t full = Files.fs_seek_req t full
handle fs_fstat t full = Files.fs_fstat_req t full
handle ch_inspect t full = Files.ch_inspect_req t full
handle chdir t full = Files.chdir_req t full
handle getcwd t full = Files.getcwd_req t full
handle close_handle t full = Files.close_req t full
handle fs_open t full = Files.fs_open_req t full
handle fs_read t full = Files.fs_read_req t full
handle fs_stat t full = Files.fs_stat_req t full
handle fs_readdir t full = Files.fs_readdir_req t full
handle wake_tid t full = Procs.wake_tid_req t full
handle getgroups t full = Procs.getgroups_req t full
handle getlogin t full = Procs.getlogin_req t full
handle setuid t full = Procs.setuid_req t full
handle setgid t full = Procs.setgid_req t full
handle setgroups t full = Procs.setgroups_req t full
handle setlogin t full = Procs.setlogin_req t full
handle argv_envp t full = Procs.argv_envp_req t full
handle create_process t full = Procs.create_process_req t full
handle create_process_ex t full = Procs.create_process_ex_req t full
handle futex_wait t full = Procs.futex_wait_req t full
handle futex_wake t full = Procs.futex_wake_req t full
handle create_thread t full = Procs.create_thread t full
handle pledge t full = Procs.pledge_req t full
handle create_process_v2 t full = Procs.create_process_v2_req t full

abbrev channel : Caller → Option BindSpec → Option PendingWork
channel t none = none
channel t (some bind) = some (
    PendingWork.net_channel_creation (t.regs 11) (t.regs 12) (t.regs 13) bind t.pid t.root_pa t.tid)

unfoldable pub request : Call → Caller → Option PendingWork
unfolding unpack
request mmap t = some (
    PendingWork.mem_map (t.regs 11) (t.regs 12) (t.regs 13) (not (t.regs 14 == 0)) t.pid t.root_pa
      t.tid)
request fb_surface_create t = some (
    PendingWork.fb_surface_create (t.regs 11 % 2 ^ 32) (t.regs 12 % 2 ^ 32) (t.regs 13 % 2 ^ 32)
      t.pid t.root_pa t.tid)
request fb_surface_destroy t =
    some (PendingWork.fb_surface_destroy (t.regs 11 % 2 ^ 32) t.pid t.root_pa t.tid)
request eventfd t =
    some (
      PendingWork.event_fd_create (t.regs 11) (t.regs 12) (t.regs 13 % 2 ^ 32) t.pid t.root_pa
        t.tid)
request create_netch t = channel t (unpack (t.regs 14))
request fs_seek t =
    some (PendingWork.fs_seek (t.regs 11 % 2 ^ 32) (t.regs 12) (t.regs 13 % 2 ^ 32) t.pid t.tid)
request fs_fstat t =
    some (PendingWork.fs_fstat (t.regs 11 % 2 ^ 32) (t.regs 12) t.pid t.root_pa t.tid)
request ch_inspect t =
    some (PendingWork.ch_inspect (t.regs 11 % 2 ^ 32) (t.regs 12) t.pid t.root_pa t.tid)
request chdir t = some (PendingWork.chdir (t.regs 11) (t.regs 12) t.pid t.root_pa t.tid)
request getcwd t = some (PendingWork.get_cwd (t.regs 11) (t.regs 12) t.pid t.root_pa t.tid)
request close_handle t = some (PendingWork.close_handle (t.regs 11 % 2 ^ 32) t.pid t.root_pa t.tid)
request fs_open t =
    some (PendingWork.fs_open (t.regs 11) (t.regs 12) (t.regs 13) t.pid t.root_pa t.tid)
request fs_read t =
    some (PendingWork.fs_read (t.regs 11 % 2 ^ 32) (t.regs 12) (t.regs 13) t.pid t.root_pa t.tid)
request fs_stat t =
    some (PendingWork.fs_stat (t.regs 11) (t.regs 12) (t.regs 13) t.pid t.root_pa t.tid)
request fs_readdir t =
    some (PendingWork.fs_readdir (t.regs 11 % 2 ^ 32) (t.regs 12) (t.regs 13) t.pid t.root_pa t.tid)
request wake_tid t = some (PendingWork.wake_tid (t.regs 11 % 2 ^ 32) t.pid t.tid)
request getgroups t = some (PendingWork.get_groups (t.regs 11) (t.regs 12) t.pid t.root_pa t.tid)
request getlogin t = some (PendingWork.get_login (t.regs 11) (t.regs 12) t.pid t.root_pa t.tid)
request setuid t = some (PendingWork.set_uid (t.regs 11 % 2 ^ 32) t.pid t.tid)
request setgid t = some (PendingWork.set_gid (t.regs 11 % 2 ^ 32) t.pid t.tid)
request setgroups t = some (PendingWork.set_groups (t.regs 11) (t.regs 12) t.pid t.root_pa t.tid)
request setlogin t = some (PendingWork.set_login (t.regs 11) (t.regs 12) t.pid t.root_pa t.tid)
request argv_envp t = some (PendingWork.argv_envp t.pid t.tid)
request create_process t = some (
    PendingWork.create_process (t.regs 11) (t.regs 12) (t.regs 13) (t.regs 14) t.pid t.root_pa
      t.tid)
request create_process_ex t = some (
    PendingWork.create_process_ex (t.regs 11) (t.regs 12) (t.regs 13) (t.regs 14)
      (if t.regs 16 == 0 then 0 else t.regs 15) (t.regs 16) (t.regs 17) t.pid t.root_pa t.tid)
request futex_wait t =
    some (PendingWork.futex_wait (t.regs 11) (t.regs 12 % 2 ^ 32) (t.regs 13) t.pid t.root_pa t.tid)
request futex_wake t =
    some (PendingWork.futex_wake (t.regs 11) (t.regs 12 % 2 ^ 32) t.pid t.root_pa t.tid)
request create_thread t = some (
    PendingWork.create_thread (t.regs 11) (t.regs 12) (t.regs 13) (t.regs 14) t.pid
      t.allowed_affinity t.tid)
request pledge t = some (PendingWork.pledge (t.regs 11) t.pid t.root_pa t.tid)
request create_process_v2 t = some (PendingWork.create_process_v2 (t.regs 11) t.pid t.root_pa t.tid)

handle-is_settled : (c : Call) (t : Caller) (full : Bool) → settled (handle c t full) ≡ true
unfolding handle
handle-is_settled mmap t full = ground arith
handle-is_settled fb_surface_create t full = ground arith
handle-is_settled fb_surface_destroy t full = ground arith
handle-is_settled eventfd t full = ground arith
handle-is_settled create_netch t full = go (unpack (t.regs 14))
  where
    go : (o : Option BindSpec) → settled (Memory.nc_create_bound t full o) ≡ true
    go none = refl
    go (some bind) = ground arith
handle-is_settled fs_seek t full = ground arith
handle-is_settled fs_fstat t full = ground arith
handle-is_settled ch_inspect t full = ground arith
handle-is_settled chdir t full = ground arith
handle-is_settled getcwd t full = ground arith
handle-is_settled close_handle t full = ground arith
handle-is_settled fs_open t full = ground arith
handle-is_settled fs_read t full = ground arith
handle-is_settled fs_stat t full = ground arith
handle-is_settled fs_readdir t full = ground arith
handle-is_settled wake_tid t full = ground arith
handle-is_settled getgroups t full = ground arith
handle-is_settled getlogin t full = ground arith
handle-is_settled setuid t full = ground arith
handle-is_settled setgid t full = ground arith
handle-is_settled setgroups t full = ground arith
handle-is_settled setlogin t full = ground arith
handle-is_settled argv_envp t full = ground arith
handle-is_settled create_process t full = ground arith
handle-is_settled create_process_ex t full = ground arith
handle-is_settled futex_wait t full = ground arith
handle-is_settled futex_wake t full = ground arith
handle-is_settled create_thread t full = ground arith
handle-is_settled pledge t full = ground arith
handle-is_settled create_process_v2 t full = ground arith

handle-queued :
    (c : Call) (t : Caller) (full : Bool) → (handle c t full).1 ≡ granted t full (request c t)
unfolding handle request lawful
handle-queued mmap t full = ground (
  arith,
  user_va_ok-between (t.regs 11),
  user_priv_range_ok-between (t.regs 11) (t.regs 12),
  user_shared_range_ok-between (t.regs 11) (t.regs 12),
)
handle-queued fb_surface_create t full = ground arith
handle-queued fb_surface_destroy t full = ground arith
handle-queued eventfd t full =
    ground (arith, user_va_ok-between (t.regs 11), user_shared_range_ok-between (t.regs 11) 4096)
handle-queued create_netch t full = go (unpack (t.regs 14))
  where
    go : (o : Option BindSpec) → (Memory.nc_create_bound t full o).1 ≡ granted t full (channel t o)
    go none = refl
    go (some bind) = ground (
      arith,
      user_va_ok-between (t.regs 11),
      user_shared_range_ok-between (t.regs 11) (t.regs 12),
    )
handle-queued fs_seek t full = ground arith
handle-queued fs_fstat t full =
    ground (arith, user_va_ok-between (t.regs 12), user_range_ok-between (t.regs 12) 128)
handle-queued ch_inspect t full =
    ground (arith, user_va_ok-between (t.regs 12), user_range_ok-between (t.regs 12) 64)
handle-queued chdir t full =
    ground (arith, user_va_ok-between (t.regs 11), user_range_ok-between (t.regs 11) (t.regs 12))
handle-queued getcwd t full =
    ground (arith, user_va_ok-between (t.regs 11), user_range_ok-between (t.regs 11) (t.regs 12))
handle-queued close_handle t full = ground arith
handle-queued fs_open t full =
    ground (arith, user_va_ok-between (t.regs 11), user_range_ok-between (t.regs 11) (t.regs 12))
handle-queued fs_read t full =
    ground (arith, user_va_ok-between (t.regs 12), user_range_ok-between (t.regs 12) (t.regs 13))
handle-queued fs_stat t full = ground (
  arith,
  user_va_ok-between (t.regs 11),
  user_va_ok-between (t.regs 13),
  user_range_ok-between (t.regs 11) (t.regs 12),
  user_range_ok-between (t.regs 13) 128,
)
handle-queued fs_readdir t full =
    ground (arith, user_va_ok-between (t.regs 12), user_range_ok-between (t.regs 12) (t.regs 13))
handle-queued wake_tid t full = ground arith
handle-queued getgroups t full = ground (arith, user_range_ok-between (t.regs 11) (t.regs 12 * 4))
handle-queued getlogin t full =
    ground (arith, user_va_ok-between (t.regs 11), user_range_ok-between (t.regs 11) (t.regs 12))
handle-queued setuid t full = ground arith
handle-queued setgid t full = ground arith
handle-queued setgroups t full = ground (arith, user_range_ok-between (t.regs 11) (t.regs 12 * 4))
handle-queued setlogin t full =
    ground (arith, user_va_ok-between (t.regs 11), user_range_ok-between (t.regs 11) (t.regs 12))
handle-queued argv_envp t full = ground arith
handle-queued create_process t full =
    ground (arith, user_va_ok-between (t.regs 11), user_range_ok-between (t.regs 11) (t.regs 12))
handle-queued create_process_ex t full = ground (
  arith,
  user_va_ok-between (t.regs 11),
  user_va_ok-between (t.regs 15),
  user_va_ok-between (t.regs 17),
  user_range_ok-between (t.regs 11) (t.regs 12),
  user_range_ok-between (t.regs 15) (t.regs 16),
  user_range_ok-between (t.regs 17) 4096,
)
handle-queued futex_wait t full =
    ground (arith, user_va_ok-between (t.regs 11), user_range_ok-between (t.regs 11) 4)
handle-queued futex_wake t full =
    ground (arith, user_va_ok-between (t.regs 11), user_range_ok-between (t.regs 11) 4)
handle-queued create_thread t full =
    ground (arith, user_va_ok-between (t.regs 11), user_range_ok-between (t.regs 11) 1)
handle-queued pledge t full =
    ground (arith, user_va_ok-between (t.regs 11), user_range_ok-between (t.regs 11) 16)
handle-queued create_process_v2 t full =
    ground (arith, user_va_ok-between (t.regs 11), user_range_ok-between (t.regs 11) 168)

-- A call parks its thread and queues the request that the registers spell if the queue has room and
-- the request is lawful: the calling thread is its sender, its addresses and lengths lie where the
-- manager may use them, and its other fields are within their bounds. Otherwise the call returns and
-- queues nothing.
pub handle_lem :
    (c : Call) (t : Caller) (full : Bool)
    → (settled (handle c t full) ≡ true) × ((handle c t full).1 ≡ granted t full (request c t))
handle_lem c t full = (handle-is_settled c t full, handle-queued c t full)
