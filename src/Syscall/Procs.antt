-- ===== src/Syscall/Procs.antt =====
-- The calls on processes, threads, futexes and credentials, orbit-core/src/syscall.rs.
use orbit.Base.{ℕ, ◌*◌, ◌%◌, ◌^◌, Bool, not, ltb, ◌==◌, ◌&&◌, ◌||◌, if◌then◌else◌, bit_and}
use orbit.Outcome.{return}
use orbit.Base.{none}
use orbit.Layout.{user_va_ok, user_range_ok}
use orbit.Kernel.Processes.{to_ret, efault, einval}
use orbit.Kernel.Creds.{enametoolong, ngroups_max, max_login_name}
use orbit.Syscall.{
  Caller, Verdict, errno, park_on_manager, struct_fits_in_one_page, PendingWork, create_process,
  create_process_ex, futex_wait, futex_wake, pledge, create_process_v2, wake_tid, get_groups,
  get_login, set_uid, set_gid, set_groups, set_login, argv_envp,
}

unfoldable pub wake_tid_req : Caller → Bool → Verdict
unfolding park_on_manager
wake_tid_req t full =
    let target_tid = t.regs 11 % 2 ^ 32 in
    if target_tid == 0
    then (return 0, none)
    else park_on_manager full (wake_tid target_tid t.pid t.tid)

unfoldable pub getgroups_req : Caller → Bool → Verdict
unfolding to_ret user_range_ok park_on_manager
getgroups_req t full =
    let count = t.regs 12 in
    if ltb ngroups_max count
    then errno einval
    else if ltb 0 count && not (user_range_ok (t.regs 11) (count * 4))
    then errno efault
    else park_on_manager full (get_groups (t.regs 11) count t.pid t.root_pa t.tid)

unfoldable pub getlogin_req : Caller → Bool → Verdict
unfolding to_ret user_va_ok user_range_ok park_on_manager
getlogin_req t full =
    let buf_len = t.regs 12 in
    if buf_len == 0 || ltb 4096 buf_len
    then errno einval
    else if not (user_va_ok (t.regs 11))
    then errno efault
    else if not (user_range_ok (t.regs 11) buf_len)
    then errno efault
    else park_on_manager full (get_login (t.regs 11) buf_len t.pid t.root_pa t.tid)

unfoldable pub setuid_req : Caller → Bool → Verdict
unfolding park_on_manager
setuid_req t full = park_on_manager full (set_uid (t.regs 11 % 2 ^ 32) t.pid t.tid)

unfoldable pub setgid_req : Caller → Bool → Verdict
unfolding park_on_manager
setgid_req t full = park_on_manager full (set_gid (t.regs 11 % 2 ^ 32) t.pid t.tid)

unfoldable pub setgroups_req : Caller → Bool → Verdict
unfolding to_ret user_range_ok park_on_manager
setgroups_req t full =
    let count = t.regs 12 in
    if ltb ngroups_max count
    then errno einval
    else if ltb 0 count && not (user_range_ok (t.regs 11) (count * 4))
    then errno efault
    else park_on_manager full (set_groups (t.regs 11) count t.pid t.root_pa t.tid)

unfoldable pub setlogin_req : Caller → Bool → Verdict
unfolding to_ret user_va_ok user_range_ok park_on_manager
setlogin_req t full =
    let name_len = t.regs 12 in
    if name_len == 0 || ltb max_login_name name_len
    then errno enametoolong
    else if not (user_va_ok (t.regs 11))
    then errno efault
    else if not (user_range_ok (t.regs 11) name_len)
    then errno efault
    else park_on_manager full (set_login (t.regs 11) name_len t.pid t.root_pa t.tid)

unfoldable pub argv_envp_req : Caller → Bool → Verdict
unfolding park_on_manager
argv_envp_req t full = park_on_manager full (argv_envp t.pid t.tid)

unfoldable pub create_process_req : Caller → Bool → Verdict
unfolding to_ret user_va_ok user_range_ok park_on_manager
create_process_req t full =
    if not (user_va_ok (t.regs 11))
    then errno efault
    else if not (user_range_ok (t.regs 11) (t.regs 12))
    then errno efault
    else park_on_manager full
        (create_process (t.regs 11) (t.regs 12) (t.regs 13) (t.regs 14) t.pid t.root_pa t.tid)

-- A blob's address, 0 for none.
abbrev pub blob_vaddr : Bool → ℕ → ℕ
blob_vaddr absent raw = if absent then 0 else raw

abbrev pub argv_blob_max : ℕ
argv_blob_max = 4096

unfoldable pub create_process_ex_req : Caller → Bool → Verdict
unfolding to_ret user_va_ok user_range_ok park_on_manager
create_process_ex_req t full =
    let argv_len = t.regs 16 in
    let argv_vaddr = blob_vaddr (argv_len == 0) (t.regs 15) in
    let envp_vaddr = t.regs 17 in
    if not (user_va_ok (t.regs 11))
    then errno efault
    else if not (argv_len == 0) && not (user_va_ok (t.regs 15))
    then errno efault
    else if not (envp_vaddr == 0) && not (user_va_ok envp_vaddr)
    then errno efault
    else if not (user_range_ok (t.regs 11) (t.regs 12))
    then errno efault
    else if ltb 0 argv_len && not (user_range_ok argv_vaddr argv_len)
    then errno efault
    else if ltb argv_blob_max argv_len
    then errno einval
    else if not (envp_vaddr == 0) && not (envp_vaddr % 4096 == 0)
    then errno einval
    else if not (envp_vaddr == 0) && not (user_range_ok envp_vaddr 4096)
    then errno efault
    else park_on_manager full (
        create_process_ex (t.regs 11) (t.regs 12) (t.regs 13) (t.regs 14) argv_vaddr argv_len
          envp_vaddr t.pid t.root_pa t.tid)

unfoldable pub futex_wait_req : Caller → Bool → Verdict
unfolding to_ret user_va_ok user_range_ok park_on_manager
futex_wait_req t full =
    let uaddr = t.regs 11 in
    if not (uaddr % 4 == 0)
    then errno einval
    else if not (user_range_ok uaddr 4)
    then errno efault
    else if not (user_va_ok uaddr)
    then errno efault
    else park_on_manager full
        (futex_wait uaddr (t.regs 12 % 2 ^ 32) (t.regs 13) t.pid t.root_pa t.tid)

unfoldable pub futex_wake_req : Caller → Bool → Verdict
unfolding to_ret user_va_ok user_range_ok park_on_manager
futex_wake_req t full =
    let uaddr = t.regs 11 in
    if not (uaddr % 4 == 0)
    then errno einval
    else if not (user_range_ok uaddr 4)
    then errno efault
    else if not (user_va_ok uaddr)
    then errno efault
    else park_on_manager full (futex_wake uaddr (t.regs 12 % 2 ^ 32) t.pid t.root_pa t.tid)

-- `affinity & !allowed != 0` is that the mask loses a bit under `allowed`.
unfoldable pub create_thread : Caller → Bool → Verdict
unfolding to_ret user_va_ok user_range_ok park_on_manager
create_thread t full =
    let entry = t.regs 11 in
    let allowed = t.regs 12 in
    let affinity = t.regs 13 in
    if not (user_va_ok entry)
    then errno efault
    else if not (user_range_ok entry 1)
    then errno efault
    else if not (allowed == 0) && not (affinity == 0) && not (bit_and affinity allowed == affinity)
    then errno einval
    else park_on_manager full (
        PendingWork.create_thread entry allowed affinity (t.regs 14) t.pid t.allowed_affinity t.tid)

-- The size of the structure that a call reads in one window.
abbrev pub in_window : Caller → Bool → ℕ → Verdict → Verdict
in_window t full size queued =
    if not (t.regs 11 % 8 == 0)
    then errno einval
    else if not (user_range_ok (t.regs 11) size)
    then errno efault
    else if not (struct_fits_in_one_page (t.regs 11) size)
    then errno einval
    else if not (user_va_ok (t.regs 11))
    then errno efault
    else queued

-- The size of `PermsRequest` is 16.
unfoldable pub pledge_req : Caller → Bool → Verdict
unfolding to_ret user_va_ok user_range_ok struct_fits_in_one_page park_on_manager
pledge_req t full =
    in_window t full 16 (park_on_manager full (pledge (t.regs 11) t.pid t.root_pa t.tid))

abbrev pub args_size : ℕ
args_size = 168

unfoldable pub create_process_v2_req : Caller → Bool → Verdict
unfolding to_ret user_va_ok user_range_ok struct_fits_in_one_page park_on_manager
create_process_v2_req t full =
    in_window t full args_size
      (park_on_manager full (create_process_v2 (t.regs 11) t.pid t.root_pa t.tid))
