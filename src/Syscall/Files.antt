-- ===== src/Syscall/Files.antt =====
-- The calls on files, directories and descriptors, orbit-core/src/syscall.rs.
use orbit.Base.{ℕ, ◌*◌, ◌%◌, ◌^◌, Bool, not, ltb, ◌==◌, ◌||◌, if◌then◌else◌}
use orbit.Layout.{user_va_ok, user_range_ok}
use orbit.Kernel.Processes.{to_ret, efault, einval}
use orbit.Kernel.Creds.{enametoolong}
use orbit.Syscall.{
  Caller, Verdict, errno, park_on_manager, struct_fits_in_one_page, close_handle, fs_open, fs_read,
  fs_stat, fs_readdir, fs_seek, fs_fstat, ch_inspect, chdir, get_cwd,
}

abbrev pub max_fs_path_len : ℕ
max_fs_path_len = 256

abbrev pub max_fs_read_len : ℕ
max_fs_read_len = 16 * 4096

-- The sizes of `Stat` and `ChInfo`.
abbrev pub stat_size : ℕ
stat_size = 128

abbrev pub info_size : ℕ
info_size = 64

unfoldable pub fs_seek_req : Caller → Bool → Verdict
unfolding to_ret park_on_manager
fs_seek_req t full =
    let whence = t.regs 13 % 2 ^ 32 in
    if ltb 2 whence
    then errno einval
    else park_on_manager full (fs_seek (t.regs 11 % 2 ^ 32) (t.regs 12) whence t.pid t.tid)

unfoldable pub fs_fstat_req : Caller → Bool → Verdict
unfolding to_ret user_va_ok user_range_ok park_on_manager
fs_fstat_req t full =
    let stat_vaddr = t.regs 12 in
    if not (user_va_ok stat_vaddr)
    then errno efault
    else if not (user_range_ok stat_vaddr stat_size)
    then errno efault
    else park_on_manager full (fs_fstat (t.regs 11 % 2 ^ 32) stat_vaddr t.pid t.root_pa t.tid)

unfoldable pub ch_inspect_req : Caller → Bool → Verdict
unfolding to_ret user_va_ok user_range_ok struct_fits_in_one_page park_on_manager
ch_inspect_req t full =
    let info_vaddr = t.regs 12 in
    if not (user_va_ok info_vaddr)
    then errno efault
    else if not (user_range_ok info_vaddr info_size)
    then errno efault
    else if not (struct_fits_in_one_page info_vaddr info_size)
    then errno einval
    else park_on_manager full (ch_inspect (t.regs 11 % 2 ^ 32) info_vaddr t.pid t.root_pa t.tid)

unfoldable pub chdir_req : Caller → Bool → Verdict
unfolding to_ret user_va_ok user_range_ok park_on_manager
chdir_req t full =
    let path_len = t.regs 12 in
    if path_len == 0
    then errno einval
    else if ltb max_fs_path_len path_len
    then errno enametoolong
    else if not (user_va_ok (t.regs 11))
    then errno efault
    else if not (user_range_ok (t.regs 11) path_len)
    then errno efault
    else park_on_manager full (chdir (t.regs 11) path_len t.pid t.root_pa t.tid)

unfoldable pub getcwd_req : Caller → Bool → Verdict
unfolding to_ret user_va_ok user_range_ok park_on_manager
getcwd_req t full =
    let buf_len = t.regs 12 in
    if buf_len == 0 || ltb 4096 buf_len
    then errno einval
    else if not (user_va_ok (t.regs 11))
    then errno efault
    else if not (user_range_ok (t.regs 11) buf_len)
    then errno efault
    else park_on_manager full (get_cwd (t.regs 11) buf_len t.pid t.root_pa t.tid)

unfoldable pub close_req : Caller → Bool → Verdict
unfolding park_on_manager
close_req t full = park_on_manager full (close_handle (t.regs 11 % 2 ^ 32) t.pid t.root_pa t.tid)

unfoldable pub fs_open_req : Caller → Bool → Verdict
unfolding to_ret user_va_ok user_range_ok park_on_manager
fs_open_req t full =
    let path_len = t.regs 12 in
    if not (user_va_ok (t.regs 11))
    then errno efault
    else if path_len == 0 || ltb max_fs_path_len path_len
    then errno einval
    else if not (user_range_ok (t.regs 11) path_len)
    then errno efault
    else park_on_manager full (fs_open (t.regs 11) path_len (t.regs 13) t.pid t.root_pa t.tid)

unfoldable pub fs_read_req : Caller → Bool → Verdict
unfolding to_ret user_va_ok user_range_ok park_on_manager
fs_read_req t full =
    let len = t.regs 13 in
    if not (user_va_ok (t.regs 12))
    then errno efault
    else if len == 0 || ltb max_fs_read_len len
    then errno einval
    else if not (user_range_ok (t.regs 12) len)
    then errno efault
    else park_on_manager full (fs_read (t.regs 11 % 2 ^ 32) (t.regs 12) len t.pid t.root_pa t.tid)

unfoldable pub fs_stat_req : Caller → Bool → Verdict
unfolding to_ret user_va_ok user_range_ok park_on_manager
fs_stat_req t full =
    let path_len = t.regs 12 in
    if not (user_va_ok (t.regs 11))
    then errno efault
    else if not (user_va_ok (t.regs 13))
    then errno efault
    else if path_len == 0 || ltb max_fs_path_len path_len
    then errno einval
    else if not (user_range_ok (t.regs 11) path_len)
    then errno efault
    else if not (user_range_ok (t.regs 13) stat_size)
    then errno efault
    else park_on_manager full (fs_stat (t.regs 11) path_len (t.regs 13) t.pid t.root_pa t.tid)

unfoldable pub fs_readdir_req : Caller → Bool → Verdict
unfolding to_ret user_va_ok user_range_ok park_on_manager
fs_readdir_req t full =
    let len = t.regs 13 in
    if not (user_va_ok (t.regs 12))
    then errno efault
    else if len == 0 || ltb 4096 len
    then errno einval
    else if not (user_range_ok (t.regs 12) len)
    then errno efault
    else park_on_manager full
        (fs_readdir (t.regs 11 % 2 ^ 32) (t.regs 12) len t.pid t.root_pa t.tid)
