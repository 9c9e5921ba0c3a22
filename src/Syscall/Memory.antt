-- ===== src/Syscall/Memory.antt =====
-- The calls that map memory, orbit-core/src/syscall.rs.
use orbit.Base.{
  ◌*◌, ◌/◌, ◌%◌, ◌^◌, Bool, not, ltb, ◌==◌, ◌&&◌, ◌||◌, if◌then◌else◌, Option, none, some,
}
use orbit.Layout.{user_va_ok, user_priv_range_ok, user_shared_range_ok}
use orbit.BindSpec.{BindSpec, unpack}
use orbit.Kernel.Processes.{to_ret, efault, einval}
use orbit.Syscall.{
  Caller, Verdict, errno, park_on_manager, mem_map, net_channel_creation, fb_surface_create,
  fb_surface_destroy, event_fd_create,
}

-- The range must lie in the half of its kind, and a shared mapping is not executable; the bit of that
-- permission is 8.
unfoldable pub mmap_req : Caller → Bool → Verdict
unfolding to_ret user_va_ok user_priv_range_ok user_shared_range_ok park_on_manager
mmap_req t full =
    let vaddr = t.regs 11 in
    let size = t.regs 12 in
    let share = ltb 0 (t.regs 14) in
    if not (user_va_ok vaddr)
    then errno efault
    else if not (if share then user_shared_range_ok vaddr size else user_priv_range_ok vaddr size)
    then errno einval
    else if share && not (t.regs 13 / 8 % 2 == 0)
    then errno einval
    else park_on_manager full (mem_map vaddr size (t.regs 13) share t.pid t.root_pa t.tid)

-- The one format is 1, with four bytes to a pixel.
unfoldable pub fb_surface_create_req : Caller → Bool → Verdict
unfolding to_ret park_on_manager
fb_surface_create_req t full =
    let width = t.regs 11 % 2 ^ 32 in
    let height = t.regs 12 % 2 ^ 32 in
    let format_raw = t.regs 13 % 2 ^ 32 in
    if width == 0 || height == 0
    then errno einval
    else if not (format_raw == 1)
    then errno einval
    else if not (ltb (width * height) (2 ^ 64)) || not (ltb (width * height * 4) (2 ^ 64))
    then errno einval
    else park_on_manager full (fb_surface_create width height format_raw t.pid t.root_pa t.tid)

-- The flags are the three lowest bits.
unfoldable pub eventfd_req : Caller → Bool → Verdict
unfolding to_ret user_va_ok user_shared_range_ok park_on_manager
eventfd_req t full =
    let vaddr_hint = t.regs 11 in
    let flags = t.regs 13 % 2 ^ 32 in
    if not (user_shared_range_ok vaddr_hint 4096)
    then errno einval
    else if not (vaddr_hint % 4096 == 0)
    then errno einval
    else if not (flags / 8 == 0)
    then errno einval
    else if not (user_va_ok vaddr_hint)
    then errno efault
    else park_on_manager full (event_fd_create vaddr_hint (t.regs 12) flags t.pid t.root_pa t.tid)

unfoldable pub fb_surface_destroy_req : Caller → Bool → Verdict
unfolding park_on_manager
fb_surface_destroy_req t full =
    park_on_manager full (fb_surface_destroy (t.regs 11 % 2 ^ 32) t.pid t.root_pa t.tid)

-- What follows on the spec that the register unpacks to.
abbrev pub nc_create_bound : Caller → Bool → Option BindSpec → Verdict
nc_create_bound t full none = errno einval
nc_create_bound t full (some bind) =
    if not (user_va_ok (t.regs 11))
    then errno efault
    else if not (user_shared_range_ok (t.regs 11) (t.regs 12))
    then errno einval
    else park_on_manager full
        (net_channel_creation (t.regs 11) (t.regs 12) (t.regs 13) bind t.pid t.root_pa t.tid)

unfoldable pub nc_create_req : Caller → Bool → Verdict
unfolding to_ret user_va_ok user_shared_range_ok unpack park_on_manager
nc_create_req t full = nc_create_bound t full (unpack (t.regs 14))
