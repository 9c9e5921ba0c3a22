-- ===== src/Layout.antt =====
-- The user half of the address space, orbit-abi/src/layout.rs: its bounds and the tests of a range.
use orbit.Base.{
  ℕ, ◌+◌, ◌*◌, ◌^◌, ◌≡◌, Bool, false, ltb, leb, ◌&&◌, if◌then◌else◌, Option, none, some, arith,
}

abbrev pub large_page : ℕ
large_page = 2 * 1024 * 1024

abbrev pub user_null_guard_end : ℕ
user_null_guard_end = large_page

abbrev pub uproc_priv_base : ℕ
uproc_priv_base = 0x3_0000_0000

abbrev pub uproc_priv_end : ℕ
uproc_priv_end = 0x4000_0000_0000

abbrev pub uproc_shared_base : ℕ
uproc_shared_base = uproc_priv_end

abbrev pub uproc_shared_end : ℕ
uproc_shared_end = 0x7E00_0000_0000

abbrev pub user_va_end : ℕ
user_va_end = uproc_shared_end

unfoldable pub checked_add : ℕ → ℕ → Option ℕ
checked_add a b = if ltb (a + b) (2 ^ 64) then some (a + b) else none

abbrev pub ends_by : ℕ → Option ℕ → Bool
ends_by limit none = false
ends_by limit (some e) = leb e limit

unfoldable pub user_range_ok : ℕ → ℕ → Bool
unfolding checked_add
user_range_ok vaddr len =
    if ltb vaddr user_null_guard_end then false else ends_by user_va_end (checked_add vaddr len)

unfoldable pub user_priv_range_ok : ℕ → ℕ → Bool
unfolding checked_add
user_priv_range_ok vaddr len =
    if ltb vaddr uproc_priv_base then false else ends_by uproc_priv_end (checked_add vaddr len)

unfoldable pub user_shared_range_ok : ℕ → ℕ → Bool
unfolding checked_add
user_shared_range_ok vaddr len =
    if ltb vaddr uproc_shared_base then false else ends_by uproc_shared_end (checked_add vaddr len)

-- `UserVa::new(raw).is_ok()`.
unfoldable pub user_va_ok : ℕ → Bool
unfolding user_range_ok
user_va_ok raw = user_range_ok raw 1

-- A range between two bounds, in plain arithmetic.
abbrev pub between : ℕ → ℕ → ℕ → ℕ → Bool
between low high vaddr len = leb low vaddr && leb (vaddr + len) high

pub user_range_ok-between :
    (vaddr len : ℕ) → user_range_ok vaddr len ≡ between user_null_guard_end user_va_end vaddr len
unfolding user_range_ok
user_range_ok-between vaddr len = ground arith

pub user_priv_range_ok-between :
    (vaddr len : ℕ)
    → user_priv_range_ok vaddr len ≡ between uproc_priv_base uproc_priv_end vaddr len
unfolding user_priv_range_ok
user_priv_range_ok-between vaddr len = ground arith

pub user_shared_range_ok-between :
    (vaddr len : ℕ)
    → user_shared_range_ok vaddr len ≡ between uproc_shared_base uproc_shared_end vaddr len
unfolding user_shared_range_ok
user_shared_range_ok-between vaddr len = ground arith

pub user_va_ok-between : (raw : ℕ) → user_va_ok raw ≡ between user_null_guard_end user_va_end raw 1
unfolding user_va_ok
user_va_ok-between raw = ground arith
