-- ===== src/Paging/Entry/Bits/Tests.antt =====
-- Runs of the bit accessors of mmu/src/sv48.rs.
use orbit.Base.{ℕ, true, false, ◌&&◌, ◌≡◌, refl}
use orbit.Paging.Entry.{get_bit, set_bit}
use orbit.Paging.Entry.Bits.{
  is_readable, set_readable, is_writeable, set_writeable, is_executable, set_executable,
  is_user_page, set_user_page, is_global_page, set_global_page, was_accessed, set_accessed,
  is_dirty, set_dirty,
}

abbrev all_set : ℕ
all_set =
    set_dirty
      (set_accessed
        (set_global_page
          (set_user_page (set_executable (set_writeable (set_readable 0x400 true) true) true) true)
          true)
        true)
      true

bits_set : all_set ≡ 0x4FE
unfolding set_bit set_readable set_writeable set_executable set_user_page set_global_page
    set_accessed set_dirty
bits_set = refl

bits_cleared :
    set_dirty
      (set_accessed
        (set_global_page
          (set_user_page
            (set_executable (set_writeable (set_readable 0x4FF false) false) false)
            false)
          false)
        false)
      false
    ≡ 0x401
unfolding set_bit set_readable set_writeable set_executable set_user_page set_global_page
    set_accessed set_dirty
bits_cleared = refl

bits_read :
    (is_readable all_set
      && is_writeable all_set
      && is_executable all_set
      && is_user_page all_set
      && is_global_page all_set
      && was_accessed all_set
      && is_dirty all_set)
    ≡ true
unfolding get_bit set_bit is_readable set_readable is_writeable set_writeable is_executable
    set_executable is_user_page set_user_page is_global_page set_global_page was_accessed
    set_accessed is_dirty set_dirty
bits_read = refl
