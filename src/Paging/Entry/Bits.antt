-- ===== src/Paging/Entry/Bits.antt =====
-- mmu/src/sv48.rs: the bits of a page-table entry that a mapping does not read one by one.
pub mod Tests
use orbit.Base.{ℕ, Bool}
use orbit.Paging.Entry.{get_bit, set_bit}

unfoldable pub is_readable : ℕ → Bool
unfolding get_bit
is_readable raw = get_bit raw 1

unfoldable pub set_readable : ℕ → Bool → ℕ
unfolding set_bit
set_readable raw readable = set_bit raw 1 readable

unfoldable pub is_writeable : ℕ → Bool
unfolding get_bit
is_writeable raw = get_bit raw 2

unfoldable pub set_writeable : ℕ → Bool → ℕ
unfolding set_bit
set_writeable raw writeable = set_bit raw 2 writeable

unfoldable pub is_executable : ℕ → Bool
unfolding get_bit
is_executable raw = get_bit raw 3

unfoldable pub set_executable : ℕ → Bool → ℕ
unfolding set_bit
set_executable raw executable = set_bit raw 3 executable

unfoldable pub is_user_page : ℕ → Bool
unfolding get_bit
is_user_page raw = get_bit raw 4

unfoldable pub set_user_page : ℕ → Bool → ℕ
unfolding set_bit
set_user_page raw user_page = set_bit raw 4 user_page

unfoldable pub is_global_page : ℕ → Bool
unfolding get_bit
is_global_page raw = get_bit raw 5

unfoldable pub set_global_page : ℕ → Bool → ℕ
unfolding set_bit
set_global_page raw global_page = set_bit raw 5 global_page

unfoldable pub was_accessed : ℕ → Bool
unfolding get_bit
was_accessed raw = get_bit raw 6

unfoldable pub set_accessed : ℕ → Bool → ℕ
unfolding set_bit
set_accessed raw accessed = set_bit raw 6 accessed

unfoldable pub is_dirty : ℕ → Bool
unfolding get_bit
is_dirty raw = get_bit raw 7

unfoldable pub set_dirty : ℕ → Bool → ℕ
unfolding set_bit
set_dirty raw dirty = set_bit raw 7 dirty
