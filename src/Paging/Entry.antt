-- ===== src/Paging/Entry.antt =====
-- mmu/src/sv48.rs: virtual addresses, physical addresses and page-table entries, each by its raw
-- 64-bit word. A complement is taken against 2 ^ 64 - 1, and a left shift wraps at 2 ^ 64.
pub mod PhysAddr
pub mod Laws
pub mod Bits
pub mod Leaf
use orbit.Base.{
  ℕ, zero, suc, ◌+◌, ◌-◌, ◌*◌, ◌/◌, ◌%◌, ◌^◌, Bool, bit_and, bit_or, ltb, ◌==◌, if◌then◌else◌,
}

abbrev pub page_size : ℕ
page_size = 4096

-- VPN_OFFSETS, in VirtAddr and in PhysAddr: 12, 21, 30, 39. A level is 3 at most.
unfoldable pub vpn_offset : ℕ → ℕ
vpn_offset zero = 12
vpn_offset (suc zero) = 21
vpn_offset (suc (suc zero)) = 30
vpn_offset (suc (suc (suc n))) = 39

unfoldable pub vpn_n : ℕ → ℕ → ℕ
unfolding vpn_offset
vpn_n a n = bit_and a (0x1FF * 2 ^ vpn_offset n) / 2 ^ vpn_offset n

unfoldable pub page_offset : ℕ → ℕ
page_offset a = bit_and a 0xFFF

-- `perms & PERMS_MASK`, the tag in bits 8 and 9, and V, A and D. The shift of `rsw` stays in range.
unfoldable pub pack_leaf : ℕ → ℕ → ℕ → ℕ
pack_leaf ppn perms rsw =
    bit_or
      (bit_or
        (bit_or
          (bit_or (bit_or (ppn * 2 ^ 10 % 2 ^ 64) (bit_and perms 0x3E)) (bit_and rsw 3 * 2 ^ 8)) 1)
        64)
      128

unfoldable pub pack_table : ℕ → ℕ
pack_table ppn = bit_or (ppn * 2 ^ 10 % 2 ^ 64) 1

unfoldable pub get_ppn : ℕ → ℕ
get_ppn raw = bit_and raw 0x3F_FFFF_FFFF_FC00

unfoldable pub get_bit : ℕ → ℕ → Bool
get_bit raw bit = ltb 0 (bit_and raw (2 ^ bit))

unfoldable pub set_bit : ℕ → ℕ → Bool → ℕ
set_bit raw bit b = if b then bit_or raw (2 ^ bit) else bit_and raw (2 ^ 64 - 1 - 2 ^ bit)

unfoldable pub is_valid : ℕ → Bool
unfolding get_bit
is_valid raw = get_bit raw 0

unfoldable pub set_valid : ℕ → Bool → ℕ
unfolding set_bit
set_valid raw valid = set_bit raw 0 valid

unfoldable pub is_leaf : ℕ → Bool
is_leaf raw = ltb 0 (bit_and raw 0xE)

unfoldable pub get_supervisor_bits : ℕ → ℕ
get_supervisor_bits raw = bit_and raw (3 * 2 ^ 8) / 2 ^ 8

unfoldable pub set_supervisor_bits : ℕ → ℕ → ℕ
set_supervisor_bits raw bits =
    bit_or (bit_and raw (2 ^ 64 - 1 - 3 * 2 ^ 8)) (bit_and bits 3 * 2 ^ 8)

unfoldable pub ppn : ℕ → ℕ
ppn raw = bit_and raw (2 ^ 64 - 1 - 0x3FF) / 2 ^ 10
