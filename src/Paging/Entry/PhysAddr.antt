-- ===== src/Paging/Entry/PhysAddr.antt =====
-- PhysAddr of mmu/src/sv48.rs, by its raw 64-bit word.
use orbit.Base.{ℕ, ◌-◌, ◌*◌, ◌/◌, ◌^◌, bit_and, ◌==◌, if◌then◌else◌}
use orbit.Paging.Entry.{vpn_offset}

-- PPN_OFFSETS has the values of VPN_OFFSETS.
unfoldable pub page_number : ℕ → ℕ
page_number a = bit_and a (2 ^ 64 - 1 - 0xFFF) / 2 ^ 12

unfoldable pub ppn_n : ℕ → ℕ → ℕ
unfolding vpn_offset
ppn_n a n =
    let mask = if n == 3 then 0x1FFFF else 0x1FF in
    bit_and a (mask * 2 ^ vpn_offset n) / 2 ^ vpn_offset n
