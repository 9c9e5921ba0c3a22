-- ===== src/Paging/Entry/Laws.antt =====
-- Addresses and entries of mmu/src/sv48.rs, read by division and remainder.
use orbit.Base.{
  ℕ, zero, suc, ◌+◌, ◌-◌, ◌*◌, ◌/◌, ◌%◌, ◌^◌, ◌<◌, ◌≡◌, ap, ◌∙◌, arith, bit_and, bit_or, ltb, ◌==◌,
}
use orbit.Base.Bits.{bit_and-ones, bit_and-shift, bit_or-shift}
use orbit.Paging.Entry.{vpn_n, vpn_offset, pack_table, get_ppn, is_valid, is_leaf, ppn}

-- A mask of `m` ones shifted by `k` selects a field.
pub field : (k m a : ℕ) → bit_and a ((2 ^ m - 1) * 2 ^ k) ≡ a / 2 ^ k % 2 ^ m * 2 ^ k
field k m a = bit_and-shift k a (2 ^ m - 1) ∙ ap (λ (t : ℕ). t * 2 ^ k) (bit_and-ones m (a / 2 ^ k))

pub is_valid-mod : (raw : ℕ) → is_valid raw ≡ (raw % 2 == 1)
unfolding is_valid
is_valid-mod raw = ground (arith, bit_and-ones 1 raw)

pub is_leaf-mod : (raw : ℕ) → is_leaf raw ≡ ltb 0 (raw / 2 % 8)
unfolding is_leaf
is_leaf-mod raw = ground (arith, field 1 3 raw)

pub get_ppn-mod : (raw : ℕ) → get_ppn raw ≡ raw / 1024 % 2 ^ 44 * 1024
unfolding get_ppn
get_ppn-mod raw = field 10 44 raw

pub ppn-div : (raw : ℕ) → raw < 2 ^ 64 → ppn raw ≡ raw / 1024
unfolding ppn
ppn-div raw h = omega (arith, field 10 54 raw)

pub vpn_n-mod : (a n : ℕ) → vpn_n a n ≡ a / 2 ^ vpn_offset n % 512
unfolding vpn_n
vpn_n-mod a zero = omega (arith, field 12 9 a)
vpn_n-mod a (suc zero) = omega (arith, field 21 9 a)
vpn_n-mod a (suc (suc zero)) = omega (arith, field 30 9 a)
vpn_n-mod a (suc (suc (suc n))) = omega (arith, field 39 9 a)

pub pack_table-eq : (n : ℕ) → n < 2 ^ 54 → pack_table n ≡ n * 1024 + 1
unfolding pack_table
pack_table-eq n h = ap (λ (t : ℕ). bit_or t 1) (omega arith) ∙ bit_or-shift 10 n 1 (omega arith)
