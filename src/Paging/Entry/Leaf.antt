-- ===== src/Paging/Entry/Leaf.antt =====
-- The leaf entries that `pack_leaf` of mmu/src/sv48.rs builds, and what is read back from them.
use orbit.Base.{
  ℕ, zero, suc, ◌+◌, ◌*◌, ◌/◌, ◌%◌, ◌^◌, ◌<◌, ◌≡◌, refl, ap, ◌∙◌, Bool, true, arith, bit_and,
  bit_or, ltb, ◌==◌, max, ==_iff,
}
use native.Mathlib.Nat.{pow-suc}
use orbit.Base.Table.{all_below, below_holds}
use orbit.Base.Bits.{bit_and-ones, bit_or-shift, bit_or_digit, bit_or-zero}
use orbit.Paging.Entry.{pack_leaf, get_ppn, is_valid, is_leaf, ppn, get_supervisor_bits, get_bit}
use orbit.Paging.Entry.Laws.{field, is_valid-mod, is_leaf-mod, get_ppn-mod, ppn-div}

-- Two words that agree above bit `k`: the fields below it are merged by themselves.
bit_or-low :
    (k a b c : ℕ)
    → b < 2 ^ k
    → c < 2 ^ k
    → (bit_or (a * 2 ^ k + b) c ≡ a * 2 ^ k + bit_or b c) × (bit_or b c < 2 ^ k)
bit_or-low zero a b c hb hc =
    let b' : b ≡ 0 = omega arith in
    let c' : c ≡ 0 = omega arith in rw (b', c', bit_or-zero (a * 2 ^ 0 + 0)) (omega arith)
bit_or-low (suc k) a b c hb hc =
    let pow : 2 ^ suc k ≡ 2 * 2 ^ k = omega (arith, pow-suc 2 k) in
    let twice : a * 2 ^ suc k ≡ 2 * (a * 2 ^ k) = rw pow (omega arith) in
    let half : (a * 2 ^ suc k + b) / 2 ≡ a * 2 ^ k + b / 2 = omega arith in
    let digit : (a * 2 ^ suc k + b) % 2 ≡ b % 2 = omega arith in
    let ih = bit_or-low k a (b / 2) (c / 2) (omega arith) (omega arith) in
    let apart = bit_or_digit b c in
    let joined : bit_or (a * 2 ^ suc k + b) c
        ≡ (a * 2 ^ k + bit_or (b / 2) (c / 2)) * 2 + max (b % 2) (c % 2) =
      bit_or_digit (a * 2 ^ suc k + b) c ∙ rw (half, digit, ih.0) refl in
    (omega arith, omega arith)

-- The ten bits below the page number.
low_bits : ℕ → ℕ → ℕ
low_bits p r = bit_or (bit_or (bit_or (bit_or (2 * p) (256 * r)) 1) 64) 128

abbrev low_agrees : ℕ → ℕ → Bool
low_agrees p r = low_bits p r == 2 * p + 256 * r + 193

low_table : all_below 32 (λ p. all_below 4 (λ r. low_agrees p r)) ≡ true
unfolding low_bits
low_table = refl

low_bits-eq : (p r : ℕ) → p < 32 → r < 4 → low_bits p r ≡ 2 * p + 256 * r + 193
low_bits-eq p r hp hr =
    let row = below_holds 32 p (λ p'. all_below 4 (λ r'. low_agrees p' r')) low_table hp in
    let cell = below_holds 4 r (λ r'. low_agrees p r') row hr in
    (==_iff (low_bits p r) (2 * p + 256 * r + 193)).0 cell

-- The fields of a leaf, for a page number that fits.
pub pack_leaf-eq :
    (n perms rsw : ℕ)
    → n < 2 ^ 54
    → pack_leaf n perms rsw ≡ n * 1024 + (2 * (perms / 2 % 32) + 256 * (rsw % 4) + 193)
unfolding pack_leaf
pack_leaf-eq n perms rsw h =
    let p = perms / 2 % 32 in
    let perm_field : bit_and perms 0x3E ≡ 2 * p = omega (arith, field 1 5 perms) in
    let tag_field : bit_and rsw 3 * 2 ^ 8 ≡ 256 * (rsw % 4) = omega (arith, bit_and-ones 2 rsw) in
    let wide : n * 2 ^ 10 % 2 ^ 64 ≡ n * 2 ^ 10 = omega arith in
    let b = 2 * p in
    let one = bit_or-low 10 n b (256 * (rsw % 4)) (omega arith) (omega arith) in
    let two = bit_or-low 10 n (bit_or b (256 * (rsw % 4))) 1 one.1 (omega arith) in
    let three = bit_or-low 10 n (bit_or (bit_or b (256 * (rsw % 4))) 1) 64 two.1 (omega arith) in
    let four =
      bit_or-low 10 n (bit_or (bit_or (bit_or b (256 * (rsw % 4))) 1) 64) 128 three.1
        (omega arith) in
    let low = low_bits-eq p (rsw % 4) (omega arith) (omega arith) in
    rw
      (
        perm_field,
        tag_field,
        wide,
        bit_or-shift 10 n b (omega arith),
        one.0,
        two.0,
        three.0,
        four.0,
      )
      (ap (λ (t : ℕ). n * 1024 + t) (unfold low_bits in low))

pub pack_leaf-lt : (n perms rsw : ℕ) → n < 2 ^ 44 → pack_leaf n perms rsw < 2 ^ 54
pack_leaf-lt n perms rsw h = omega (arith, pack_leaf-eq n perms rsw (omega arith))

-- For a 44-bit page number: `pack_leaf` builds a valid entry, accessed and dirty, that is a leaf
-- exactly when `perms` has one of R, W and X; `ppn` gives the page number back, `get_ppn` gives it
-- in place, the permission bits are those of `perms` within R, W, X, U and G, whatever else `perms`
-- holds, and the supervisor tag is the two low bits of `rsw`.
pub unpack-pack_leaf :
    (n perms rsw : ℕ)
    → n < 2 ^ 44
    → (is_valid (pack_leaf n perms rsw) ≡ true)
      × (get_bit (pack_leaf n perms rsw) 6 ≡ true)
      × (get_bit (pack_leaf n perms rsw) 7 ≡ true)
      × (is_leaf (pack_leaf n perms rsw) ≡ ltb 0 (bit_and perms 0xE))
      × (ppn (pack_leaf n perms rsw) ≡ n)
      × (get_ppn (pack_leaf n perms rsw) ≡ n * 1024)
      × (bit_and (pack_leaf n perms rsw) 0x3E ≡ bit_and perms 0x3E)
      × (get_supervisor_bits (pack_leaf n perms rsw) ≡ bit_and rsw 3)
unfolding get_bit get_supervisor_bits
unpack-pack_leaf n perms rsw h =
    let raw = pack_leaf n perms rsw in
    let e = pack_leaf-eq n perms rsw (omega arith) in
    (
      ground (arith, is_valid-mod raw, e),
      ground (arith, field 6 1 raw, e),
      ground (arith, field 7 1 raw, e),
      ground (arith, is_leaf-mod raw, field 1 3 perms, e),
      omega (arith, ppn-div raw (omega arith), e),
      omega (arith, get_ppn-mod raw, e),
      omega (arith, field 1 5 raw, field 1 5 perms, e),
      omega (arith, field 8 2 raw, bit_and-ones 2 rsw, e),
    )
