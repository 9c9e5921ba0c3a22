-- ===== src/PageCache/Pack.antt =====
-- The packed keys of kmain/src/kernel/page_cache.rs: bit 63, the block in bits 8 to 62, the device.
use orbit.Base.{
  ℕ, ◌+◌, ◌*◌, ◌/◌, ◌%◌, ◌^◌, ◌-◌, ◌<◌, ◌≡◌, refl, ap, ◌∙◌, false, ◌==◌, none, some, arith, bit_and,
  bit_or,
}
use orbit.Base.Bits.{bit_and-shift, bit_and-ones, bit_or-shift}
use orbit.PageCache.{CacheKey, slot_occupied, slot_dev_mask, slot_lba_mask, pack, unpack}

-- The block field of a word.
field : (x : ℕ) → bit_and x slot_lba_mask ≡ x / 2 ^ 8 % 2 ^ 55 * 2 ^ 8
field x = bit_and-shift 8 x (2 ^ 55 - 1) ∙ ap (λ y. y * 2 ^ 8) (bit_and-ones 55 (x / 2 ^ 8))

pack_sum :
    (key : CacheKey)
    → key.dev < 2 ^ 8
    → key.lba < 2 ^ 55
    → pack key ≡ 2 ^ 63 + key.lba * 2 ^ 8 + key.dev
unfolding pack
pack_sum key small below =
    let lba_bits : bit_and (key.lba * 2 ^ 8 % 2 ^ 64) slot_lba_mask ≡ key.lba * 2 ^ 8 =
      field (key.lba * 2 ^ 8 % 2 ^ 64) ∙ omega arith in
    let top : bit_or slot_occupied (key.lba * 2 ^ 8) ≡ (2 ^ 55 + key.lba) * 2 ^ 8 =
      bit_or-shift 63 1 (key.lba * 2 ^ 8) (omega arith) ∙ omega arith in
    rw (lba_bits, top) (bit_or-shift 8 (2 ^ 55 + key.lba) key.dev small ∙ omega arith)

occupied : (p : ℕ) → bit_and p slot_occupied ≡ p / 2 ^ 63 % 2 * 2 ^ 63
occupied p = bit_and-shift 63 p 1 ∙ ap (λ y. y * 2 ^ 63) (bit_and-ones 1 (p / 2 ^ 63))

-- A packed key unpacks to itself, if the device fits a byte and the block fits 55 bits; and no packed
-- word is the empty slot's.
unpack-pack :
    (key : CacheKey)
    → key.dev < 2 ^ 8
    → key.lba < 2 ^ 55
    → (unpack (pack key) ≡ some key) × (unpack 0 ≡ none)
unfolding unpack
unpack-pack key small below =
    let p = 2 ^ 63 + key.lba * 2 ^ 8 + key.dev in
    let set : (bit_and p slot_occupied == 0) ≡ false = rw (occupied p) (ground arith) in
    let dev : bit_and p slot_dev_mask % 2 ^ 8 ≡ key.dev = rw (bit_and-ones 8 p) (omega arith) in
    let lba : bit_and p slot_lba_mask / 2 ^ 8 ≡ key.lba = rw (field p) (omega arith) in
    (rw (pack_sum key small below, set, dev, lba) refl, refl)
