-- ===== src/BindSpec/Pack.antt =====
-- `pack` and `unpack` undo each other.
use orbit.Base.{
  subst, ◌↔◌, ℕ, ◌+◌, ◌*◌, ◌%◌, ◌^◌, ◌<◌, ◌≡◌, ◌∙◌, Bool, true, not, ◌==◌, ltb, ◌&&◌, some, arith,
  bit_or, ap, ap₂,
}
use orbit.Base.Bits.{bit_or-shift, bit_or_comm}
use orbit.BindSpec.{
  BindSpec, client_one_shot, client_retain, server_one_shot, server_retain, pack, unpack,
}

-- The port is a `u16` other than 0, and the address a `u32`.
abbrev pub in_range : BindSpec → Bool
in_range (client_one_shot addr port) = ltb addr (2 ^ 32) && not (port == 0) && ltb port (2 ^ 16)
in_range (client_retain addr port) = ltb addr (2 ^ 32) && not (port == 0) && ltb port (2 ^ 16)
in_range (server_one_shot port) = not (port == 0) && ltb port (2 ^ 16)
in_range (server_retain port) = not (port == 0) && ltb port (2 ^ 16)

-- The fields of a word side by side.
abbrev pub word : ℕ → ℕ → ℕ → ℕ
word mode port addr = mode + port * 2 ^ 8 + addr * 2 ^ 24

bits_two : (mode port : ℕ) → mode < 2 ^ 8 → bit_or mode (port * 2 ^ 8) ≡ mode + port * 2 ^ 8
bits_two mode port h = bit_or_comm mode (port * 2 ^ 8) ∙ bit_or-shift 8 port mode h ∙ omega arith

bits_three :
    (mode port addr : ℕ)
    → mode < 2 ^ 8
    → port < 2 ^ 16
    → bit_or (bit_or mode (port * 2 ^ 8)) (addr * 2 ^ 24) ≡ word mode port addr
bits_three mode port addr m p =
    ap (λ t. bit_or t (addr * 2 ^ 24)) (bits_two mode port m)
    ∙ bit_or_comm (mode + port * 2 ^ 8) (addr * 2 ^ 24)
    ∙ bit_or-shift 24 addr (mode + port * 2 ^ 8) (omega arith)
    ∙ omega arith

-- The packed word of each spec in range.
abbrev spec_word : BindSpec → ℕ
spec_word (client_one_shot addr port) = word 1 port addr
spec_word (client_retain addr port) = word 2 port addr
spec_word (server_one_shot port) = word 3 port 0
spec_word (server_retain port) = word 4 port 0

pack-word : (b : BindSpec) → in_range b ≡ true → pack b ≡ spec_word b
unfolding pack
pack-word (client_one_shot addr port) h =
    let p : port * 2 ^ 8 % 2 ^ 64 ≡ port * 2 ^ 8 = ground arith in
    let a : addr * 2 ^ 24 % 2 ^ 64 ≡ addr * 2 ^ 24 = ground arith in
    ap₂ (λ s t. bit_or (bit_or 1 s) t) p a ∙ bits_three 1 port addr (omega arith) (ground arith)
pack-word (client_retain addr port) h =
    let p : port * 2 ^ 8 % 2 ^ 64 ≡ port * 2 ^ 8 = ground arith in
    let a : addr * 2 ^ 24 % 2 ^ 64 ≡ addr * 2 ^ 24 = ground arith in
    ap₂ (λ s t. bit_or (bit_or 2 s) t) p a ∙ bits_three 2 port addr (omega arith) (ground arith)
pack-word (server_one_shot port) h =
    let p : port * 2 ^ 8 % 2 ^ 64 ≡ port * 2 ^ 8 = ground arith in
    ap (bit_or 3) p ∙ bits_two 3 port (omega arith) ∙ omega arith
pack-word (server_retain port) h =
    let p : port * 2 ^ 8 % 2 ^ 64 ≡ port * 2 ^ 8 = ground arith in
    ap (bit_or 4) p ∙ bits_two 4 port (omega arith) ∙ omega arith

unpack-word : (b : BindSpec) → in_range b ≡ true → unpack (spec_word b) ≡ some b
unfolding unpack
unpack-word (client_one_shot addr port) h = ground arith
unpack-word (client_retain addr port) h = ground arith
unpack-word (server_one_shot port) h = ground arith
unpack-word (server_retain port) h = ground arith

-- A spec whose port is not 0, with each field in its width, packs to a word that unpacks to it.
unpack-pack_bind : (b : BindSpec) → in_range b ≡ true → unpack (pack b) ≡ some b
unpack-pack_bind b h = ap unpack (pack-word b h) ∙ unpack-word b h

unpacked :
    (w : ℕ) (b : BindSpec)
    → w < 2 ^ 64
    → unpack w ≡ some b
    → (in_range b ≡ true) × (spec_word b ≡ w)
unfolding unpack
unpacked w (client_one_shot addr port) ws h = ground arith
unpacked w (client_retain addr port) ws h = ground arith
unpacked w (server_one_shot port) ws h = ground arith
unpacked w (server_retain port) ws h = ground arith

-- A word of 64 bits that unpacks is the packing of what it unpacks to, whose port is not 0 and whose
-- fields are in their widths.
pack-unpack_bind :
    (w : ℕ) (b : BindSpec) → w < 2 ^ 64 → unpack w ≡ some b → (in_range b ≡ true) × (pack b ≡ w)
pack-unpack_bind w b ws h = let r = unpacked w b ws h in (r.0, pack-word b r.0 ∙ r.1)

-- A word of 64 bits unpacks to a spec exactly if the spec's port is not 0, its fields are in their
-- widths, and it packs to that word.
pub unpack_iff :
    (w : ℕ) (b : BindSpec) → w < 2 ^ 64 → (unpack w ≡ some b) ↔ ((in_range b ≡ true) × (pack b ≡ w))
unpack_iff w b ws =
    (pack-unpack_bind w b ws, λ h. subst (λ v. unpack v ≡ some b) h.1 (unpack-pack_bind b h.0))
