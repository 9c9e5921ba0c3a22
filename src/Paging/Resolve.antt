-- ===== src/Paging/Resolve.antt =====
-- The translation of an address as a recursion on the levels, and `virt_to_phys` of
-- mmu/src/mmap.rs as this recursion.
use orbit.Base.{
  ℕ, zero, suc, ◌+◌, ◌-◌, ◌*◌, ◌/◌, ◌%◌, ◌^◌, ◌<◌, ◌≡◌, refl, ap, Bool, true, false, not, ◌&&◌,
  Option, none, some, ◌∷◌, if◌then◌else◌, bit_and, arith, ltb,
}
use orbit.Base.Bits.{bit_and-ones}
use orbit.Paging.Entry.{vpn_n, is_valid, is_leaf, ppn, get_ppn, pack_table, pack_leaf}
use orbit.Paging.Entry.Laws.{field, is_valid-mod, is_leaf-mod, get_ppn-mod, ppn-div, pack_table-eq}
use orbit.Paging.Entry.Leaf.{pack_leaf-eq}
use orbit.Paging.Walk.{
  Memory, RootTable, WalkStep, va_from_pa, next_va, chained_va, terminal_phys, last_phys,
  chain_down, walk_pte_chain, virt_to_phys,
}

-- An entry that a walk follows.
abbrev pub points : ℕ → Bool
points raw = is_valid raw && not (is_leaf raw)

-- What an entry at which a walk stops says.
unfoldable pub stop_phys : ℕ → ℕ → ℕ → Option ℕ
unfolding terminal_phys
stop_phys va level raw = terminal_phys va (record { level = level; pte_idx = 0; pte_raw = raw })

module _ (root : RootTable) (mem : Memory) (va : ℕ) where
  unfoldable pub resolve : ℕ → ℕ → Option ℕ
  resolve zero table = stop_phys va 0 (mem table (vpn_n va 0))
  resolve (suc l) table =
      let raw = mem table (vpn_n va (suc l)) in
      let rest = resolve l (chained_va root raw) in
      if points raw then rest else stop_phys va (suc l) raw

  last_later :
      (step : WalkStep) (l table : ℕ)
      → last_phys va (step ∷ chain_down root mem va l table)
        ≡ last_phys va (chain_down root mem va l table)
  unfolding last_phys chain_down
  last_later step zero table = refl
  last_later step (suc l) table = refl

  chain-resolve : (l table : ℕ) → last_phys va (chain_down root mem va l table) ≡ resolve l table
  unfolding last_phys chain_down resolve stop_phys terminal_phys
  chain-resolve zero table = refl
  chain-resolve (suc l) table = ground (
    arith,
    last_later
        (record {
          level = suc l;
          pte_idx = vpn_n va (suc l);
          pte_raw = mem table (vpn_n va (suc l));
        })
        l (chained_va root (mem table (vpn_n va (suc l)))),
    chain-resolve l (chained_va root (mem table (vpn_n va (suc l)))),
  )

  pub virt_to_phys-resolve : virt_to_phys root mem va ≡ resolve 3 root.table
  unfolding virt_to_phys walk_pte_chain
  virt_to_phys-resolve = chain-resolve 3 root.table

-- An entry that is not a valid leaf maps nothing.
pub stop_phys-none :
    (va level raw : ℕ) → (is_valid raw && is_leaf raw) ≡ false → stop_phys va level raw ≡ none
unfolding stop_phys
stop_phys-none va level raw h = ground arith

-- A leaf maps by its frame and the low bits of the address.
pub stop_phys-pack_leaf :
    (va level n perms rsw : ℕ)
    → n < 2 ^ 44
    → ltb 0 (bit_and perms 0xE) ≡ true
    → stop_phys va level (pack_leaf n perms rsw)
      ≡ some ((n * 4096 + va % 2 ^ (12 + 9 * level)) % 2 ^ 64)
unfolding stop_phys
stop_phys-pack_leaf va level n perms rsw h p =
    let raw = pack_leaf n perms rsw in
    let e = pack_leaf-eq n perms rsw (omega arith) in
    let valid : is_valid raw ≡ true = ground (arith, is_valid-mod raw, e) in
    let leaf : is_leaf raw ≡ true = ground (arith, is_leaf-mod raw, field 1 3 perms, e) in
    let base : bit_and raw (2 ^ 64 - 1 - 0x3FF) * 2 ^ 2 % 2 ^ 64 ≡ n * 4096 =
      omega (arith, field 10 54 raw, e) in
    let low = bit_and-ones (12 + 9 * level) va in rw (valid, leaf, base, low) refl

pub pack_leaf-stops :
    (n perms rsw : ℕ)
    → n < 2 ^ 44
    → ltb 0 (bit_and perms 0xE) ≡ true
    → points (pack_leaf n perms rsw) ≡ false
pack_leaf-stops n perms rsw h p =
    let raw = pack_leaf n perms rsw in
    ground (arith, is_leaf-mod raw, field 1 3 perms, pack_leaf-eq n perms rsw (omega arith))

-- The two ways of following an entry agree below 54 bits.
pub chained_va-eq-next_va :
    (root : RootTable) (raw : ℕ) → raw < 2 ^ 54 → chained_va root raw ≡ next_va root raw
unfolding chained_va next_va
chained_va-eq-next_va root raw h =
    let e : get_ppn raw * 2 ^ 2 % 2 ^ 64 ≡ ppn raw * 4096 % 2 ^ 64 =
      omega (arith, get_ppn-mod raw, ppn-div raw (omega arith)) in
    ap (λ (t : ℕ). va_from_pa root t) e

-- The entry for a new table.
module _ (root : RootTable) (pa : ℕ) (aligned : pa % 4096 ≡ 0) (small : pa < 2 ^ 56) where
  pub pack_table-lt : pack_table (pa / 4096) < 2 ^ 54
  pack_table-lt = omega (arith, pack_table-eq (pa / 4096) (omega arith))

  pub pack_table-points : points (pack_table (pa / 4096)) ≡ true
  pack_table-points =
      let raw = pack_table (pa / 4096) in
      ground (arith, pack_table-eq (pa / 4096) (omega arith), is_valid-mod raw, is_leaf-mod raw)

  pub next_va-pack_table : next_va root (pack_table (pa / 4096)) ≡ va_from_pa root pa
  unfolding next_va
  next_va-pack_table =
      let raw = pack_table (pa / 4096) in
      let e : ppn raw * 4096 % 2 ^ 64 ≡ pa = omega (
        arith,
        pack_table-eq (pa / 4096) (omega arith),
        ppn-div raw (omega (arith, pack_table-lt)),
      ) in
      ap (λ (t : ℕ). va_from_pa root t) e
