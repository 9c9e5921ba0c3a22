-- ===== src/Paging/Refusals.antt =====
-- `map_address_page` of mmu/src/mmap.rs, which refuses an entry that is valid.
use mathlib.Core.Path.{fun_ext}
use orbit.Base.{
  ℕ, ◌-◌, ◌≡◌, refl, sym, ◌∙◌, ◌⊎◌, inl, inr, Bool, true, false, ◌&&◌, Option, none, some, arith,
  if◌then◌else◌, ◌==◌, Bool-cases,
}
use orbit.Paging.Entry.{vpn_n, is_valid}
use orbit.Paging.Pages.{Frames, FramesLaws}
use orbit.Paging.Walk.{
  Memory, RootTable, Space, set_raw, virt_to_phys, walk_down, walk_to_table_materialize,
}
use orbit.Paging.Mapping.{MappingConfig, misaligned, target_level, install_new, map_address_page}
use orbit.Paging.Resolve.{stop_phys-none}
use orbit.Paging.Tree.{above, Routes, IsTree, IsFresh}
use orbit.Paging.Tree.Growth.{Grows, Grows-refl}
use orbit.Paging.Tree.Materialize.{Reached}
use orbit.Paging.Spans.{same_page}
use orbit.Paging.Maps.{
  IsConfig, Mapped, mapped_phys, grown-Mapped, written-Mapped, walk-Reached, page_reads,
  grown_reads,
}

-- To write what an entry holds changes nothing.
set_raw_self : (mem : Memory) (t i : ℕ) → set_raw mem t i (mem t i) ≡ mem
unfolding set_raw
set_raw_self mem t i = fun_ext λ u. fun_ext λ j. by_entry u j (Bool-cases ((u == t) && (j == i)))
  where
    by_entry :
        (u j : ℕ)
        → (((u == t) && (j == i)) ≡ true) ⊎ (((u == t) && (j == i)) ≡ false)
        → (if (u == t) && (j == i) then mem t i else mem u j) ≡ mem u j
    by_entry u j (inl here) =
        let at : u ≡ t = ground (arith, here) in
        let entry : j ≡ i = ground (arith, here) in rw (here, at, entry) refl
    by_entry u j (inr other) = rw other refl

module _ {F : Type 0} {frames : Frames F} (laws : FramesLaws frames) (root : RootTable) where
  -- No address that was mapped is mapped otherwise.
  abbrev pub Kept : Space F → Bool × Space F → Type 0
  Kept s (ok, s') =
      (va : ℕ)
      → (virt_to_phys root s.mem va ≡ none)
        ⊎ (virt_to_phys root s'.mem va ≡ virt_to_phys root s.mem va)

  module _ (c : MappingConfig) (s : Space F) (own : Routes) (valid : IsConfig c)
      (tree : IsTree root s.mem own) (fresh : IsFresh laws root own s.pages) where
    -- The page was not mapped if the entry that the walk found is not valid.
    was_unmapped :
        (s1 : Space F) (own1 : Routes) (table va : ℕ)
        → Grows laws root s own s1 own1
        → own1 table ≡ some (above (3 - target_level c) c.vaddr (target_level c))
        → walk_down root s1.mem c.vaddr (target_level c) 3 root.table ≡ some table
        → is_valid (s1.mem table (vpn_n c.vaddr (target_level c))) ≡ false
        → same_page c.page_size va c.vaddr ≡ true
        → virt_to_phys root s.mem va ≡ none
    was_unmapped s1 own1 table va g here walk empty on =
        let idx = vpn_n c.vaddr (target_level c) in
        let raw = s1.mem table idx in
        let reads =
          page_reads laws root c valid s s1 own own1 tree g table here walk raw (rw empty refl)
            va in
        sym (grown_reads laws root s s1 own own1 tree g va)
        ∙ (rw (set_raw_self s1.mem table idx, on) at reads)
        ∙ stop_phys-none va (target_level c) raw (rw empty refl)

    -- For a page table that is a tree whose allocator hands out fresh frames, and a configuration
    -- with the page size of its level, a usable permission and a physical address below 2 ^ 56:
    -- `map_address_page`, if it returns `Ok`, maps the page and leaves every other translation, and
    -- if it returns `Err`, leaves every translation; the page table is a tree with fresh frames
    -- again. Whatever it returns, an address that was mapped before has the same translation after.
    pub map_address_page-Kept :
        Mapped laws root c s (map_address_page frames root c s)
        × Kept s (map_address_page frames root c s)
    unfolding map_address_page install_new mapped_phys
    map_address_page-Kept = elim (Bool-cases (misaligned c)) [
      | inl odd ↦ rw odd (
        grown-Mapped laws root c s s own own tree (Grows-refl laws root s own tree fresh),
        λ va. inr refl,
      )
      | inr even ↦ rw even (
          by_walk even (walk_to_table_materialize frames root c.vaddr (target_level c) s)
            (walk-Reached laws root c s own valid tree fresh))
    ]
      where
        by_walk :
            misaligned c ≡ false
            → (r : Option ℕ × Space F)
            → Reached laws root s own c.vaddr (target_level c) (3 - target_level c) 3 root.table r
            → Mapped laws root c s (install_new c r) × Kept s (install_new c r)
        by_walk even (none, s1) (own1, g) =
            let m = grown-Mapped laws root c s s1 own own1 tree g in (m, λ va. inr (m.3 va))
        by_walk even (some table, s1) (own1, g, here, walk) =
            elim (Bool-cases (is_valid (s1.mem table (vpn_n c.vaddr (target_level c))))) [
              | inl taken ↦
                  let m = grown-Mapped laws root c s s1 own own1 tree g in
                  rw taken (m, λ va. inr (m.3 va))
              | inr empty ↦
                  let m =
                    written-Mapped laws root c valid even s s1 own own1 tree g table here walk in
                  rw empty (
                    m,
                    λ va. elim (Bool-cases (same_page c.page_size va c.vaddr)) [
                      | inl on ↦ inl (was_unmapped s1 own1 table va g here walk empty on)
                      | inr off ↦ inr (off_page va off (m.3 va))
                    ],
                  )
            ]
          where
            off_page :
                (va : ℕ) {after : Option ℕ}
                → same_page c.page_size va c.vaddr ≡ false
                → after ≡ mapped_phys c va (virt_to_phys root s.mem va)
                → after ≡ virt_to_phys root s.mem va
            off_page va off h = ground (arith, h, off)
