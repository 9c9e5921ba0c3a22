-- ===== src/Paging/Maps.antt =====
-- What `map_page` and `map_address_page` of mmu/src/mmap.rs do to the translation of every address.
use orbit.Base.{
  ℕ, ◌+◌, ◌-◌, ◌*◌, ◌/◌, ◌%◌, ◌^◌, ◌≤◌, ◌<◌, ◌≡◌, refl, sym, ap, ◌∙◌, inl, inr, Bool, true, false,
  Option, none, some, [], arith, if◌then◌else◌, ltb, bit_and, Bool-cases,
}
use orbit.Paging.Entry.{vpn_n}
use orbit.Paging.Pages.{Frames, FramesLaws}
use orbit.Paging.Walk.{
  RootTable, Space, set_raw, virt_to_phys, walk_down, walk_to_table_materialize,
}
use orbit.Paging.Mapping.{MappingConfig, misaligned, leaf_entry, target_level, install, map_page}
use orbit.Paging.Resolve.{
  points, virt_to_phys-resolve, stop_phys, stop_phys-pack_leaf, pack_leaf-stops,
}
use orbit.Paging.Tree.{above, Routes, IsTree, IsFresh}
use orbit.Paging.Tree.Growth.{Grows, Grows-refl}
use orbit.Paging.Tree.Materialize.{Reached, materialize-Reached}
use orbit.Paging.Tree.Writes.{set_raw-IsTree, resolve-hit, resolve-miss}
use orbit.Paging.Spans.{
  span, same_page, same_page-vpn_n, apart_routes, span-pow, mod-span, mod-lt-span,
}

-- A configuration whose page size is that of its level, with a frame in the physical address space
-- and one of the permissions R, W and X.
pub record IsConfig (c : MappingConfig) : Type 0 where
  pub low : 1 ≤ c.levels
  pub high : c.levels ≤ 4
  pub sized : c.page_size ≡ span (target_level c)
  pub small : c.paddr < 2 ^ 56
  pub usable : ltb 0 (bit_and c.permissions 0xE) ≡ true

-- Where the page of the configuration is mapped to its frame, and all else as before.
unfoldable pub mapped_phys : MappingConfig → ℕ → Option ℕ → Option ℕ
mapped_phys c va before =
    if same_page c.page_size va c.vaddr then some (c.paddr + va % c.page_size) else before

module _ {F : Type 0} {frames : Frames F} (laws : FramesLaws frames) (root : RootTable) where
  -- What a mapping leaves: a tree with fresh frames, the page mapped if the result is `Ok`, and
  -- every translation as it was if it is `Err`.
  abbrev pub Mapped : MappingConfig → Space F → Bool × Space F → Type 0
  Mapped c s (ok, s') =
      (own' : Routes) × IsTree root s'.mem own'
      × IsFresh laws root own' s'.pages
      × ((va : ℕ)
          → virt_to_phys root s'.mem va ≡ (
              if ok
              then mapped_phys c va (virt_to_phys root s.mem va)
              else virt_to_phys root s.mem va))

  -- Any entry written at the end of the walk, where it is no pointer to a table.
  module _ (c : MappingConfig) (valid : IsConfig c) (s s1 : Space F) (own own1 : Routes)
      (tree : IsTree root s.mem own) (g : Grows laws root s own s1 own1) (table : ℕ)
      (here : own1 table ≡ some (above (3 - target_level c) c.vaddr (target_level c)))
      (walk : walk_down root s1.mem c.vaddr (target_level c) 3 root.table ≡ some table) where
    pub page_reads :
        (raw : ℕ)
        → points raw ≡ false
        → (va : ℕ)
        → virt_to_phys root (set_raw s1.mem table (vpn_n c.vaddr (target_level c)) raw) va ≡ (
            if same_page c.page_size va c.vaddr
            then stop_phys va (target_level c) raw
            else virt_to_phys root s.mem va)
    unfolding above target_level
    page_reads raw ends va =
        let idx = vpn_n c.vaddr (target_level c) in
        let level : target_level c ≤ 3 = omega (arith, valid.low) in
        let at_root = g.routes root.table [] tree.at_root in
        virt_to_phys-resolve root (set_raw s1.mem table idx raw) va
        ∙ elim (Bool-cases (same_page c.page_size va c.vaddr)) [
          | inl on ↦
              let on' = rw valid.sized at on in
              rw on (
                resolve-hit root s1.mem own1 g.tree table idx raw ends c.vaddr (target_level c)
                  (3 - target_level c) (omega (arith, level)) refl here va
                  (λ k lo hi. same_page-vpn_n (target_level c) va c.vaddr k lo hi on') 3 0
                  root.table (omega arith) level at_root walk)
          | inr off ↦
              let off' = rw valid.sized at off in
              rw off (
                resolve-miss root s1.mem own1 g.tree table idx raw ends c.vaddr (target_level c)
                  (3 - target_level c) (omega (arith, level)) refl here va
                  (apart_routes (target_level c) va c.vaddr level off') 3 0 root.table (omega arith)
                  at_root
                ∙ g.reads va 3 0 root.table (omega arith) tree.at_root
                ∙ sym (virt_to_phys-resolve root s.mem va))
        ]

  module _ (c : MappingConfig) (valid : IsConfig c) (even : misaligned c ≡ false) where
    aligned : c.paddr % 4096 ≡ 0
    unfolding misaligned
    aligned =
        let size = valid.sized in
        mod-span (target_level c) c.paddr (rw (sym size) (ground (arith, even)))

    at_page :
        (va : ℕ) → stop_phys va (target_level c) (leaf_entry c) ≡ some (c.paddr + va % c.page_size)
    unfolding leaf_entry target_level
    at_page va =
        let level : target_level c ≤ 3 = omega (arith, valid.low) in
        let small = valid.small in
        let base : c.paddr / 4096 * 4096 ≡ c.paddr = omega (arith, aligned) in
        let low = mod-lt-span (target_level c) va in
        stop_phys-pack_leaf va (target_level c) (c.paddr / 4096) c.permissions c.supervisor_tag
          (omega arith) valid.usable
        ∙ rw (base, sym (span-pow (target_level c) level), valid.sized)
            (ap (λ (a : ℕ). some a) (omega (arith, small, low)))

    -- The leaf written to the table that the walk found.
    module _ (s s1 : Space F) (own own1 : Routes) (tree : IsTree root s.mem own)
        (g : Grows laws root s own s1 own1) (table : ℕ)
        (here : own1 table ≡ some (above (3 - target_level c) c.vaddr (target_level c)))
        (walk : walk_down root s1.mem c.vaddr (target_level c) 3 root.table ≡ some table) where
      ends : points (leaf_entry c) ≡ false
      unfolding leaf_entry
      ends =
          let small = valid.small in
          pack_leaf-stops (c.paddr / 4096) c.permissions c.supervisor_tag (omega arith) valid.usable

      pub written-Mapped : Mapped c s (
        true,
        record s1 { mem = set_raw s1.mem table (vpn_n c.vaddr (target_level c)) (leaf_entry c) },
      )
      unfolding mapped_phys
      written-Mapped = (
        own1,
        set_raw-IsTree root s1.mem own1 g.tree table (vpn_n c.vaddr (target_level c)) (leaf_entry c)
            ends,
        g.fresh,
        λ va.
            page_reads c valid s s1 own own1 tree g table here walk (leaf_entry c) ends va
            ∙ (rw (at_page va) refl),
      )

  pub grown_reads :
      (s s1 : Space F) (own own1 : Routes)
      → IsTree root s.mem own
      → Grows laws root s own s1 own1
      → (va : ℕ) → virt_to_phys root s1.mem va ≡ virt_to_phys root s.mem va
  unfolding above
  grown_reads s s1 own own1 tree g va =
      virt_to_phys-resolve root s1.mem va
      ∙ g.reads va 3 0 root.table (omega arith) tree.at_root
      ∙ sym (virt_to_phys-resolve root s.mem va)

  -- A walk that ends before the leaf is written.
  pub grown-Mapped :
      (c : MappingConfig) (s s1 : Space F) (own own1 : Routes)
      → IsTree root s.mem own
      → Grows laws root s own s1 own1
      → Mapped c s (false, s1)
  grown-Mapped c s s1 own own1 tree g = (own1, g.tree, g.fresh, grown_reads s s1 own own1 tree g)

  module _ (c : MappingConfig) (s : Space F) (own : Routes) (valid : IsConfig c)
      (tree : IsTree root s.mem own) (fresh : IsFresh laws root own s.pages) where
    pub walk-Reached :
        Reached laws root s own c.vaddr
          (target_level c)
          (3 - target_level c)
          3
          root.table
          (walk_to_table_materialize frames root c.vaddr (target_level c) s)
    unfolding walk_to_table_materialize above target_level
    walk-Reached =
        materialize-Reached laws root c.vaddr (target_level c) (3 - target_level c)
          (omega (arith, valid.low)) 3 0 root.table s own tree fresh (omega arith)
          (omega (arith, valid.low)) tree.at_root

    -- For a page table that is a tree whose allocator hands out fresh frames, and a configuration
    -- with the page size of its level, a usable permission and a physical address below 2 ^ 56:
    -- if `map_page` returns `Ok`, then `virt_to_phys` gives the frame's address plus the offset at
    -- every address of the page, and at every other address what it gave before; if it returns
    -- `Err`, every translation is what it was. In both cases the page table is a tree again, and
    -- the frames left are fresh for it.
    pub map_page-Mapped : Mapped c s (map_page frames root c s)
    unfolding map_page install
    map_page-Mapped = elim (Bool-cases (misaligned c)) [
      | inl odd ↦ rw odd (grown-Mapped c s s own own tree (Grows-refl laws root s own tree fresh))
      | inr even ↦ rw even (
          by_walk even (walk_to_table_materialize frames root c.vaddr (target_level c) s)
            walk-Reached)
    ]
      where
        by_walk :
            misaligned c ≡ false
            → (r : Option ℕ × Space F)
            → Reached laws root s own c.vaddr (target_level c) (3 - target_level c) 3 root.table r
            → Mapped c s (install c r)
        by_walk even (none, s1) (own1, g) = grown-Mapped c s s1 own own1 tree g
        by_walk even (some table, s1) (own1, g, here, walk) =
            written-Mapped c valid even s s1 own own1 tree g table here walk
