-- ===== src/Paging/Unmaps.antt =====
-- `unmap_page` of mmu/src/mmap.rs after `map_page`.
use mathlib.Core.Path.{fun_ext}
use orbit.Base.{
  ℕ, zero, suc, ◌+◌, ◌-◌, ◌/◌, ◌<◌, ◌≡◌, refl, sym, ap, ◌∙◌, ◌⊎◌, inl, inr, Bool, true, false, not,
  ◌&&◌, ◌||◌, Option, none, some, [], length, arith, if◌then◌else◌, leb, ◌==◌, ==_iff, ==_refl,
  Bool-cases,
}
use orbit.Paging.Entry.{vpn_n, is_valid, is_leaf}
use orbit.Paging.Entry.Laws.{is_valid-mod}
use orbit.Paging.Entry.Leaf.{unpack-pack_leaf}
use orbit.Paging.Pages.{Frames, FramesLaws}
use orbit.Paging.Walk.{
  Memory, RootTable, Space, set_raw, next_va, virt_to_phys, walk_down, walk_to_table,
  walk_to_table_materialize,
}
use orbit.Paging.Mapping.{
  MappingConfig, misaligned, leaf_entry, target_level, install, map_page, clear_leaf, unmap_page,
}
use orbit.Paging.Resolve.{points, stop_phys-none}
use orbit.Paging.Tree.{above, length-above, Routes, IsTree, IsFresh, followed}
use orbit.Paging.Tree.Growth.{Grows}
use orbit.Paging.Tree.Materialize.{Reached}
use orbit.Paging.Tree.Writes.{some_inj}
use orbit.Paging.Spans.{same_page}
use orbit.Paging.Maps.{IsConfig, walk-Reached, page_reads}

-- The later of two writes to an entry.
set_raw-set_raw :
    (mem : Memory) (t i a b : ℕ) → set_raw (set_raw mem t i a) t i b ≡ set_raw mem t i b
unfolding set_raw
set_raw-set_raw mem t i a b =
    fun_ext λ u. fun_ext λ j. by_entry (mem u j) (Bool-cases ((u == t) && (j == i)))
  where
    by_entry :
        {test : Bool} (old : ℕ)
        → (test ≡ true) ⊎ (test ≡ false)
        → (if test then b else (if test then a else old)) ≡ (if test then b else old)
    by_entry old (inl here) = rw here refl
    by_entry old (inr other) = rw other refl

clear_leaf-set_raw :
    (mem : Memory) (t i raw : ℕ)
    → is_valid raw ≡ true
    → is_leaf raw ≡ true
    → clear_leaf (set_raw mem t i raw) t i ≡ (true, set_raw mem t i 0)
unfolding clear_leaf
clear_leaf-set_raw mem t i raw valid leaf =
    let at : set_raw mem t i raw t i ≡ raw = written in
    rw (at, valid, leaf, set_raw-set_raw mem t i raw 0) refl
  where
    written : set_raw mem t i raw t i ≡ raw
    written = unfold set_raw in rw (==_refl t, ==_refl i) refl

-- A write to a table at the target level leaves the walk to it alone.
module _ (root : RootTable) (mem : Memory) (own : Routes) (tree : IsTree root mem own)
    (table idx raw w target m : ℕ) (depth : m + target ≡ 3)
    (here : own table ≡ some (above m w target)) where
  upper : (l n u : ℕ) → n + l ≡ 3 → target < l → own u ≡ some (above n w l) → (u == table) ≡ false
  upper l n u e lt o = elim (Bool-cases (u == table)) [
    | inr other ↦ other
    | inl at ↦
        let same : u ≡ table = (==_iff u table).0 at in
        let route : above n w l ≡ above m w target = some_inj (sym o ∙ ap own same ∙ here) in
        absurd (omega (arith, ap length route, length-above n w l, length-above m w target))
  ]

  walk_down-set_raw :
      (l n u : ℕ)
      → n + l ≡ 3
      → own u ≡ some (above n w l)
      → walk_down root (set_raw mem table idx raw) w target l u ≡ walk_down root mem w target l u
  unfolding walk_down set_raw above
  walk_down-set_raw zero n u e o = refl
  walk_down-set_raw (suc l) n u e o = elim (Bool-cases (leb (suc l) target)) [
    | inl stop ↦ rw stop refl
    | inr go ↦
        rw (go, upper (suc l) n u e (ground (arith, go)) o)
          (elim (Bool-cases (points (mem u (vpn_n w (suc l))))) [
            | inr stops ↦
                let off : (not (is_valid (mem u (vpn_n w (suc l))))
                      || is_leaf (mem u (vpn_n w (suc l))))
                    ≡ true =
                  ground (arith, stops) in
                rw off refl
            | inl goes ↦
                let on : (not (is_valid (mem u (vpn_n w (suc l))))
                      || is_leaf (mem u (vpn_n w (suc l))))
                    ≡ false =
                  ground (arith, goes) in
                rw on (
                  walk_down-set_raw l (suc n) (next_va root (mem u (vpn_n w (suc l)))) (omega arith)
                    (followed root mem own tree u (vpn_n w (suc l)) (above n w (suc l)) o
                      (omega (arith, length-above n w (suc l))) goes).1)
          ])
  ]

module _ {F : Type 0} {frames : Frames F} (laws : FramesLaws frames) (root : RootTable) where
  -- The page is unmapped again, and every other address is translated as before both.
  abbrev pub Undone : MappingConfig → Space F → Bool × Memory → Type 0
  Undone c s r =
      (r.0 ≡ true)
      × ((va : ℕ)
          → virt_to_phys root r.1 va
            ≡ (if same_page c.page_size va c.vaddr then none else virt_to_phys root s.mem va))

  module _ (c : MappingConfig) (s : Space F) (own : Routes) (valid : IsConfig c)
      (tree : IsTree root s.mem own) (fresh : IsFresh laws root own s.pages) where
    module _ (s1 : Space F) (own1 : Routes) (g : Grows laws root s own s1 own1) (table : ℕ)
        (here : own1 table ≡ some (above (3 - target_level c) c.vaddr (target_level c)))
        (walk : walk_down root s1.mem c.vaddr (target_level c) 3 root.table ≡ some table) where
      leaf_fields : (is_valid (leaf_entry c) ≡ true) × (is_leaf (leaf_entry c) ≡ true)
      unfolding leaf_entry
      leaf_fields =
          let small = valid.small in
          let f = unpack-pack_leaf (c.paddr / 4096) c.permissions c.supervisor_tag (omega arith) in
          (f.0, f.3 ∙ valid.usable)

      found :
          walk_to_table root
            (set_raw s1.mem table (vpn_n c.vaddr (target_level c)) (leaf_entry c))
            c.vaddr
            (4 - c.levels)
          ≡ some table
      unfolding walk_to_table target_level above
      found =
          walk_down-set_raw root s1.mem own1 g.tree table (vpn_n c.vaddr (target_level c))
            (leaf_entry c) c.vaddr (target_level c) (3 - target_level c) (omega (arith, valid.low))
            here 3 0 root.table (omega arith) (g.routes root.table [] tree.at_root)
          ∙ walk

      cleared :
          unmap_page root
            (set_raw s1.mem table (vpn_n c.vaddr (target_level c)) (leaf_entry c))
            c.vaddr
            c.levels
          ≡ (true, set_raw s1.mem table (vpn_n c.vaddr (target_level c)) 0)
      unfolding target_level unmap_page set_raw
      cleared =
          rw (found, unmap_page)
            (clear_leaf-set_raw s1.mem table (vpn_n c.vaddr (target_level c)) (leaf_entry c)
              leaf_fields.0 leaf_fields.1)

      pub cleared-Undone : Undone c s (
          unmap_page root
            (set_raw s1.mem table (vpn_n c.vaddr (target_level c)) (leaf_entry c))
            c.vaddr
            c.levels)
      cleared-Undone =
          let empty : points 0 ≡ false = ground (arith, is_valid-mod 0) in
          let none_there : (is_valid 0 && is_leaf 0) ≡ false = ground (arith, is_valid-mod 0) in
          rw cleared (
            refl,
            λ va.
                page_reads laws root c valid s s1 own own1 tree g table here walk 0 empty va
                ∙ (rw (stop_phys-none va (target_level c) 0 none_there) refl),
          )

    -- For a page table that is a tree whose allocator hands out fresh frames, and a configuration
    -- with the page size of its level, a usable permission and a physical address below 2 ^ 56:
    -- after a `map_page` that returns `Ok`, `unmap_page` of the same address at the same level
    -- returns `Ok` too; then no address of the page is mapped, and every other address has the
    -- translation that it had before the two calls.
    pub unmap_page-map_page :
        (s' : Space F)
        → map_page frames root c s ≡ (true, s')
        → Undone c s (unmap_page root s'.mem c.vaddr c.levels)
    unfolding map_page install
    unmap_page-map_page s' e = elim (Bool-cases (misaligned c)) [
      | inl odd ↦ absurd (refused (ap (λ (r : Bool × Space F). r.0) (rw odd at e)))
      | inr even ↦
          by_walk (walk_to_table_materialize frames root c.vaddr (target_level c) s)
            (walk-Reached laws root c s own valid tree fresh) (rw even at e)
    ]
      where
        refused : false ≡ true → ⊥
        refused h = cc

        by_walk :
            (r : Option ℕ × Space F)
            → Reached laws root s own c.vaddr (target_level c) (3 - target_level c) 3 root.table r
            → install c r ≡ (true, s')
            → Undone c s (unmap_page root s'.mem c.vaddr c.levels)
        by_walk (none, s1) h i = absurd (refused (ap (λ (r : Bool × Space F). r.0) i))
        by_walk (some table, s1) (own1, g, here, walk) i =
            let same : set_raw s1.mem table (vpn_n c.vaddr (target_level c)) (leaf_entry c)
                ≡ s'.mem =
              ap (λ (r : Bool × Space F). r.1.mem) i in
            rw (sym same) (cleared-Undone s1 own1 g table here walk)
