-- ===== src/Paging/Mapping.antt =====
-- The operations of mmu/src/mmap.rs on one page. A Boolean result is true for `Ok(())`; the field
-- `log` of a configuration, which only traces, is left out.
use orbit.Base.{
  ℕ, ◌-◌, ◌/◌, ◌%◌, Bool, true, false, not, ◌||◌, Option, none, some, ◌==◌, if◌then◌else◌,
}
use orbit.Paging.Entry.{vpn_n, is_valid, is_leaf, pack_leaf}
use orbit.Paging.Pages.{Frames}
use orbit.Paging.Walk.{Memory, RootTable, Space, set_raw, walk_to_table, walk_to_table_materialize}

pub record MappingConfig : Type 0 where
  pub permissions : ℕ
  pub levels : ℕ
  pub page_size : ℕ
  pub vaddr : ℕ
  pub paddr : ℕ
  pub supervisor_tag : ℕ

unfoldable pub misaligned : MappingConfig → Bool
misaligned c = not (c.paddr % c.page_size == 0) || not (c.vaddr % c.page_size == 0)

-- The entry that both kinds of mapping write.
unfoldable pub leaf_entry : MappingConfig → ℕ
leaf_entry c = pack_leaf (c.paddr / 4096) c.permissions c.supervisor_tag

-- `4 - config.levels`.
unfoldable pub target_level : MappingConfig → ℕ
target_level c = 4 - c.levels

module _ {F : Type 0} where
  -- The end of `map_address_page`, which refuses an entry that is valid, and of `map_page`.
  unfoldable pub install_new : MappingConfig → Option ℕ × Space F → Bool × Space F
  unfolding target_level leaf_entry
  install_new c (none, s) = (false, s)
  install_new c (some table, s) =
      if is_valid (s.mem table (vpn_n c.vaddr (target_level c))) then (false, s) else (
        true,
        record s { mem = set_raw s.mem table (vpn_n c.vaddr (target_level c)) (leaf_entry c) },
      )

  unfoldable pub install : MappingConfig → Option ℕ × Space F → Bool × Space F
  unfolding target_level leaf_entry
  install c (none, s) = (false, s)
  install c (some table, s) =
      (true, record s { mem = set_raw s.mem table (vpn_n c.vaddr (target_level c)) (leaf_entry c) })

module _ {F : Type 0} (frames : Frames F) (root : RootTable) where
  unfoldable pub map_address_page : MappingConfig → Space F → Bool × Space F
  unfolding misaligned install_new
  map_address_page c s =
      if misaligned c
      then (false, s)
      else install_new c (walk_to_table_materialize frames root c.vaddr (target_level c) s)

  unfoldable pub map_page : MappingConfig → Space F → Bool × Space F
  unfolding misaligned install
  map_page c s =
      if misaligned c
      then (false, s)
      else install c (walk_to_table_materialize frames root c.vaddr (target_level c) s)

-- `none` clears the leaf.
unfoldable pub leaf_word : Option ℕ → ℕ → ℕ → ℕ
leaf_word none perms rsw = 0
leaf_word (some pa) perms rsw = pack_leaf (pa / 4096) perms rsw

unfoldable pub write_leaf_pte : RootTable → Memory → ℕ → Option ℕ → ℕ → ℕ → Bool × Memory
unfolding leaf_word
write_leaf_pte root mem vaddr paddr perms rsw = elim (walk_to_table root mem vaddr 0) [
  | none ↦ (false, mem)
  | some table ↦ (true, set_raw mem table (vpn_n vaddr 0) (leaf_word paddr perms rsw))
]

unfoldable pub clear_leaf : Memory → ℕ → ℕ → Bool × Memory
clear_leaf mem table idx =
    let raw = mem table idx in
    if not (is_valid raw) || not (is_leaf raw)
    then (false, mem)
    else (true, set_raw mem table idx 0)

unfoldable pub unmap_page : RootTable → Memory → ℕ → ℕ → Bool × Memory
unfolding clear_leaf
unmap_page root mem vaddr levels = elim (walk_to_table root mem vaddr (4 - levels)) [
  | none ↦ (false, mem)
  | some table ↦ clear_leaf mem table (vpn_n vaddr (4 - levels))
]
