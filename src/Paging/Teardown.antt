-- ===== src/Paging/Teardown.antt =====
-- `unmap` of mmu/src/mmap.rs, which gives the tables below a root back to the allocator.
use orbit.Base.{ℕ, zero, suc, ◌+◌, ◌*◌, ◌%◌, ◌^◌, not, ◌||◌, Option, none, some, if◌then◌else◌}
use orbit.Paging.Entry.{is_valid, is_leaf, get_ppn}
use orbit.Paging.Pages.{Frames, PageAlloc, free_page}
use orbit.Paging.Walk.{Memory, RootTable, chained_va}

module _ {F : Type 0} (frames : Frames F) (root : RootTable) (mem : Memory) where
  -- One entry, where `below` is the call for a table below; the result of `free_page` is dropped.
  unfoldable pub free_entry :
      (ℕ → PageAlloc F → Option (PageAlloc F)) → ℕ → PageAlloc F → Option (PageAlloc F)
  free_entry below raw pages =
      if not (is_valid raw) || is_leaf raw
      then some pages
      else elim (below (chained_va root raw) pages) [
        | none ↦ none
        | some pages' ↦ some ((free_page frames pages' (get_ppn raw * 2 ^ 2 % 2 ^ 64)).1)
      ]

  -- The entries from `idx` on, `left` of them.
  unfoldable pub free_entries :
      (ℕ → PageAlloc F → Option (PageAlloc F)) → ℕ → ℕ → ℕ → PageAlloc F → Option (PageAlloc F)
  unfolding free_entry
  free_entries below zero idx table pages = some pages
  free_entries below (suc left) idx table pages = elim (free_entry below (mem table idx) pages) [
    | none ↦ none
    | some pages' ↦ free_entries below left (idx + 1) table pages'
  ]

  -- The fuel is the depth; `none` is its end.
  unfoldable pub unmap_subtree : ℕ → ℕ → PageAlloc F → Option (PageAlloc F)
  unfolding free_entries
  unmap_subtree zero table pages = none
  unmap_subtree (suc depth) table pages = free_entries (unmap_subtree depth) 512 0 table pages

  -- The four levels of tables.
  unfoldable pub unmap : PageAlloc F → Option (PageAlloc F)
  unfolding unmap_subtree
  unmap pages = unmap_subtree 4 root.table pages
