-- ===== src/Paging/Ranges/Maps.antt =====
-- `map_va_range` and `id_map_range` of mmu/src/mmap.rs.
use orbit.Base.{
  ℕ, zero, suc, ◌+◌, ◌-◌, ◌/◌, ◌%◌, ◌^◌, ◌≤◌, ◌≡◌, refl, true, false, arith, ltb, bit_and,
}
use orbit.Paging.Entry.{page_size}
use orbit.Paging.Pages.{Frames, FramesLaws}
use orbit.Paging.Walk.{RootTable, Space}
use orbit.Paging.Mapping.{MappingConfig, map_page}
use orbit.Paging.Tree.{Routes, IsTree, IsFresh}
use orbit.Paging.Ranges.{
  IdMapReport, no_pages, count_page, choose_va_page, step_config, map_va_loop, map_va_range,
  id_map_loop, id_map_range,
}
use orbit.Paging.Ranges.Cover.{choose_id_page-eq}
use orbit.Paging.Ranges.Ranged.{Ranged}
use orbit.Paging.Ranges.Loop.{map_va_loop-Ranged}

id_map_loop-eq :
    {F : Type 0} (frames : Frames F) (root : RootTable) (base : MappingConfig) (fuel addr rem : ℕ)
    (report : IdMapReport) (s : Space F)
    → id_map_loop frames root base fuel addr rem report s
      ≡ map_va_loop frames root base fuel addr addr rem report s
unfolding id_map_loop map_va_loop
id_map_loop-eq frames root base zero addr rem report s = refl
id_map_loop-eq frames root base (suc fuel) addr rem report s = rw choose_id_page-eq (
    ground (
      arith,
      id_map_loop-eq frames root base fuel (addr + (choose_va_page rem addr addr).1)
          (rem - (choose_va_page rem addr addr).1)
          (count_page (choose_va_page rem addr addr).0 report)
          (map_page frames root (step_config base addr addr (choose_va_page rem addr addr)) s).1,
    ))

id_map_range-eq :
    {F : Type 0} (frames : Frames F) (root : RootTable) (base : MappingConfig) (start end : ℕ)
    (s : Space F)
    → id_map_range frames root base start end s ≡ map_va_range frames root base start start end s
unfolding id_map_range map_va_range
id_map_range-eq frames root base start end s = ground (
  arith,
  id_map_loop-eq frames root base ((end - start) / page_size + 1) start (end - start) no_pages s,
)

module _ {F : Type 0} {frames : Frames F} (laws : FramesLaws frames) (root : RootTable)
    (base : MappingConfig) (usable : ltb 0 (bit_and base.permissions 0xE) ≡ true) (s : Space F)
    (own : Routes) (tree : IsTree root s.mem own) (fresh : IsFresh laws root own s.pages) where
  -- For a page table that is a tree whose allocator hands out fresh frames, a usable permission,
  -- and a range that ends neither below its start nor above 2 ^ 56, nor passes the end of the 48-bit
  -- addresses: `map_va_range` ends within its fuel. If it is finished, then `virt_to_phys` maps each
  -- address of the whole pages of the range to its place in the physical range and every other
  -- address as before, and the report's gigapages, megapages and pages make up the whole pages. If
  -- it fails, a part of them shorter than all, from the start on, is so mapped and nothing else is
  -- changed. Either way the page table is a tree with fresh frames. And `id_map_range` is
  -- `map_va_range` with the physical start for the virtual one.
  pub map_va_range-Ranged :
      (va_start pa_start pa_end : ℕ)
      → pa_start ≤ pa_end
      → pa_end ≤ 2 ^ 56
      → va_start % 2 ^ 48 + (pa_end - pa_start) ≤ 2 ^ 48
      → Ranged laws root
          (va_start % 2 ^ 48)
          pa_start
          (pa_end - pa_start)
          no_pages
          s
          (map_va_range frames root base va_start pa_start pa_end s)
        × (id_map_range frames root base pa_start pa_end s
            ≡ map_va_range frames root base pa_start pa_start pa_end s)
  unfolding map_va_range
  map_va_range-Ranged va_start pa_start pa_end le hi fits =
      let forward : ltb pa_end pa_start ≡ false = ground arith in
      (
        rw forward (
            map_va_loop-Ranged laws root base usable ((pa_end - pa_start) / 4096 + 1) va_start
              pa_start (pa_end - pa_start) (va_start % 2 ^ 48) no_pages s own tree fresh
              (omega arith) fits (omega arith) (omega arith)),
        id_map_range-eq frames root base pa_start pa_end s,
      )
