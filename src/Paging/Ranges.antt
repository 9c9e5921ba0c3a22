-- ===== src/Paging/Ranges.antt =====
-- The operations of mmu/src/mmap.rs on ranges of addresses. A loop takes fuel, one unit for each
-- round and one for the test that ends it.
pub mod Cover
pub mod Ranged
pub mod Loop
pub mod Maps
use orbit.Base.{
  ℕ, zero, suc, ◌+◌, ◌-◌, ◌*◌, ◌/◌, ◌%◌, ◌^◌, Bool, true, false, not, ◌&&◌, ◌||◌, Option, none,
  some, ltb, leb, ◌==◌, min, if◌then◌else◌,
}
use orbit.Paging.Entry.{page_size}
use orbit.Paging.Pages.{Frames}
use orbit.Paging.Walk.{Memory, RootTable, Space, walk_to_table_materialize}
use orbit.Paging.Mapping.{MappingConfig, map_address_page, map_page, unmap_page}

abbrev pub megabyte : ℕ
megabyte = 2 ^ 20

abbrev pub gigabyte : ℕ
gigabyte = 2 ^ 30

pub record IdMapReport : Type 0 where
  pub gigapages_mapped : ℕ
  pub megapages_mapped : ℕ
  pub regularpages_mapped : ℕ

unfoldable pub no_pages : IdMapReport
no_pages = record { gigapages_mapped = 0; megapages_mapped = 0; regularpages_mapped = 0 }

-- `match levels`, where no other number of levels is chosen.
unfoldable pub count_page : ℕ → IdMapReport → IdMapReport
count_page levels r =
    if levels == 4
    then record r { regularpages_mapped = r.regularpages_mapped + 1 }
    else if levels == 3
    then record r { megapages_mapped = r.megapages_mapped + 1 }
    else record r { gigapages_mapped = r.gigapages_mapped + 1 }

-- The number of levels and the page size for what remains of a range.
unfoldable pub choose_va_page : ℕ → ℕ → ℕ → ℕ × ℕ
choose_va_page rem pa va =
    if leb gigabyte rem && (pa % gigabyte == 0) && (va % gigabyte == 0)
    then (2, gigabyte)
    else if leb (2 * megabyte) rem && (pa % (2 * megabyte) == 0) && (va % (2 * megabyte) == 0)
    then (3, 2 * megabyte)
    else (4, page_size)

unfoldable pub choose_id_page : ℕ → ℕ → ℕ × ℕ
choose_id_page rem addr =
    if leb gigabyte rem && (addr % gigabyte == 0)
    then (2, gigabyte)
    else if leb (2 * megabyte) rem && (addr % (2 * megabyte) == 0)
    then (3, 2 * megabyte)
    else (4, page_size)

unfoldable pub step_config : MappingConfig → ℕ → ℕ → ℕ × ℕ → MappingConfig
step_config base va pa (levels, size) = record base {
  levels = levels;
  page_size = size;
  vaddr = va;
  paddr = pa;
}

pub data Ended (F : Type 0) : Type 0 where
  out_of_fuel : Ended F
  failed : Space F → Ended F
  finished : IdMapReport → Space F → Ended F

module _ {F : Type 0} (frames : Frames F) (root : RootTable) where
  unfoldable pub map_va_loop : MappingConfig → ℕ → ℕ → ℕ → ℕ → IdMapReport → Space F → Ended F
  map_va_loop base zero va pa rem report s = out_of_fuel
  map_va_loop base (suc fuel) va pa rem report s =
      let page = choose_va_page rem pa va in
      let result = map_page frames root (step_config base va pa page) s in
      let rest =
        map_va_loop base fuel (va + page.1) (pa + page.1) (rem - page.1) (count_page page.0 report)
          result.1 in
      if leb page_size rem then (if result.0 then rest else failed result.1) else finished report s

  unfoldable pub map_va_range : MappingConfig → ℕ → ℕ → ℕ → Space F → Ended F
  unfolding map_va_loop no_pages
  map_va_range base va_start pa_start pa_end s =
      if ltb pa_end pa_start
      then failed s
      else map_va_loop base ((pa_end - pa_start) / page_size + 1) va_start pa_start
          (pa_end - pa_start) no_pages s

  unfoldable pub id_map_loop : MappingConfig → ℕ → ℕ → ℕ → IdMapReport → Space F → Ended F
  id_map_loop base zero addr rem report s = out_of_fuel
  id_map_loop base (suc fuel) addr rem report s =
      let page = choose_id_page rem addr in
      let result = map_page frames root (step_config base addr addr page) s in
      let rest =
        id_map_loop base fuel (addr + page.1) (rem - page.1) (count_page page.0 report) result.1 in
      if leb page_size rem then (if result.0 then rest else failed result.1) else finished report s

  unfoldable pub id_map_range : MappingConfig → ℕ → ℕ → Space F → Ended F
  unfolding id_map_loop no_pages
  id_map_range base start end s =
      if ltb end start
      then failed s
      else id_map_loop base ((end - start) / page_size + 1) start (end - start) no_pages s

  -- `for _ in 0..pages_needed`.
  unfoldable pub map_pages : MappingConfig → ℕ → Space F → Bool × Space F
  map_pages c zero s = (true, s)
  map_pages c (suc n) s =
      let result = map_address_page frames root c s in
      let rest =
        map_pages (record c { paddr = c.paddr + c.page_size; vaddr = c.vaddr + c.page_size }) n
          result.1 in
      if result.0 then rest else (false, result.1)

  -- The differences are on `usize`.
  unfoldable pub map_address_range : MappingConfig → ℕ → ℕ → Space F → Bool × Space F
  unfolding map_pages
  map_address_range c vend pend s =
      let plen = (pend + 2 ^ 64 - c.paddr) % 2 ^ 64 in
      if not ((vend + 2 ^ 64 - c.vaddr) % 2 ^ 64 == plen)
      then (false, s)
      else if not (c.paddr % c.page_size == 0) || not (c.vaddr % c.page_size == 0)
      then (false, s)
      else map_pages c (plen / c.page_size) s

  -- The span of one L0 table.
  abbrev l0_span : ℕ
  l0_span = 512 * page_size

  -- `none` is the end of the fuel.
  unfoldable pub reserve_loop : ℕ → ℕ → ℕ → Space F → Option (Bool × Space F)
  reserve_loop zero va va_end s = none
  reserve_loop (suc fuel) va va_end s =
      let (found, s') = walk_to_table_materialize frames root va 0 s in
      let rest = reserve_loop fuel (min (va + l0_span) (2 ^ 64 - 1)) va_end s' in
      if ltb va va_end
      then elim found [ none ↦ some (false, s') | some t ↦ rest ]
      else some (true, s)

  unfoldable pub reserve_va_range : ℕ → ℕ → Space F → Option (Bool × Space F)
  unfolding reserve_loop
  reserve_va_range va_start va_end s =
      if not (va_start % page_size == 0) || not (va_end % page_size == 0)
      then some (false, s)
      else reserve_loop ((va_end - va_start) / page_size + 2) va_start va_end s

unfoldable pub unmap_loop : RootTable → ℕ → ℕ → ℕ → Memory → Option (Bool × Memory)
unmap_loop root zero addr end mem = none
unmap_loop root (suc fuel) addr end mem =
    let result = unmap_page root mem addr 4 in
    let rest = unmap_loop root fuel (addr + page_size) end result.1 in
    if ltb addr end then (if result.0 then rest else some (false, result.1)) else some (true, mem)

unfoldable pub unmap_range : RootTable → ℕ → ℕ → Memory → Option (Bool × Memory)
unfolding unmap_loop
unmap_range root start end mem =
    if not (start % page_size == 0) || not (end % page_size == 0)
    then some (false, mem)
    else unmap_loop root ((end - start) / page_size + 1) start end mem
