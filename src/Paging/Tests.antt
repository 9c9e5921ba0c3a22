-- ===== src/Paging/Tests.antt =====
-- Page tables of mmu/src/mmap.rs on concrete addresses: runs, and the theorems applied.
use orbit.Base.{
  Option, none, some, ℕ, ◌+◌, ◌-◌, ◌*◌, ◌%◌, ◌^◌, ◌<◌, ◌≤◌, ◌≡◌, refl, ◌⊎◌, inl, inr, Bool, true,
  false, ◌&&◌, List, [], ◌∷◌, arith, if◌then◌else◌, ◌==◌, leb, ltb, bit_and, Bool-cases,
}
use orbit.Paging.Entry.{
  pack_leaf, is_valid, is_leaf, ppn, get_ppn, get_bit, get_supervisor_bits, pack_table, vpn_n,
}
use orbit.Paging.Entry.Leaf.{unpack-pack_leaf}
use orbit.Paging.Pages.{
  Frames, FramesLaws, ptv, fa, left, spare_frame, Handed, allocate_page_table, free_page,
}
use orbit.Paging.Walk.{
  walk_to_table, RootTable, Space, virt_to_phys, va_from_pa, walk_to_table_materialize, set_raw,
  zeroed, next_va, chained_va,
}
use orbit.Paging.Mapping.{
  write_leaf_pte, MappingConfig, map_page, map_address_page, unmap_page, target_level, leaf_entry,
}
use orbit.Paging.Teardown.{unmap}
use orbit.Paging.Tree.{Routes, IsTree, IsFresh, Linked}
use orbit.Paging.Spans.{span}
use orbit.Paging.Maps.{IsConfig, Mapped, map_page-Mapped}
use orbit.Paging.Refusals.{Kept, map_address_page-Kept}
use orbit.Paging.Unmaps.{Undone, unmap_page-map_page}
use orbit.Paging.Ranges.{
  reserve_va_range, Ended, out_of_fuel, failed, finished, map_va_range, id_map_range, no_pages,
  IdMapReport, step_config, choose_va_page, count_page,
}
use orbit.Paging.Ranges.Ranged.{Ranged}
use orbit.Paging.Ranges.Maps.{map_va_range-Ranged}

-- A frame allocator that counts up to a frame number.
abbrev counter : Frames ℕ
counter = record {
  alloc_aligned = λ n. if ltb n 64 then (some (n * 4096), n + 1) else (none, n);
  dealloc_aligned = λ n pa. n;
}

counter_spare : ℕ → ℕ → Bool
counter_spare n pa = leb (n * 4096) pa && ltb pa (64 * 4096) && (pa % 4096 == 0)

counter_alloc : (n : ℕ) → Handed counter_spare n (counter.alloc_aligned n)
unfolding counter_spare
counter_alloc n = elim (Bool-cases (ltb n 64)) [
  | inl more ↦ rw more (ground arith, ground arith, λ q. ground arith)
  | inr over ↦ rw over (λ q. ground arith)
]

abbrev counter_laws : FramesLaws counter
counter_laws = record { spare = counter_spare; alloc_lem = counter_alloc }

-- An empty root, and sixteen frames above it.
abbrev root : RootTable
root = record { table = 0x1000; pa_to_va_bias = 0 }

abbrev start : Space ℕ
start = record {
  mem = λ t i. 0;
  pages = ptv (record { start_addr = 0x2000; max_pages = 16; current_page = 0 });
}

abbrev own : Routes
own t = if t == 0x1000 then some [] else none

start-IsTree : IsTree root start.mem own
unfolding is_valid
start-IsTree = record { at_root = refl; linked = λ t. by_table t (Bool-cases (t == 0x1000)) }
  where
    by_table :
        (t : ℕ)
        → ((t == 0x1000) ≡ true) ⊎ ((t == 0x1000) ≡ false)
        → Linked root start.mem own t (own t)
    by_table t (inl at) = rw at (λ i. inl refl)
    by_table t (inr off) = rw off tt

start-IsFresh : IsFresh counter_laws root own start.pages
unfolding left spare_frame va_from_pa
start-IsFresh pa =
    elim (Bool-cases (left (record { start_addr = 0x2000; max_pages = 16; current_page = 0 }) pa)) [
      | inr spent ↦ inl spent
      | inl free ↦ inr (in_range free)
    ]
  where
    in_range :
        left (record { start_addr = 0x2000; max_pages = 16; current_page = 0 }) pa ≡ true
        → (pa % 4096 ≡ 0) × (pa < 2 ^ 56) × (own ((pa + 0) % 2 ^ 64) ≡ none)
    in_range free =
        let lo : 0x2000 ≤ pa = ground (arith, free) in
        let hi : pa < 0x12000 = ground (arith, free) in
        let whole : (pa - 0x2000) % 4096 ≡ 0 = ground (arith, free) in
        (omega arith, omega arith, ground arith)

abbrev page : MappingConfig
page = record {
  permissions = 6;
  levels = 4;
  page_size = 4096;
  vaddr = 0x4000_5000;
  paddr = 0x8000_3000;
  supervisor_tag = 0;
}

page-IsConfig : IsConfig page
unfolding span target_level
page-IsConfig = record {
  low = omega arith;
  high = omega arith;
  sized = refl;
  small = omega arith;
  usable = refl;
}

-- The page is mapped through three new tables, and the next page is not.
mapped_run :
    virt_to_phys root (map_page counter root page start).1.mem 0x4000_5123 ≡ some 0x8000_3123
unfolding map_page virt_to_phys walk_to_table_materialize allocate_page_table set_raw zeroed vpn_n
    is_valid is_leaf pack_leaf pack_table ppn get_ppn next_va chained_va leaf_entry target_level
mapped_run = refl

-- A frame that is mapped twice is refused, and a table with no frame left gives an error.
ruled_out :
    (map_address_page counter root page (map_address_page counter root page start).1).0 ≡ false
unfolding map_address_page walk_to_table_materialize allocate_page_table set_raw zeroed vpn_n
    is_valid is_leaf pack_leaf pack_table ppn get_ppn next_va leaf_entry target_level
ruled_out = refl

-- 2 MiB and 8 KiB, at an address that allows one large page.
report_of : Ended ℕ → IdMapReport
report_of out_of_fuel = no_pages
report_of (failed s) = no_pages
report_of (finished r s) = r

range_run :
    report_of (map_va_range counter root page 0x4000_0000 0x8000_0000 0x8020_2000 start)
    ≡ record { gigapages_mapped = 0; megapages_mapped = 1; regularpages_mapped = 2 }
unfolding report_of map_va_range step_config choose_va_page count_page map_page
    walk_to_table_materialize allocate_page_table set_raw zeroed vpn_n is_valid is_leaf pack_leaf
    pack_table ppn get_ppn next_va leaf_entry target_level
range_run = refl

unpack-pack_leaf_example :
    (is_valid (pack_leaf 0x80003 6 1) ≡ true)
    × (get_bit (pack_leaf 0x80003 6 1) 6 ≡ true)
    × (get_bit (pack_leaf 0x80003 6 1) 7 ≡ true)
    × (is_leaf (pack_leaf 0x80003 6 1) ≡ ltb 0 (bit_and 6 0xE))
    × (ppn (pack_leaf 0x80003 6 1) ≡ 0x80003)
    × (get_ppn (pack_leaf 0x80003 6 1) ≡ 0x80003 * 1024)
    × (bit_and (pack_leaf 0x80003 6 1) 0x3E ≡ bit_and 6 0x3E)
    × (get_supervisor_bits (pack_leaf 0x80003 6 1) ≡ bit_and 1 3)
unpack-pack_leaf_example = unpack-pack_leaf 0x80003 6 1 (omega arith)

map_page-Mapped_example : Mapped counter_laws root page start (map_page counter root page start)
map_page-Mapped_example =
    map_page-Mapped counter_laws root page start own page-IsConfig start-IsTree start-IsFresh

map_address_page-Kept_example :
    Mapped counter_laws root page start (map_address_page counter root page start)
    × Kept counter_laws root start (map_address_page counter root page start)
map_address_page-Kept_example =
    map_address_page-Kept counter_laws root page start own page-IsConfig start-IsTree start-IsFresh

page_mapped : map_page counter root page start ≡ (true, (map_page counter root page start).1)
unfolding map_page walk_to_table_materialize allocate_page_table is_valid is_leaf target_level
    set_raw va_from_pa zeroed
page_mapped = refl

unmap_page-map_page_example :
    Undone counter_laws root page start
      (unmap_page root (map_page counter root page start).1.mem 0x4000_5000 4)
unmap_page-map_page_example =
    unmap_page-map_page counter_laws root page start own page-IsConfig start-IsTree start-IsFresh
      (map_page counter root page start).1 page_mapped

map_va_range-Ranged_example :
    Ranged counter_laws root 0x4000_0000 0x8000_0000 0x202000 no_pages start
      (map_va_range counter root page 0x4000_0000 0x8000_0000 0x8020_2000 start)
    × (id_map_range counter root page 0x8000_0000 0x8020_2000 start
        ≡ map_va_range counter root page 0x8000_0000 0x8000_0000 0x8020_2000 start)
map_va_range-Ranged_example =
    map_va_range-Ranged counter_laws root page refl start own start-IsTree start-IsFresh 0x4000_0000
      0x8000_0000 0x8020_2000 (omega arith) (omega arith) (omega arith)

-- A reserved window that starts 4 KiB below a multiple of 2 MiB and ends 4 KiB above it: its second
-- page has no table, and a leaf cannot be written there.
after_reserve : Option (Bool × Space ℕ) → Option Bool
after_reserve none = none
after_reserve (some (ok, s)) = some ((write_leaf_pte root s.mem 0x20_0000 (some 0x8000_0000) 6 0).0)

window_gap : after_reserve (reserve_va_range counter root 0x1f_f000 0x20_1000 start) ≡ some false
unfolding after_reserve reserve_va_range write_leaf_pte walk_to_table_materialize
    allocate_page_table set_raw zeroed vpn_n is_valid is_leaf pack_table ppn next_va walk_to_table
window_gap = refl

reserved_run : after_reserve (reserve_va_range counter root 0x20_0000 0x20_1000 start) ≡ some true
unfolding after_reserve reserve_va_range write_leaf_pte walk_to_table_materialize
    allocate_page_table set_raw zeroed vpn_n is_valid is_leaf pack_table ppn next_va walk_to_table
reserved_run = refl

-- An allocator that keeps the frames given back, the last one first.
abbrev returned : Frames (List ℕ)
returned = record { alloc_aligned = λ l. (none, l); dealloc_aligned = λ l pa. pa ∷ l }

-- The tables of one mapped page go back, the deepest first.
teardown_run :
    unmap returned root (map_page counter root page start).1.mem (fa [])
    ≡ some (fa (0x2000 ∷ 0x3000 ∷ 0x4000 ∷ []))
unfolding unmap map_page walk_to_table_materialize allocate_page_table is_valid is_leaf target_level
    set_raw va_from_pa zeroed pack_table ppn get_ppn next_va chained_va leaf_entry free_page vpn_n
    pack_leaf
teardown_run = refl
