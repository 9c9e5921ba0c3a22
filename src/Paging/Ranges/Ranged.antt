-- ===== src/Paging/Ranges/Ranged.antt =====
-- What `map_va_range` of mmu/src/mmap.rs leaves of a range: its pages mapped one after the other.
use orbit.Base.{ℕ, ◌+◌, ◌-◌, ◌*◌, ◌/◌, ◌%◌, ◌≤◌, ◌<◌, ◌≡◌, ◌∙◌, arith}
use orbit.Paging.Pages.{Frames, FramesLaws}
use orbit.Paging.Walk.{RootTable, Space, virt_to_phys}
use orbit.Paging.Tree.{Routes, IsTree, IsFresh}
use orbit.Paging.Ranges.{IdMapReport, Ended, out_of_fuel, failed, finished}
use orbit.Paging.Ranges.Cover.{range_phys, range_phys-range_phys, bytes_mapped}

module _ {F : Type 0} {frames : Frames F} (laws : FramesLaws frames) (root : RootTable) where
  abbrev pub Translates : Space F → Space F → ℕ → ℕ → ℕ → Type 0
  Translates s s' start pa bytes =
      (va : ℕ)
      → virt_to_phys root s'.mem va ≡ range_phys start pa bytes va (virt_to_phys root s.mem va)

  -- What a run leaves: the whole pages of the range mapped and counted if it is finished, and a
  -- part of them, shorter than all, if it failed.
  abbrev pub Ranged : ℕ → ℕ → ℕ → IdMapReport → Space F → Ended F → Type 0
  Ranged start pa rem report s out_of_fuel = ⊥
  Ranged start pa rem report s (failed s') =
      (own' : Routes) × IsTree root s'.mem own'
      × IsFresh laws root own' s'.pages
      × (bytes : ℕ) × (bytes < rem / 4096 * 4096)
      × Translates s s' start pa bytes
  Ranged start pa rem report s (finished r s') =
      (own' : Routes) × IsTree root s'.mem own'
      × IsFresh laws root own' s'.pages
      × (bytes_mapped r ≡ bytes_mapped report + rem / 4096 * 4096)
      × Translates s s' start pa (rem / 4096 * 4096)

  -- The first page and the rest.
  pub Ranged-page :
      (start pa rem size : ℕ) (report r1 : IdMapReport) (s s1 : Space F)
      → (size % 4096 ≡ 0)
      → size ≤ rem
      → bytes_mapped r1 ≡ bytes_mapped report + size
      → Translates s s1 start pa size
      → (e : Ended F) → Ranged (start + size) (pa + size) (rem - size) r1 s1 e
      → Ranged start pa rem report s e
  Ranged-page start pa rem size report r1 s s1 whole le count first (failed s')
        (own', tree, fresh, bytes, lt, rest) =
      (
        own',
        tree,
        fresh,
        size + bytes,
        omega arith,
        λ va.
            rest va
            ∙ rw (first va)
                (range_phys-range_phys start pa size bytes va (virt_to_phys root s.mem va)),
      )
  Ranged-page start pa rem size report r1 s s1 whole le count first (finished r s')
        (own', tree, fresh, total, rest) =
      let all : size + (rem - size) / 4096 * 4096 ≡ rem / 4096 * 4096 = omega arith in
      (
        own',
        tree,
        fresh,
        omega arith,
        λ va.
            rest va
            ∙ rw (first va, ← all)
                (range_phys-range_phys start pa size ((rem - size) / 4096 * 4096) va
                  (virt_to_phys root s.mem va)),
      )
  Ranged-page start pa rem size report r1 s s1 whole le count first out_of_fuel h = elim h [ ]
