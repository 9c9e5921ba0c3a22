-- ===== src/Paging/Ranges/Cover.antt =====
-- Translations of a range, page by page: what the loops of mmu/src/mmap.rs build up.
use orbit.Base.{
  ℕ, ◌+◌, ◌-◌, ◌*◌, ◌/◌, ◌%◌, ◌^◌, ◌≤◌, ◌≡◌, refl, ◌⊎◌, inl, inr, ◌&&◌, Option, some, arith, ltb,
  leb, if◌then◌else◌, ◌==◌, Bool-cases,
}
use orbit.Paging.Spans.{same_page}
use orbit.Paging.Mapping.{MappingConfig}
use orbit.Paging.Maps.{mapped_phys}
use orbit.Paging.Ranges.{
  IdMapReport, count_page, choose_va_page, choose_id_page, megabyte, gigabyte,
}

-- The first `bytes` bytes from `start` on are mapped to those from `pa` on, by the 48 bits of an
-- address, and all else is translated as before.
unfoldable pub range_phys : ℕ → ℕ → ℕ → ℕ → Option ℕ → Option ℕ
range_phys start pa bytes va before =
    if leb start (va % 2 ^ 48) && ltb (va % 2 ^ 48) (start + bytes)
    then some (pa + (va % 2 ^ 48 - start))
    else before

pub range_phys-zero :
    (start pa va : ℕ) (before : Option ℕ) → range_phys start pa 0 va before ≡ before
unfolding range_phys
range_phys-zero start pa va before = ground arith

pub range_phys-range_phys :
    (start pa size bytes va : ℕ) (before : Option ℕ)
    → range_phys (start + size) (pa + size) bytes va (range_phys start pa size va before)
      ≡ range_phys start pa (size + bytes) va before
unfolding range_phys
range_phys-range_phys start pa size bytes va before = ground arith

-- The three page sizes.
abbrev pub IsTier : ℕ × ℕ → Type 0
IsTier (levels, size) =
    ((levels ≡ 4) × (size ≡ 4096))
    ⊎ ((levels ≡ 3) × (size ≡ 2 ^ 21))
    ⊎ ((levels ≡ 2) × (size ≡ 2 ^ 30))

pub choose_va_page-IsTier :
    (rem pa va : ℕ)
    → 4096 ≤ rem
    → IsTier (choose_va_page rem pa va) × ((choose_va_page rem pa va).1 ≤ rem)
unfolding choose_va_page
choose_va_page-IsTier rem pa va h =
    elim (Bool-cases (leb gigabyte rem && (pa % gigabyte == 0) && (va % gigabyte == 0))) [
      | inl giga ↦ rw giga (inr (inr (refl, refl)), ground (arith, giga))
      | inr no_giga ↦
          rw no_giga
            (elim (Bool-cases (
              leb (2 * megabyte) rem && (pa % (2 * megabyte) == 0) && (va % (2 * megabyte) == 0))) [
                | inl mega ↦ rw mega (inr (inl (refl, refl)), ground (arith, mega))
                | inr no_mega ↦ rw no_mega (inl (refl, refl), h)
              ])
    ]

pub choose_id_page-eq : (rem addr : ℕ) → choose_id_page rem addr ≡ choose_va_page rem addr addr
unfolding choose_id_page choose_va_page
choose_id_page-eq rem addr = ground arith

page_numbers :
    (levels size w pa va : ℕ) (before : Option ℕ)
    → IsTier (levels, size)
    → w % size ≡ 0
    → (if va % 2 ^ 48 / size == w % 2 ^ 48 / size then some (pa + va % size) else before) ≡ (
        if leb (w % 2 ^ 48) (va % 2 ^ 48) && ltb (va % 2 ^ 48) (w % 2 ^ 48 + size)
        then some (pa + (va % 2 ^ 48 - w % 2 ^ 48))
        else before)
page_numbers levels size w pa va before (inl (l, e)) even =
    let even' = rw e at even in rw e (ground (arith, even'))
page_numbers levels size w pa va before (inr (inl (l, e))) even =
    let even' = rw e at even in rw e (ground (arith, even'))
page_numbers levels size w pa va before (inr (inr (l, e))) even =
    let even' = rw e at even in rw e (ground (arith, even'))

-- One page is the range of its size.
pub page-range_phys :
    (c : MappingConfig) (va : ℕ) (before : Option ℕ)
    → IsTier (c.levels, c.page_size)
    → c.vaddr % c.page_size ≡ 0
    → mapped_phys c va before ≡ range_phys (c.vaddr % 2 ^ 48) c.paddr c.page_size va before
unfolding mapped_phys same_page range_phys
page-range_phys c va before tier even =
    page_numbers c.levels c.page_size c.vaddr c.paddr va before tier even

unfoldable pub bytes_mapped : IdMapReport → ℕ
bytes_mapped r =
    r.gigapages_mapped * 2 ^ 30 + r.megapages_mapped * 2 ^ 21 + r.regularpages_mapped * 4096

pub bytes_mapped-count_page :
    (levels size : ℕ) (r : IdMapReport)
    → IsTier (levels, size)
    → bytes_mapped (count_page levels r) ≡ bytes_mapped r + size
unfolding bytes_mapped count_page
bytes_mapped-count_page levels size r tier = ground arith
