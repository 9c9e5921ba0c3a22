-- ===== src/Paging/Ranges/Loop.antt =====
-- The loop of `map_va_range` of mmu/src/mmap.rs, by induction on its fuel.
use orbit.Base.{
  ℕ, zero, suc, ◌+◌, ◌-◌, ◌*◌, ◌/◌, ◌%◌, ◌^◌, ◌≤◌, ◌<◌, ◌≡◌, refl, sym, ap, ◌∙◌, inl, inr, Bool,
  true, false, arith, ltb, leb, if◌then◌else◌, Bool-cases, bit_and,
}
use orbit.Paging.Pages.{Frames, FramesLaws}
use orbit.Paging.Walk.{RootTable, Space, virt_to_phys}
use orbit.Paging.Mapping.{MappingConfig, target_level, misaligned, map_page}
use orbit.Paging.Tree.{Routes, IsTree, IsFresh}
use orbit.Paging.Spans.{span}
use orbit.Paging.Maps.{IsConfig, Mapped, map_page-Mapped}
use orbit.Paging.Ranges.{IdMapReport, count_page, choose_va_page, step_config, failed, map_va_loop}
use orbit.Paging.Ranges.Cover.{
  range_phys, range_phys-zero, IsTier, choose_va_page-IsTier, page-range_phys,
  bytes_mapped-count_page,
}
use orbit.Paging.Ranges.Ranged.{Ranged, Ranged-page}

module _ {F : Type 0} {frames : Frames F} (laws : FramesLaws frames) (root : RootTable) where
  refused : {A : Type 0} → false ≡ true → A
  refused h = absurd (no_way h)
    where
      no_way : false ≡ true → ⊥
      no_way h = cc

  -- A mapping that succeeds was aligned.
  map_page-aligned :
      (c : MappingConfig) (s : Space F)
      → (map_page frames root c s).0 ≡ true
      → c.vaddr % c.page_size ≡ 0
  unfolding map_page misaligned
  map_page-aligned c s h = elim (Bool-cases (misaligned c)) [
    | inl odd ↦ refused (rw odd at h)
    | inr even ↦ ground (arith, even)
  ]

  IsTier-whole : (page : ℕ × ℕ) → IsTier page → page.1 % 4096 ≡ 0
  IsTier-whole (levels, size) (inl (l, e)) = rw e refl
  IsTier-whole (levels, size) (inr (inl (l, e))) = rw e refl
  IsTier-whole (levels, size) (inr (inr (l, e))) = rw e refl

  IsTier-pos : (page : ℕ × ℕ) → IsTier page → 4096 ≤ page.1
  IsTier-pos (levels, size) (inl (l, e)) = omega arith
  IsTier-pos (levels, size) (inr (inl (l, e))) = omega arith
  IsTier-pos (levels, size) (inr (inr (l, e))) = omega arith

  module _ (base : MappingConfig) (usable : ltb 0 (bit_and base.permissions 0xE) ≡ true) where
    step_config-IsConfig :
        (va pa : ℕ) (page : ℕ × ℕ)
        → IsTier page
        → pa < 2 ^ 56
        → IsConfig (step_config base va pa page)
    unfolding step_config target_level span
    step_config-IsConfig va pa (levels, size) (inl (l, e)) small = record {
      low = omega arith;
      high = omega arith;
      sized = rw (l, e) refl;
      small = small;
      usable = usable;
    }
    step_config-IsConfig va pa (levels, size) (inr (inl (l, e))) small = record {
      low = omega arith;
      high = omega arith;
      sized = rw (l, e) refl;
      small = small;
      usable = usable;
    }
    step_config-IsConfig va pa (levels, size) (inr (inr (l, e))) small = record {
      low = omega arith;
      high = omega arith;
      sized = rw (l, e) refl;
      small = small;
      usable = usable;
    }

    pub map_va_loop-Ranged :
        (fuel va pa rem start : ℕ) (report : IdMapReport) (s : Space F) (own : Routes)
        → IsTree root s.mem own
        → IsFresh laws root own s.pages
        → va % 2 ^ 48 ≡ start % 2 ^ 48
        → start + rem ≤ 2 ^ 48
        → pa + rem ≤ 2 ^ 56
        → rem / 4096 < fuel
        → Ranged laws root start pa rem report s
            (map_va_loop frames root base fuel va pa rem report s)
    unfolding map_va_loop step_config
    map_va_loop-Ranged zero va pa rem start report s own tree fresh e hi small fuel_lt =
        absurd (omega arith)
    map_va_loop-Ranged (suc fuel) va pa rem start report s own tree fresh e hi small fuel_lt =
        elim (Bool-cases (leb 4096 rem)) [
          | inr short ↦
              let zero_bytes : rem / 4096 * 4096 ≡ 0 = ground (arith, short) in
              rw (short, zero_bytes)
                (
                  own,
                  tree,
                  fresh,
                  omega arith,
                  λ va. sym (range_phys-zero start pa va (virt_to_phys root s.mem va)),
                )
          | inl long ↦ rw long (
              by_page (ground (arith, long)) (choose_va_page rem pa va)
                (choose_va_page-IsTier rem pa va (ground (arith, long)))
                (λ size report1 s1 own1 tree1 fresh1 le pos.
                  map_va_loop-Ranged fuel (va + size) (pa + size) (rem - size) (start + size)
                    report1 s1 own1 tree1 fresh1 (omega arith) (omega arith) (omega arith)
                    (omega arith)))
        ]
      where
        by_page :
            4096 ≤ rem
            → (page : ℕ × ℕ) → IsTier page × (page.1 ≤ rem)
            → ((size : ℕ) (report1 : IdMapReport) (s1 : Space F) (own1 : Routes)
                → IsTree root s1.mem own1
                → IsFresh laws root own1 s1.pages
                → size ≤ rem
                → 4096 ≤ size
                → Ranged laws root (start + size) (pa + size) (rem - size) report1 s1 (
                    map_va_loop frames root base fuel
                      (va + size)
                      (pa + size)
                      (rem - size)
                      report1
                      s1))
            → Ranged laws root start pa rem report s (
                if (map_page frames root (step_config base va pa page) s).0
                then map_va_loop frames root base fuel
                    (va + page.1)
                    (pa + page.1)
                    (rem - page.1)
                    (count_page page.0 report)
                    (map_page frames root (step_config base va pa page) s).1
                else failed (map_page frames root (step_config base va pa page) s).1)
        by_page long (levels, size) (tier, le) ih =
            by_result (map_page frames root (step_config base va pa (levels, size)) s)
              (map_page-Mapped laws root (step_config base va pa (levels, size)) s own
                (step_config-IsConfig va pa (levels, size) tier (omega arith)) tree fresh)
              (map_page-aligned (step_config base va pa (levels, size)) s)
          where
            by_result :
                (r : Bool × Space F)
                → Mapped laws root (step_config base va pa (levels, size)) s r
                → (r.0 ≡ true → va % size ≡ 0)
                → Ranged laws root start pa rem report s (
                    if r.0
                    then map_va_loop frames root base fuel
                        (va + size)
                        (pa + size)
                        (rem - size)
                        (count_page levels report)
                        r.1
                    else failed r.1)
            by_result (false, s1) (own1, tree1, fresh1, same) aligned = (
              own1,
              tree1,
              fresh1,
              0,
              omega arith,
              λ v. same v ∙ sym (range_phys-zero start pa v (virt_to_phys root s.mem v)),
            )
            by_result (true, s1) (own1, tree1, fresh1, first) aligned =
                let c = step_config base va pa (levels, size) in
                let low : va % 2 ^ 48 ≡ start = omega arith in
                Ranged-page laws root start pa rem size report (count_page levels report) s s1
                  (IsTier-whole (levels, size) tier) le
                  (bytes_mapped-count_page levels size report tier)
                  (λ v.
                    first v
                    ∙ page-range_phys c v (virt_to_phys root s.mem v) tier (aligned refl)
                    ∙ ap (λ (t : ℕ). range_phys t pa size v (virt_to_phys root s.mem v)) low)
                  (map_va_loop frames root base fuel (va + size) (pa + size) (rem - size)
                    (count_page levels report) s1)
                  (ih size (count_page levels report) s1 own1 tree1 fresh1 le
                    (IsTier-pos (levels, size) tier))
