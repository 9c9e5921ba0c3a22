-- ===== src/Paging/Tree/Growth.antt =====
-- `walk_to_table_materialize` of mmu/src/mmap.rs: the tree grows, and no translation changes.
use orbit.Base.{
  ℕ, ◌+◌, ◌%◌, ◌^◌, ◌<◌, ◌≡◌, refl, ◌∙◌, ◌⊎◌, inl, inr, true, false, not, ◌&&◌, Option, none, some,
  List, ◌∷◌, length, arith, if◌then◌else◌, ◌==◌, Bool-cases, ==_iff, ==_refl,
}
use orbit.Paging.Entry.{is_valid, is_leaf}
use orbit.Paging.Pages.{
  Frames, FramesLaws, PageAlloc, spare_frame, Handed, allocate_page_table,
  allocate_page_table-Handed,
}
use orbit.Paging.Walk.{
  Memory, RootTable, Space, next_va, va_from_pa, set_raw, zeroed, place_table, next_table,
}
use orbit.Paging.Resolve.{points, resolve, next_va-pack_table, pack_table-points}
use orbit.Paging.Tree.{above, Routes, IsTree, followed, IsFresh}
use orbit.Paging.Tree.GrowReads.{grown-resolve}
use orbit.Paging.Tree.Grow.{
  grown_routes, Vacant, grown-IsTree, va_from_pa_inj, grown-at, routes-kept, grown-else,
}

-- An entry that is followed is not an empty one.
other_entry :
    (mem : Memory) (table idx u i : ℕ)
    → is_valid (mem table idx) ≡ false
    → points (mem u i) ≡ true
    → ((u == table) && (i == idx)) ≡ false
other_entry mem table idx u i empty p = elim (Bool-cases ((u == table) && (i == idx))) [
  | inr apart ↦ apart
  | inl same ↦
      let at : u ≡ table = ground (arith, same) in
      let entry : i ≡ idx = ground (arith, same) in
      let there : points (mem table idx) ≡ true = rw at at (rw entry at p) in ground (arith, there)
]

module _ {F : Type 0} {frames : Frames F} (laws : FramesLaws frames) (root : RootTable) where
  -- How the tables may have changed: the tables and the entries followed are still there, and
  -- every translation from a table is the old one.
  pub record Grows (s : Space F) (own : Routes) (s' : Space F) (own' : Routes) : Type 0 where
    pub tree : IsTree root s'.mem own'
    pub fresh : IsFresh laws root own' s'.pages
    pub routes : (u : ℕ) (r : List ℕ) → own u ≡ some r → own' u ≡ some r
    pub entries :
        (u i : ℕ) (r : List ℕ) → own u ≡ some r → points (s.mem u i) ≡ true → s'.mem u i ≡ s.mem u i
    pub reads :
        (va l n u : ℕ)
        → n + l ≡ 3
        → own u ≡ some (above n va l)
        → resolve root s'.mem va l u ≡ resolve root s.mem va l u

  pub Grows-refl :
      (s : Space F) (own : Routes)
      → IsTree root s.mem own
      → IsFresh laws root own s.pages
      → Grows s own s own
  Grows-refl s own t f = record {
    tree = t;
    fresh = f;
    routes = λ u r o. o;
    entries = λ u i r o p. refl;
    reads = λ va l n u e o. refl;
  }

  pub Grows-trans :
      {s s' s'' : Space F} {own own' own'' : Routes}
      → Grows s own s' own'
      → Grows s' own' s'' own''
      → Grows s own s'' own''
  Grows-trans {s} {s'} {s''} {own} {own'} {own''} a b = record {
    tree = b.tree;
    fresh = b.fresh;
    routes = λ u r o. b.routes u r (a.routes u r o);
    entries =
        λ u i r o p. let e = a.entries u i r o p in b.entries u i r (a.routes u r o) (rw e p) ∙ e;
    reads = λ va l n u e o. b.reads va l n u e (a.routes u (above n va l) o) ∙ a.reads va l n u e o;
  }

  -- The set of spare frames only shrinks, and the frame handed out leaves it.
  fewer :
      (own : Routes) (pages pages' : PageAlloc F)
      → IsFresh laws root own pages
      → ((q : ℕ) → (spare_frame laws pages' q && not (spare_frame laws pages q)) ≡ false)
      → IsFresh laws root own pages'
  fewer own pages pages' fresh h pa = let f = fresh pa in let k = h pa in ground (arith, f, k)

  grown_fresh :
      (own : Routes) (pages pages' : PageAlloc F) (pa idx : ℕ) (route : List ℕ)
      → pa < 2 ^ 56
      → IsFresh laws root own pages'
      → spare_frame laws pages' pa ≡ false
      → IsFresh laws root
          (λ u. if u == va_from_pa root pa then some (idx ∷ route) else own u)
          pages'
  grown_fresh own pages pages' pa idx route small fresh gone q = by_frame (fresh q)
    where
      by_frame :
          (spare_frame laws pages' q ≡ false)
            ⊎ ((q % 4096 ≡ 0) × (q < 2 ^ 56) × (own (va_from_pa root q) ≡ none))
          → (spare_frame laws pages' q ≡ false)
            ⊎ ((q % 4096 ≡ 0)
                × (q < 2 ^ 56)
                × ((if va_from_pa root q == va_from_pa root pa
                      then some (idx ∷ route)
                      else own (va_from_pa root q))
                    ≡ none))
      by_frame (inl spent) = inl spent
      by_frame (inr (a, b, c)) = elim (Bool-cases (va_from_pa root q == va_from_pa root pa)) [
        | inl same ↦
            let frame : q ≡ pa =
              va_from_pa_inj root q pa b small
                ((==_iff (va_from_pa root q) (va_from_pa root pa)).0 same) in
            inl (rw frame gone)
        | inr other ↦ inr (a, b, rw other c)
      ]

  -- One round: the entry now leads to the table found.
  abbrev pub Stepped : Space F → Routes → ℕ → ℕ → List ℕ → Option ℕ × Space F → Type 0
  Stepped s own table idx route (none, s') = (own' : Routes) × Grows s own s' own'
  Stepped s own table idx route (some t, s') =
      (own' : Routes) × Grows s own s' own'
      × (own' t ≡ some (idx ∷ route))
      × (points (s'.mem table idx) ≡ true)
      × (next_va root (s'.mem table idx) ≡ t)

  module _ (s : Space F) (own : Routes) (tree : IsTree root s.mem own)
      (fresh : IsFresh laws root own s.pages) (table idx : ℕ) (route : List ℕ)
      (here : own table ≡ some route) (short : length route < 3) where
    placed_frame :
        (pa : ℕ) (pages' : PageAlloc F)
        → is_valid (s.mem table idx) ≡ false
        → Handed (spare_frame laws) s.pages (some pa, pages')
        → Stepped s own table idx route (place_table frames root table idx s.mem (some pa, pages'))
    unfolding place_table set_raw zeroed
    placed_frame pa pages' empty handed = by_frame (fresh pa)
      where
        spent : spare_frame laws s.pages pa ≡ false → ⊥
        spent e = let h = handed.0 in cc

        by_frame :
            (spare_frame laws s.pages pa ≡ false)
              ⊎ ((pa % 4096 ≡ 0) × (pa < 2 ^ 56) × (own (va_from_pa root pa) ≡ none))
            → Stepped s own table idx route
                (place_table frames root table idx s.mem (some pa, pages'))
        by_frame (inl e) = absurd (spent e)
        by_frame (inr (aligned, small, free)) =
            let v : Vacant root s.mem own table idx pa route =
              (here, short, empty, aligned, small, free) in
            let at = grown-at root s.mem own table idx pa route v in
            (
              grown_routes root s.mem own table idx pa route,
              record {
                tree = grown-IsTree root s.mem own table idx pa route v tree;
                fresh =
                    grown_fresh own s.pages pages' pa idx route small
                      (fewer own s.pages pages' fresh handed.2) handed.1;
                routes = routes-kept root s.mem own table idx pa route v;
                entries = λ u i r o p.
                    grown-else root s.mem own table idx pa route v u i r o
                      (other_entry s.mem table idx u i empty p);
                reads = grown-resolve root s.mem own table idx pa route v tree;
              },
              rw (==_refl (va_from_pa root pa)) refl,
              rw at (pack_table-points root pa aligned small),
              rw at (next_va-pack_table root pa aligned small),
            )

    pub next_table-Stepped : Stepped s own table idx route (next_table frames root table idx s)
    unfolding next_table place_table
    next_table-Stepped = elim (Bool-cases (is_leaf (s.mem table idx))) [
      | inl leaf ↦ rw leaf (own, Grows-refl s own tree fresh)
      | inr open_entry ↦
          rw open_entry (by_valid open_entry (Bool-cases (is_valid (s.mem table idx))))
    ]
      where
        by_valid :
            is_leaf (s.mem table idx) ≡ false
            → (is_valid (s.mem table idx) ≡ true) ⊎ (is_valid (s.mem table idx) ≡ false)
            → Stepped s own table idx route (
                if is_valid (s.mem table idx)
                then (some (next_va root (s.mem table idx)), s)
                else place_table frames root table idx s.mem (allocate_page_table frames s.pages))
        by_valid leaf (inl valid) =
            let p : points (s.mem table idx) ≡ true = rw (leaf, valid) refl in
            rw valid (
              own,
              Grows-refl s own tree fresh,
              (followed root s.mem own tree table idx route here short p).1,
              p,
              refl,
            )
        by_valid leaf (inr empty) = rw empty (
            by_alloc (allocate_page_table frames s.pages) (allocate_page_table-Handed laws s.pages)
              empty)
          where
            by_alloc :
                (r : Option ℕ × PageAlloc F)
                → Handed (spare_frame laws) s.pages r
                → is_valid (s.mem table idx) ≡ false
                → Stepped s own table idx route (place_table frames root table idx s.mem r)
            by_alloc (none, pages') handed e = (
              own,
              record {
                tree = tree;
                fresh = fewer own s.pages pages' fresh handed;
                routes = λ u r o. o;
                entries = λ u i r o p. refl;
                reads = λ va l n u e o. refl;
              },
            )
            by_alloc (some pa, pages') handed e = placed_frame pa pages' e handed
