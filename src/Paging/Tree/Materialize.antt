-- ===== src/Paging/Tree/Materialize.antt =====
-- The whole of `walk_to_table_materialize` of mmu/src/mmap.rs.
use orbit.Base.{
  ℕ, zero, suc, ◌+◌, ◌≤◌, ◌≡◌, refl, inl, inr, true, false, Option, none, some, arith, leb,
  Bool-cases,
}
use orbit.Paging.Entry.{vpn_n, is_valid, is_leaf}
use orbit.Paging.Pages.{Frames, FramesLaws}
use orbit.Paging.Walk.{RootTable, Space, walk_down, next_table, materialize_down}
use orbit.Paging.Tree.{above, length-above, Routes, IsTree, IsFresh}
use orbit.Paging.Tree.Growth.{Grows, Grows-refl, Grows-trans, Stepped, next_table-Stepped}

module _ {F : Type 0} {frames : Frames F} (laws : FramesLaws frames) (root : RootTable) where
  -- The table found has the route of the address, and `walk_to_table` finds it too.
  abbrev pub Reached : Space F → Routes → ℕ → ℕ → ℕ → ℕ → ℕ → Option ℕ × Space F → Type 0
  Reached s own vaddr target m l table (none, s') = (own' : Routes) × Grows laws root s own s' own'
  Reached s own vaddr target m l table (some t, s') =
      (own' : Routes) × Grows laws root s own s' own'
      × (own' t ≡ some (above m vaddr target))
      × (walk_down root s'.mem vaddr target l table ≡ some t)

  module _ (vaddr target m : ℕ) (depth : m + target ≡ 3) where
    pub materialize-Reached :
        (l n table : ℕ) (s : Space F) (own : Routes)
        → IsTree root s.mem own
        → IsFresh laws root own s.pages
        → n + l ≡ 3
        → target ≤ l
        → own table ≡ some (above n vaddr l)
        → Reached s own vaddr target m l table (materialize_down frames root vaddr target l table s)
    unfolding materialize_down walk_down above
    materialize-Reached zero n table s own tree fresh e le o =
        let bottom : target ≡ 0 = omega arith in
        let same : m ≡ n = omega arith in
        (own, Grows-refl laws root s own tree fresh, rw (bottom, same) o, refl)
    materialize-Reached (suc l) n table s own tree fresh e le o =
        elim (Bool-cases (leb (suc l) target)) [
          | inl stop ↦
              let here : target ≡ suc l = ground (arith, stop) in
              let same : m ≡ n = omega arith in
              rw stop (own, Grows-refl laws root s own tree fresh, rw (here, same) o, rw stop refl)
          | inr go ↦ rw go (
              by_round (next_table frames root table (vpn_n vaddr (suc l)) s)
                (next_table-Stepped laws root s own tree fresh table (vpn_n vaddr (suc l))
                  (above n vaddr (suc l)) o (omega (arith, length-above n vaddr (suc l))))
                go
                (λ t1 s1 own1 tree1 fresh1 o1.
                  materialize-Reached l (suc n) t1 s1 own1 tree1 fresh1 (omega arith)
                    (ground (arith, go)) o1))
        ]
      where
        by_round :
            (r : Option ℕ × Space F)
            → Stepped laws root s own table (vpn_n vaddr (suc l)) (above n vaddr (suc l)) r
            → leb (suc l) target ≡ false
            → ((t1 : ℕ) (s1 : Space F) (own1 : Routes)
                → IsTree root s1.mem own1
                → IsFresh laws root own1 s1.pages
                → own1 t1 ≡ some (above (suc n) vaddr l)
                → Reached s1 own1 vaddr target m l t1
                    (materialize_down frames root vaddr target l t1 s1))
            → Reached s own vaddr target m (suc l) table (elim r.0 [
              | none ↦ (none, r.1)
              | some t1 ↦ materialize_down frames root vaddr target l t1 r.1
            ])
        by_round (none, s1) h go ih = h
        by_round (some t1, s1) (own1, g1, o1, p1, n1) go ih =
            by_rest (materialize_down frames root vaddr target l t1 s1)
              (ih t1 s1 own1 g1.tree g1.fresh o1)
          where
            walked :
                (s2 : Space F) (own2 : Routes) (t : ℕ)
                → Grows laws root s1 own1 s2 own2
                → walk_down root s2.mem vaddr target l t1 ≡ some t
                → walk_down root s2.mem vaddr target (suc l) table ≡ some t
            walked s2 own2 t g2 w2 =
                let kept : s2.mem table (vpn_n vaddr (suc l)) ≡ s1.mem table (vpn_n vaddr (suc l)) =
                  g2.entries table (vpn_n vaddr (suc l)) (above n vaddr (suc l))
                    (g1.routes table (above n vaddr (suc l)) o) p1 in
                let valid : is_valid (s1.mem table (vpn_n vaddr (suc l))) ≡ true =
                  ground (arith, p1) in
                let inner : is_leaf (s1.mem table (vpn_n vaddr (suc l))) ≡ false =
                  ground (arith, p1) in
                rw (go, kept, valid, inner, n1) w2

            by_rest :
                (r2 : Option ℕ × Space F)
                → Reached s1 own1 vaddr target m l t1 r2
                → Reached s own vaddr target m (suc l) table r2
            by_rest (none, s2) (own2, g2) = (own2, Grows-trans laws root g1 g2)
            by_rest (some t, s2) (own2, g2, o2, w2) =
                (own2, Grows-trans laws root g1 g2, o2, walked s2 own2 t g2 w2)
