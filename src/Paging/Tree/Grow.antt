-- ===== src/Paging/Tree/Grow.antt =====
-- A new table under an empty entry: what `walk_to_table_materialize` of mmu/src/mmap.rs does to the
-- tree in one round.
use orbit.Base.{
  ℕ, ◌/◌, ◌%◌, ◌^◌, ◌<◌, ◌≡◌, refl, sym, ap, ◌∙◌, ◌⊎◌, inl, inr, false, ◌&&◌, Option, none, some,
  List, [], ◌∷◌, length, arith, if◌then◌else◌, ◌==◌, Bool-cases, ==_iff, ==_refl,
}
use orbit.Paging.Entry.{pack_table, is_valid}
use orbit.Paging.Entry.Laws.{is_valid-mod}
use orbit.Paging.Walk.{Memory, RootTable, next_va, va_from_pa, set_raw, zeroed}
use orbit.Paging.Resolve.{points, pack_table-lt, next_va-pack_table}
use orbit.Paging.Tree.{Routes, IsTree, Linked, table_entries}

-- Two frames have two addresses.
pub va_from_pa_inj :
    (root : RootTable) (p q : ℕ)
    → p < 2 ^ 56
    → q < 2 ^ 56
    → va_from_pa root p ≡ va_from_pa root q
    → p ≡ q
unfolding va_from_pa
va_from_pa_inj root p q hp hq e = omega arith

abbrev pub with_route : Routes → ℕ → List ℕ → Routes
with_route own table route u = if u == table then some route else own u

module _ (root : RootTable) (mem : Memory) (own : Routes) (table idx pa : ℕ) (route : List ℕ) where
  abbrev pub grown : Memory
  unfolding set_raw zeroed
  grown = set_raw (zeroed mem (va_from_pa root pa)) table idx (pack_table (pa / 4096))

  abbrev pub grown_routes : Routes
  grown_routes = with_route own (va_from_pa root pa) (idx ∷ route)

  abbrev pub Vacant : Type 0
  Vacant =
      (own table ≡ some route)
      × (length route < 3)
      × (is_valid (mem table idx) ≡ false)
      × (pa % 4096 ≡ 0)
      × (pa < 2 ^ 56)
      × (own (va_from_pa root pa) ≡ none)

  -- The entries after the change.
  pub grown-at : Vacant → grown table idx ≡ pack_table (pa / 4096)
  unfolding set_raw zeroed
  grown-at h = ground arith

  pub grown-new : Vacant → (i : ℕ) → grown (va_from_pa root pa) i ≡ 0
  unfolding set_raw zeroed
  grown-new h i = elim (Bool-cases (va_from_pa root pa == table)) [
    | inl e ↦ absurd (clash ((==_iff (va_from_pa root pa) table).0 e))
    | inr e ↦ ground arith
  ]
    where
      clash : va_from_pa root pa ≡ table → ⊥
      clash e = cc

  pub grown-else :
      Vacant
      → (u i : ℕ) (r : List ℕ) → own u ≡ some r
      → ((u == table) && (i == idx)) ≡ false
      → grown u i ≡ mem u i
  unfolding set_raw zeroed
  grown-else h u i r o e = elim (Bool-cases (u == va_from_pa root pa)) [
    | inl same ↦ absurd (clash ((==_iff u (va_from_pa root pa)).0 same))
    | inr other ↦ ground arith
  ]
    where
      clash : u ≡ va_from_pa root pa → ⊥
      clash same = cc

  pub routes-kept : Vacant → (u : ℕ) (r : List ℕ) → own u ≡ some r → grown_routes u ≡ some r
  routes-kept h u r o = elim (Bool-cases (u == va_from_pa root pa)) [
    | inl same ↦ absurd (clash ((==_iff u (va_from_pa root pa)).0 same))
    | inr other ↦ rw other o
  ]
    where
      clash : u ≡ va_from_pa root pa → ⊥
      clash same = cc

  -- The larger tree, by cases on the table and the entry.
  new-Linked : Vacant → Linked root grown grown_routes (va_from_pa root pa) (some (idx ∷ route))
  new-Linked h i = inl (ground (arith, grown-new h i, is_valid-mod 0))

  old-Linked :
      Vacant
      → IsTree root mem own
      → (u : ℕ) (r : List ℕ) → own u ≡ some r
      → Linked root grown grown_routes u (some r)
  old-Linked h tree u r o i = elim (Bool-cases ((u == table) && (i == idx))) [
    | inl here ↦
        let at : u ≡ table = ground (arith, here) in
        let entry : i ≡ idx = ground (arith, here) in
        let leads : next_va root (pack_table (pa / 4096)) ≡ va_from_pa root pa =
          next_va-pack_table root pa h.3 h.4 in
        let same : route ≡ r = some_inj (sym h.0 ∙ ap own (sym at) ∙ o) in
        rw (at, entry, grown-at h)
          (inr (
            inr
              (pack_table-lt root pa h.3 h.4, rw (leads, ==_refl (va_from_pa root pa), same) refl)))
    | inr other ↦ rw (grown-else h u i r o other) (kept (points_cases u i r o))
  ]
    where
      some_inj : {a b : List ℕ} → some a ≡ some b → a ≡ b
      some_inj e = cc

      points_cases :
          (u i : ℕ) (r : List ℕ)
          → own u ≡ some r
          → (points (mem u i) ≡ false)
            ⊎ (length r ≡ 3)
            ⊎ ((mem u i < 2 ^ 54) × (own (next_va root (mem u i)) ≡ some (i ∷ r)))
      points_cases u i r o = table_entries root mem own tree u r o i

      kept :
          (points (mem u i) ≡ false)
            ⊎ (length r ≡ 3)
            ⊎ ((mem u i < 2 ^ 54) × (own (next_va root (mem u i)) ≡ some (i ∷ r)))
          → (points (mem u i) ≡ false)
            ⊎ (length r ≡ 3)
            ⊎ ((mem u i < 2 ^ 54) × (grown_routes (next_va root (mem u i)) ≡ some (i ∷ r)))
      kept (inl a) = inl a
      kept (inr (inl a)) = inr (inl a)
      kept (inr (inr (a, b))) = inr (inr (a, routes-kept h (next_va root (mem u i)) (i ∷ r) b))

  pub grown-Linked :
      Vacant → IsTree root mem own → (u : ℕ) → Linked root grown grown_routes u (grown_routes u)
  grown-Linked h tree u = elim (Bool-cases (u == va_from_pa root pa)) [
    | inl new ↦ rw (new, (==_iff u (va_from_pa root pa)).0 new) (new-Linked h)
    | inr old ↦ rw old (by_route (own u) refl)
  ]
    where
      by_route : (o : Option (List ℕ)) → own u ≡ o → Linked root grown grown_routes u o
      by_route none e = tt
      by_route (some r) e = old-Linked h tree u r e

  pub grown-IsTree : Vacant → IsTree root mem own → IsTree root grown grown_routes
  grown-IsTree h tree = record {
    at_root = routes-kept h root.table [] tree.at_root;
    linked = grown-Linked h tree;
  }
