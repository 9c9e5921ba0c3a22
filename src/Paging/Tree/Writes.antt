-- ===== src/Paging/Tree/Writes.antt =====
-- One entry written at the end of a walk of mmu/src/mmap.rs, where it is no pointer to a table: the
-- addresses that lead to the entry are translated by it, and all others as before.
use orbit.Base.{
  ℕ, zero, suc, ◌+◌, ◌≤◌, ◌<◌, ◌≡◌, ◌≢◌, refl, sym, ap, ap₂, ◌∙◌, inl, inr, true, false, not, ◌&&◌,
  ◌||◌, Option, none, some, List, ◌∷◌, length, arith, if◌then◌else◌, leb, ◌==◌, Bool-cases, ==_iff,
  ==_refl,
}
use orbit.Paging.Entry.{vpn_n, is_valid, is_leaf}
use orbit.Paging.Walk.{Memory, RootTable, next_va, chained_va, set_raw, walk_down}
use orbit.Paging.Resolve.{points, resolve, stop_phys, chained_va-eq-next_va}
use orbit.Paging.Tree.{
  above, length-above, Routes, IsTree, Linked, table_entries, chained, followed,
}

pub some_inj {ℓ} : {A : Type ℓ} {a b : A} → some a ≡ some b → a ≡ b
some_inj e = cc

module _ (root : RootTable) (mem : Memory) (own : Routes) (tree : IsTree root mem own)
    (table idx raw : ℕ) (ends : points raw ≡ false) where
  written-else :
      (u i : ℕ) → ((u == table) && (i == idx)) ≡ false → set_raw mem table idx raw u i ≡ mem u i
  unfolding set_raw
  written-else u i e = rw e refl

  pub set_raw-IsTree : IsTree root (set_raw mem table idx raw) own
  unfolding set_raw
  set_raw-IsTree = record { at_root = tree.at_root; linked = λ u. by_route u (own u) refl }
    where
      by_route :
          (u : ℕ) (o : Option (List ℕ))
          → own u ≡ o
          → Linked root (set_raw mem table idx raw) own u o
      by_route u none e = tt
      by_route u (some r) e = λ i. elim (Bool-cases ((u == table) && (i == idx))) [
        | inl here ↦ rw here (inl ends)
        | inr other ↦ rw other (table_entries root mem own tree u r e i)
      ]

  module _ (w target m : ℕ) (depth : m + target ≡ 3) (entry : idx ≡ vpn_n w target)
      (here : own table ≡ some (above m w target)) where
    module _ (va : ℕ)
        (apart : (vpn_n va target ∷ above m va target) ≢ (vpn_n w target ∷ above m w target)) where
      elsewhere :
          (l n u : ℕ)
          → n + l ≡ 3
          → own u ≡ some (above n va l)
          → ((u == table) && (vpn_n va l == idx)) ≡ false
      elsewhere l n u e o = elim (Bool-cases ((u == table) && (vpn_n va l == idx))) [
        | inr other ↦ other
        | inl same ↦
            let at : u ≡ table = ground (arith, same) in
            let index : vpn_n va l ≡ idx = ground (arith, same) in
            let route : above n va l ≡ above m w target = some_inj (sym o ∙ ap own at ∙ here) in
            let lengths : n ≡ m =
              omega (arith, ap length route, length-above n va l, length-above m w target) in
            let levels : l ≡ target = omega arith in
            absurd (
              apart (
                ap₂ (λ (x : ℕ) (xs : List ℕ). x ∷ xs) (rw levels at index ∙ entry)
                  (rw levels at (rw lengths at route))))
      ]

      pub resolve-miss :
          (l n u : ℕ)
          → n + l ≡ 3
          → own u ≡ some (above n va l)
          → resolve root (set_raw mem table idx raw) va l u ≡ resolve root mem va l u
      unfolding resolve above
      resolve-miss zero n u e o = rw (written-else u (vpn_n va 0) (elsewhere 0 n u e o)) refl
      resolve-miss (suc l) n u e o =
          rw (written-else u (vpn_n va (suc l)) (elsewhere (suc l) n u e o))
            (elim (Bool-cases (points (mem u (vpn_n va (suc l))))) [
              | inr stops ↦ rw stops refl
              | inl goes ↦ rw goes (
                  resolve-miss l (suc n) (chained_va root (mem u (vpn_n va (suc l)))) (omega arith)
                    (chained root mem own tree u (vpn_n va (suc l)) (above n va (suc l)) o
                      (omega (arith, length-above n va (suc l))) goes))
            ])

    module _ (va : ℕ) (same : (k : ℕ) → target ≤ k → k ≤ 3 → vpn_n va k ≡ vpn_n w k) where
      pub resolve-hit :
          (l n u : ℕ)
          → n + l ≡ 3
          → target ≤ l
          → own u ≡ some (above n w l)
          → walk_down root mem w target l u ≡ some table
          → resolve root (set_raw mem table idx raw) va l u ≡ stop_phys va target raw
      unfolding resolve above walk_down set_raw
      resolve-hit zero n u e le o walk =
          let at : u ≡ table = some_inj walk in
          let bottom : target ≡ 0 = omega arith in
          let index : vpn_n va 0 ≡ idx =
            same 0 (omega arith) (omega arith) ∙ rw bottom at (sym entry) in
          rw (at, index, ==_refl table, ==_refl idx, bottom) refl
      resolve-hit (suc l) n u e le o walk = elim (Bool-cases (leb (suc l) target)) [
        | inl stop ↦
            let at : u ≡ table = some_inj (rw stop at walk) in
            let top : target ≡ suc l = ground (arith, stop) in
            let index : vpn_n va (suc l) ≡ idx =
              same (suc l) (omega arith) (omega arith) ∙ rw top at (sym entry) in
            rw (at, index, ==_refl table, ==_refl idx, ends, top) refl
        | inr go ↦
            let deeper : target ≤ l = ground (arith, go) in
            let index : vpn_n va (suc l) ≡ vpn_n w (suc l) =
              same (suc l) (omega arith) (omega arith) in
            rw (index, upper u o (ground (arith, go)))
              (by_entry u o deeper (rw go at walk)
                (λ next p step. resolve-hit l (suc n) next (omega arith) deeper p step))
      ]
        where
          upper : (u : ℕ) → own u ≡ some (above n w (suc l)) → target < suc l → (u == table) ≡ false
          upper u o lt = elim (Bool-cases (u == table)) [
            | inr other ↦ other
            | inl at ↦
                let same_table : u ≡ table = (==_iff u table).0 at in
                let route : above n w (suc l) ≡ above m w target =
                  some_inj (sym o ∙ ap own same_table ∙ here) in
                absurd (
                  omega (arith, ap length route, length-above n w (suc l), length-above m w target))
          ]

          by_entry :
              (u : ℕ)
              → own u ≡ some (above n w (suc l))
              → target ≤ l
              → (if not (is_valid (mem u (vpn_n w (suc l)))) || is_leaf (mem u (vpn_n w (suc l)))
                  then none
                  else walk_down root mem w target l (next_va root (mem u (vpn_n w (suc l)))))
                ≡ some table
              → ((next : ℕ)
                  → own next ≡ some (above (suc n) w l)
                  → walk_down root mem w target l next ≡ some table
                  → resolve root (set_raw mem table idx raw) va l next ≡ stop_phys va target raw)
              → (if points (mem u (vpn_n w (suc l)))
                  then resolve root
                      (set_raw mem table idx raw)
                      va
                      l
                      (chained_va root (mem u (vpn_n w (suc l))))
                  else stop_phys va (suc l) (mem u (vpn_n w (suc l))))
                ≡ stop_phys va target raw
          by_entry u o deeper walk ih = elim (Bool-cases (points (mem u (vpn_n w (suc l))))) [
            | inr stops ↦ absurd (stuck (ground (arith, stops)) walk)
            | inl goes ↦
                let f =
                  followed root mem own tree u (vpn_n w (suc l)) (above n w (suc l)) o
                    (omega (arith, length-above n w (suc l))) goes in
                let on : (not (is_valid (mem u (vpn_n w (suc l))))
                      || is_leaf (mem u (vpn_n w (suc l))))
                    ≡ false =
                  ground (arith, goes) in
                rw (goes, chained_va-eq-next_va root (mem u (vpn_n w (suc l))) f.0)
                  (ih (next_va root (mem u (vpn_n w (suc l)))) f.1 (rw on at walk))
          ]
            where
              stuck :
                  (not (is_valid (mem u (vpn_n w (suc l)))) || is_leaf (mem u (vpn_n w (suc l))))
                    ≡ true
                  → (if not (is_valid (mem u (vpn_n w (suc l))))
                        || is_leaf (mem u (vpn_n w (suc l)))
                      then none
                      else walk_down root mem w target l (next_va root (mem u (vpn_n w (suc l)))))
                    ≡ some table
                  → ⊥
              stuck off h = ground (arith, off, h)
