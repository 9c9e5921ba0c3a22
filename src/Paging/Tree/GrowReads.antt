-- ===== src/Paging/Tree/GrowReads.antt =====
-- The translations after `walk_to_table_materialize` of mmu/src/mmap.rs has placed a new table.
use orbit.Base.{
  ℕ, zero, suc, ◌+◌, ◌/◌, ◌<◌, ◌≡◌, refl, sym, ap, ◌∙◌, ◌⊎◌, inl, inr, true, false, ◌&&◌, none,
  some, List, length, arith, if◌then◌else◌, ◌==◌, Bool-cases, ==_iff,
}
use orbit.Paging.Entry.{vpn_n, pack_table}
use orbit.Paging.Entry.Laws.{is_valid-mod}
use orbit.Paging.Walk.{Memory, RootTable, chained_va, va_from_pa}
use orbit.Paging.Resolve.{
  points, resolve, stop_phys, stop_phys-none, chained_va-eq-next_va, pack_table-lt,
  pack_table-points, next_va-pack_table,
}
use orbit.Paging.Tree.{above, length-above, Routes, IsTree, chained}
use orbit.Paging.Tree.Grow.{grown, Vacant, grown-at, grown-new, grown-else}

module _ (root : RootTable) (mem : Memory) (own : Routes) (table idx pa : ℕ) (route : List ℕ) where
  abbrev made : Memory
  made = grown root mem own table idx pa route

  abbrev Fits : Type 0
  Fits = Vacant root mem own table idx pa route

  -- No address is translated otherwise: the old entry stopped every walk, and so does the new table.
  at_new : Fits → (va l : ℕ) → resolve root made va l (va_from_pa root pa) ≡ none
  unfolding resolve
  at_new h va zero =
      rw (grown-new root mem own table idx pa route h (vpn_n va 0))
        (stop_phys-none va 0 0 (ground (arith, is_valid-mod 0)))
  at_new h va (suc l) =
      let still : points 0 ≡ false = ground (arith, is_valid-mod 0) in
      rw (grown-new root mem own table idx pa route h (vpn_n va (suc l)), still)
        (stop_phys-none va (suc l) 0 (ground (arith, is_valid-mod 0)))

  pub grown-resolve :
      Fits
      → IsTree root mem own
      → (va l n u : ℕ) → n + l ≡ 3
      → own u ≡ some (above n va l)
      → resolve root made va l u ≡ resolve root mem va l u
  unfolding resolve above
  grown-resolve h tree va zero n u e o =
      rw (grown-else root mem own table idx pa route h u (vpn_n va 0) (above n va 0) o apart) refl
    where
      apart : ((u == table) && (vpn_n va 0 == idx)) ≡ false
      apart = elim (Bool-cases (u == table)) [
        | inl at ↦ absurd (clash ((==_iff u table).0 at))
        | inr off ↦ rw off refl
      ]
        where
          some_inj : {a b : List ℕ} → some a ≡ some b → a ≡ b
          some_inj q = cc

          clash : u ≡ table → ⊥
          clash at =
              let same : above n va 0 ≡ route = some_inj (sym o ∙ ap own at ∙ h.0) in
              let len : length route ≡ n = ap length (sym same) ∙ length-above n va 0 in
              let short = h.1 in omega arith
  grown-resolve h tree va (suc l) n u e o =
      elim (Bool-cases ((u == table) && (vpn_n va (suc l) == idx))) [
        | inl here ↦ rw (vacant here) (new_reads ∙ sym (old_reads here))
        | inr other ↦
            rw
              (grown-else root mem own table idx pa route h u (vpn_n va (suc l))
                (above n va (suc l)) o other)
              (later (Bool-cases (points (mem u (vpn_n va (suc l)))))
                (λ next p. grown-resolve h tree va l (suc n) next (omega arith) p))
      ]
    where
      vacant :
          ((u == table) && (vpn_n va (suc l) == idx)) ≡ true
          → made u (vpn_n va (suc l)) ≡ pack_table (pa / 4096)
      vacant here =
          let at : u ≡ table = ground (arith, here) in
          let same : vpn_n va (suc l) ≡ idx = ground (arith, here) in
          rw (at, same) (grown-at root mem own table idx pa route h)

      new_reads :
          (if points (pack_table (pa / 4096))
            then resolve root made va l (chained_va root (pack_table (pa / 4096)))
            else stop_phys va (suc l) (pack_table (pa / 4096)))
          ≡ none
      new_reads =
          rw
            (
              pack_table-points root pa h.3 h.4,
              chained_va-eq-next_va root (pack_table (pa / 4096)) (pack_table-lt root pa h.3 h.4),
              next_va-pack_table root pa h.3 h.4,
            )
            (at_new h va l)

      old_reads :
          ((u == table) && (vpn_n va (suc l) == idx)) ≡ true
          → (if points (mem u (vpn_n va (suc l)))
              then resolve root mem va l (chained_va root (mem u (vpn_n va (suc l))))
              else stop_phys va (suc l) (mem u (vpn_n va (suc l))))
            ≡ none
      old_reads here =
          let at : u ≡ table = ground (arith, here) in
          let same : vpn_n va (suc l) ≡ idx = ground (arith, here) in
          let off = h.2 in
          rw (at, same, off) (stop_phys-none va (suc l) (mem table idx) (rw off refl))

      later :
          (points (mem u (vpn_n va (suc l))) ≡ true) ⊎ (points (mem u (vpn_n va (suc l))) ≡ false)
          → ((next : ℕ)
              → own next ≡ some (above (suc n) va l)
              → resolve root made va l next ≡ resolve root mem va l next)
          → (if points (mem u (vpn_n va (suc l)))
              then resolve root made va l (chained_va root (mem u (vpn_n va (suc l))))
              else stop_phys va (suc l) (mem u (vpn_n va (suc l))))
            ≡ (if points (mem u (vpn_n va (suc l)))
                then resolve root mem va l (chained_va root (mem u (vpn_n va (suc l))))
                else stop_phys va (suc l) (mem u (vpn_n va (suc l))))
      later (inr stops) ih = rw stops refl
      later (inl goes) ih =
          let n3 : length (above n va (suc l)) < 3 = omega (arith, length-above n va (suc l)) in
          rw goes (
            ih (chained_va root (mem u (vpn_n va (suc l))))
              (chained root mem own tree u (vpn_n va (suc l)) (above n va (suc l)) o n3 goes))
