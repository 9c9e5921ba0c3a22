-- ===== src/Paging/Tree.antt =====
-- The page tables of mmu/src/mmap.rs as a tree: each table has one route, the indices that lead to
-- it from the root, the last first.
pub mod Grow
pub mod GrowReads
pub mod Growth
pub mod Materialize
pub mod Writes
use orbit.Base.{
  ℕ, zero, suc, ◌+◌, ◌%◌, ◌^◌, ◌<◌, ◌≤◌, ◌≡◌, refl, ◌⊎◌, inl, inr, Bool, true, false, Option, none,
  some, List, [], ◌∷◌, length, arith, subst,
}
use orbit.Paging.Entry.{vpn_n}
use orbit.Paging.Pages.{Frames, FramesLaws, PageAlloc, spare_frame}
use orbit.Paging.Walk.{Memory, RootTable, next_va, chained_va, va_from_pa}
use orbit.Paging.Resolve.{points, chained_va-eq-next_va}

-- The `n` indices of an address above level `l`.
unfoldable pub above : ℕ → ℕ → ℕ → List ℕ
above zero va l = []
above (suc n) va l = vpn_n va (suc l) ∷ above n va (suc l)

pub length-above : (n va l : ℕ) → length (above n va l) ≡ n
unfolding above
length-above zero va l = refl
length-above (suc n) va l = omega (arith, length-above n va (suc l))

abbrev pub Routes : Type 0
Routes = ℕ → Option (List ℕ)

module _ (root : RootTable) (mem : Memory) (own : Routes) where
  -- Each entry of a table that a walk follows, above the last level, leads to the table whose
  -- route is one index longer.
  abbrev pub Linked : ℕ → Option (List ℕ) → Type 0
  Linked table none = Unit {0}
  Linked table (some route) =
      (i : ℕ)
      → (points (mem table i) ≡ false)
        ⊎ (length route ≡ 3)
        ⊎ ((mem table i < 2 ^ 54) × (own (next_va root (mem table i)) ≡ some (i ∷ route)))

  pub record IsTree : Type 0 where
    pub at_root : own root.table ≡ some []
    pub linked : (table : ℕ) → Linked table (own table)

  pub table_entries :
      IsTree → (table : ℕ) (route : List ℕ) → own table ≡ some route → Linked table (some route)
  table_entries tree table route o = subst (λ r. Linked table r) o (tree.linked table)

  pub followed :
      IsTree
      → (table i : ℕ) (route : List ℕ) → own table ≡ some route
      → length route < 3
      → points (mem table i) ≡ true
      → (mem table i < 2 ^ 54) × (own (next_va root (mem table i)) ≡ some (i ∷ route))
  followed tree table i route o short p =
      let this = table_entries tree table route o i in ground (arith, this)

  pub chained :
      IsTree
      → (table i : ℕ) (route : List ℕ) → own table ≡ some route
      → length route < 3
      → points (mem table i) ≡ true
      → own (chained_va root (mem table i)) ≡ some (i ∷ route)
  chained tree table i route o short p =
      let f = followed tree table i route o short p in
      rw (chained_va-eq-next_va root (mem table i) f.0) f.1

-- A frame that may be handed out is aligned, lies in the physical address space, and holds no table.
abbrev pub IsFresh :
    {F : Type 0} {frames : Frames F} → FramesLaws frames → RootTable → Routes → PageAlloc F → Type 0
IsFresh laws root own pages =
    (pa : ℕ)
    → (spare_frame laws pages pa ≡ false)
      ⊎ ((pa % 4096 ≡ 0) × (pa < 2 ^ 56) × (own (va_from_pa root pa) ≡ none))
