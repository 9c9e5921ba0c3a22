-- ===== src/Paging/Walk.antt =====
-- The walks of mmu/src/mmap.rs. A table is named by its virtual address, and memory gives the raw
-- word of each entry of each table: 512 entries, at the indices that `vpn_n` computes.
use orbit.Base.{
  ℕ, zero, suc, ◌+◌, ◌-◌, ◌*◌, ◌/◌, ◌%◌, ◌^◌, not, ◌&&◌, ◌||◌, Option, none, some, List, [], ◌∷◌,
  leb, ◌==◌, if◌then◌else◌, bit_and,
}
use orbit.Paging.Entry.{page_size, vpn_n, is_valid, is_leaf, ppn, get_ppn, pack_table}
use orbit.Paging.Pages.{Frames, PageAlloc, allocate_page_table}

abbrev pub Memory : Type 0
Memory = ℕ → ℕ → ℕ

-- `set_raw` on one entry, and on each entry of a table.
unfoldable pub set_raw : Memory → ℕ → ℕ → ℕ → Memory
set_raw mem table idx raw t i = if t == table && i == idx then raw else mem t i

unfoldable pub zeroed : Memory → ℕ → Memory
zeroed mem table t i = if t == table then 0 else mem t i

pub record RootTable : Type 0 where
  pub table : ℕ
  pub pa_to_va_bias : ℕ

-- `pa.wrapping_add(bias)`.
unfoldable pub va_from_pa : RootTable → ℕ → ℕ
va_from_pa root pa = (pa + root.pa_to_va_bias) % 2 ^ 64

-- The table that an entry points at, as `walk_to_table` and as `walk_pte_chain` compute it.
unfoldable pub next_va : RootTable → ℕ → ℕ
unfolding va_from_pa
next_va root raw = va_from_pa root (ppn raw * page_size % 2 ^ 64)

unfoldable pub chained_va : RootTable → ℕ → ℕ
unfolding va_from_pa
chained_va root raw = va_from_pa root (get_ppn raw * 2 ^ 2 % 2 ^ 64)

-- The loop over the levels from `lvl` down to `target + 1`.
unfoldable pub walk_down : RootTable → Memory → ℕ → ℕ → ℕ → ℕ → Option ℕ
walk_down root mem vaddr target zero table = some table
walk_down root mem vaddr target (suc l) table =
    let raw = mem table (vpn_n vaddr (suc l)) in
    let rest = walk_down root mem vaddr target l (next_va root raw) in
    if leb (suc l) target
    then some table
    else if not (is_valid raw) || is_leaf raw
    then none
    else rest

unfoldable pub walk_to_table : RootTable → Memory → ℕ → ℕ → Option ℕ
unfolding walk_down
walk_to_table root mem vaddr target = walk_down root mem vaddr target 3 root.table

-- What the operations that build tables change.
pub record Space (F : Type 0) : Type 0 where
  pub mem : Memory
  pub pages : PageAlloc F

module _ {F : Type 0} (frames : Frames F) (root : RootTable) where
  -- A missing table: the new frame is zeroed before the entry points at it.
  unfoldable pub place_table : ℕ → ℕ → Memory → Option ℕ × PageAlloc F → Option ℕ × Space F
  place_table table idx mem (none, pages) = (none, record { mem = mem; pages = pages })
  place_table table idx mem (some pa, pages) =
      let new_table = va_from_pa root pa in
      (
        some new_table,
        record {
          mem = set_raw (zeroed mem new_table) table idx (pack_table (pa / page_size));
          pages = pages;
        },
      )

  -- One round of `walk_to_table_materialize`.
  unfoldable pub next_table : ℕ → ℕ → Space F → Option ℕ × Space F
  unfolding place_table
  next_table table idx s =
      let raw = s.mem table idx in
      if is_leaf raw
      then (none, s)
      else if is_valid raw
      then (some (next_va root raw), s)
      else place_table table idx s.mem (allocate_page_table frames s.pages)

  unfoldable pub materialize_down : ℕ → ℕ → ℕ → ℕ → Space F → Option ℕ × Space F
  unfolding next_table
  materialize_down vaddr target zero table s = (some table, s)
  materialize_down vaddr target (suc l) table s =
      let (found, s') = next_table table (vpn_n vaddr (suc l)) s in
      let rest : Option ℕ × Space F = elim found [
        | none ↦ (none, s')
        | some t ↦ materialize_down vaddr target l t s'
      ] in
      if leb (suc l) target then (some table, s) else rest

  unfoldable pub walk_to_table_materialize : ℕ → ℕ → Space F → Option ℕ × Space F
  unfolding materialize_down
  walk_to_table_materialize vaddr target s = materialize_down vaddr target 3 root.table s

pub record WalkStep : Type 0 where
  pub level : ℕ
  pub pte_idx : ℕ
  pub pte_raw : ℕ

-- The steps written to `out`; their number is the result. The tests `raw & 1 != 0` and
-- `raw & 0xE != 0` are those of `is_valid` and `is_leaf`.
unfoldable pub chain_down : RootTable → Memory → ℕ → ℕ → ℕ → List WalkStep
chain_down root mem vaddr zero table =
    record { level = 0; pte_idx = vpn_n vaddr 0; pte_raw = mem table (vpn_n vaddr 0) } ∷ []
chain_down root mem vaddr (suc l) table =
    let idx = vpn_n vaddr (suc l) in
    let raw = mem table idx in
    let rest = chain_down root mem vaddr l (chained_va root raw) in
    record { level = suc l; pte_idx = idx; pte_raw = raw }
    ∷ (if not (is_valid raw) || is_leaf raw then [] else rest)

unfoldable pub walk_pte_chain : RootTable → Memory → ℕ → List WalkStep
unfolding chain_down
walk_pte_chain root mem vaddr = chain_down root mem vaddr 3 root.table

-- What the last step says; the sum wraps at 64 bits.
unfoldable pub terminal_phys : ℕ → WalkStep → Option ℕ
terminal_phys vaddr terminal =
    let phys_base = bit_and terminal.pte_raw (2 ^ 64 - 1 - 0x3FF) * 2 ^ 2 % 2 ^ 64 in
    let offset_mask = 2 ^ (12 + 9 * terminal.level) - 1 in
    if not (is_valid terminal.pte_raw) || not (is_leaf terminal.pte_raw)
    then none
    else some ((phys_base + bit_and vaddr offset_mask) % 2 ^ 64)

-- `chain[n - 1]`; the chain has one step at least.
unfoldable pub last_phys : ℕ → List WalkStep → Option ℕ
unfolding terminal_phys
last_phys vaddr [] = none
last_phys vaddr (step ∷ []) = terminal_phys vaddr step
last_phys vaddr (step ∷ next ∷ steps) = last_phys vaddr (next ∷ steps)

unfoldable pub virt_to_phys : RootTable → Memory → ℕ → Option ℕ
unfolding walk_pte_chain last_phys
virt_to_phys root mem vaddr = last_phys vaddr (walk_pte_chain root mem vaddr)
