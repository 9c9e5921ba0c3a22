-- ===== src/Mappings.antt =====
-- The address space of a process (process/src/lib.rs): its mappings by address, and the search for a
-- free range. A mapping's backing memory is left out, since nothing here reads it.
pub mod Fit
mod Tests
use orbit.Base.{
  ℕ, suc, ◌+◌, ◌-◌, ◌%◌, ◌^◌, Bool, true, false, not, ◌==◌, ltb, leb, ◌&&◌, if◌then◌else◌, List, [],
  ◌∷◌, Option, none, some, bit_and, retain,
}
use orbit.Base.Map.{insert}

pub data MappingKind : Type 0 where
  elf anon : MappingKind
  stack : (slot : ℕ) → MappingKind
  guard_range : (slot : ℕ) → MappingKind
  trap_frame : (slot : ℕ) → MappingKind
  tls : (slot : ℕ) → MappingKind
  net_ch : (fd : ℕ) → MappingKind

abbrev pub slot_of : MappingKind → Option ℕ
slot_of elf = none
slot_of anon = none
slot_of (stack slot) = some slot
slot_of (guard_range slot) = some slot
slot_of (trap_frame slot) = some slot
slot_of (tls slot) = some slot
slot_of (net_ch fd) = none

pub record UserMapping : Type 0 where
  pub vaddr : ℕ
  pub len : ℕ
  pub perms : ℕ
  pub kind : MappingKind

-- The sums of addresses and lengths are on `u64`.
abbrev pub end_of : UserMapping → ℕ
end_of m = (m.vaddr + m.len) % 2 ^ 64

abbrev pub covers : UserMapping → ℕ → Bool
covers m v = leb m.vaddr v && ltb v (end_of m)

abbrev pub Maps : Type 0
Maps = List (ℕ × UserMapping)

-- `range(..=v).next_back()` and `range(v..)`.
abbrev pub last_upto : ℕ → Maps → Option UserMapping
last_upto v [] = none
last_upto v ((k, m) ∷ rest) =
    if leb k v then elim (last_upto v rest) [ none ↦ some m | some l ↦ some l ] else none

abbrev pub range_from : ℕ → Maps → Maps
range_from v [] = []
range_from v ((k, m) ∷ rest) = if ltb k v then range_from v rest else (k, m) ∷ rest

unfoldable pub find_mapping : Maps → ℕ → Option UserMapping
find_mapping maps vaddr = elim (last_upto vaddr maps) [
  | none ↦ none
  | some m ↦ if covers m vaddr then some m else none
]

-- `(v + align - 1) & !(align - 1)` on `u64`.
unfoldable pub round_up : ℕ → ℕ → ℕ
round_up v align = bit_and ((v + align - 1) % 2 ^ 64) (2 ^ 64 - 1 - (align - 1))

abbrev pub fit : ℕ → ℕ → ℕ → ℕ → Maps → Option ℕ
fit len align top candidate [] =
    if leb ((candidate + len) % 2 ^ 64) top then some candidate else none
fit len align top candidate ((k, m) ∷ rest) =
    let later = fit len align top (round_up (end_of m) align) rest in
    if leb ((candidate + len) % 2 ^ 64) m.vaddr then some candidate else later

unfoldable pub pick_user_vaddr : Maps → ℕ → ℕ → ℕ → ℕ → Option ℕ
unfolding round_up
pick_user_vaddr maps mmap_cursor len align top =
    let candidate = round_up mmap_cursor align in
    fit len align top candidate (range_from candidate maps)

-- True for `Ok`.
unfoldable pub validate_free_range : Maps → ℕ → ℕ → Bool
validate_free_range maps vaddr len =
    let after : Bool = elim (range_from vaddr maps) [
      | [] ↦ true
      | next ∷ _ ↦ not (ltb (next.1).vaddr ((vaddr + len) % 2 ^ 64))
    ] in
    elim (last_upto vaddr maps) [
      | none ↦ after
      | some prev ↦ if ltb vaddr (end_of prev) then false else after
    ]

unfoldable pub insert_mapping : Maps → UserMapping → Maps
insert_mapping maps m = insert m.vaddr m maps

unfoldable pub mappings_for_slot : Maps → ℕ → Maps
mappings_for_slot maps slot =
    retain (λ e. elim (slot_of (e.1).kind) [ none ↦ false | some s ↦ s == slot ]) maps
