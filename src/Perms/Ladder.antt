-- ===== src/Perms/Ladder.antt =====
-- The transitions between the roles of orbit-abi/src/roles.rs, and the rung of each role.
use orbit.Base.Table.{all_below, below_holds}
use orbit.Base.{
  ℕ, zero, suc, ◌≡◌, ◌<◌, refl, ◌⊎◌, inl, inr, Bool, true, ◌==◌, ==_iff, ltb, ◌&&◌, List, [], ◌∷◌,
  Option, none, some, Bool-cases, arith, if◌then◌else◌, get_elem?, length,
}
use orbit.Perms.Roles.{
  RoleDef, roles, role_def, allows_transition, TransitionAllowed, allowed, denied, check_transition,
  check_defs, inherit, SpawnDeny,
}

-- How many spawns into another role can follow.
abbrev pub rung : ℕ → ℕ
rung r =
    if r == 1
    then 4
    else if r == 2
    then 3
    else if r == 3
    then 2
    else if r == 6
    then 0
    else if r == 0
    then 0
    else 1

abbrev descends_from : ℕ → RoleDef → ℕ → Bool
descends_from parent d target =
    if allows_transition d target then ltb (rung target) (rung parent) && ltb 1 target else true

abbrev steps_down : ℕ → ℕ → Bool
steps_down parent target = elim (get_elem? roles parent) [
  | none ↦ true
  | some d ↦ descends_from parent d target
]

-- The table, pair by pair.
table_descends : all_below 8 (λ parent. all_below 8 (λ target. steps_down parent target)) ≡ true
unfolding allows_transition
table_descends = refl

known : {A : Type 0} (xs : List A) (i : ℕ) (a : A) → get_elem? xs i ≡ some a → i < length xs
known [] i a h = absurd (none_some h)
  where
    none_some : {A : Type 0} {a : A} → none ≡ some a → ⊥
    none_some h = cc
known (x ∷ xs) zero a h = omega arith
known (x ∷ xs) (suc i) a h = omega (arith, known xs i a h)

role_below : (r : ℕ) (d : RoleDef) → get_elem? roles r ≡ some d → r < 8
role_below r d h = known roles r d h

denied_ne : (e : SpawnDeny) (t : TransitionAllowed) → denied e ≡ allowed t → ⊥
denied_ne e t h = cc

-- A spawn that the table admits either inherits the parent's role, or goes strictly down the ladder, to
-- a role that is neither NOROLE nor BOOTSTRAP.
pub check_transition-descends :
    (parent target : ℕ) (t : TransitionAllowed)
    → check_transition parent target ≡ allowed t
    → (target ≡ inherit) ⊎ ((rung target < rung parent) × (1 < target))
unfolding check_transition role_def
check_transition-descends parent target t h = elim (Bool-cases (target == inherit)) [
  | inl e ↦ inl ((==_iff target inherit).0 e)
  | inr e ↦ inr (by_defs (get_elem? roles parent) (get_elem? roles target) refl refl (rw e at h))
]
  where
    by_defs :
        (pd td : Option RoleDef)
        → get_elem? roles parent ≡ pd
        → get_elem? roles target ≡ td
        → check_defs parent target pd td ≡ allowed t
        → (rung target < rung parent) × (1 < target)
    by_defs none td k l h = absurd (denied_ne _ t h)
    by_defs (some pd) none k l h = absurd (denied_ne _ t h)
    by_defs (some pd) (some td) k l h = elim (Bool-cases (allows_transition pd target)) [
      | inr off ↦ absurd (denied_ne _ t (rw off at h))
      | inl on ↦
          let row =
            below_holds 8 parent (λ p. all_below 8 (λ q. steps_down p q)) table_descends
              (role_below parent pd k) in
          let cell : steps_down parent target ≡ true =
            below_holds 8 target (λ q. steps_down parent q) row (role_below target td l) in
          let down : (ltb (rung target) (rung parent) && ltb 1 target) ≡ true =
            rw (k, on) at cell in
          (ground (arith, down), ground (arith, down))
    ]
