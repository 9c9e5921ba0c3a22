-- ===== src/Perms/Descent.antt =====
-- What a process of orbit-abi/src/roles.rs can hand down by pledges and spawns.
use orbit.Base.{
  Bool, true, false, arith, none, ℕ, ◌≡◌, refl, sym, ap, subst, ◌∙◌, ◌⊎◌, inl, inr, ◌==◌, List, [],
  ◌∷◌, bit_and, Bool-cases,
}
use orbit.Base.Bits.{bit_and_self, bit_and_comm, bit_and_assoc}
use orbit.Perms.{Permissions, PermsRequest, narrow, pledge}
use orbit.Perms.Roles.{
  SpawnDeny, TransitionAllowed, Checked, allowed, denied, inherit, check_transition,
  derive_child_perms, installed,
}

-- Every bit of the first mask is one of the second.
abbrev pub Within : ℕ → ℕ → Type 0
Within a b = bit_and a b ≡ a

Within-refl : (a : ℕ) → Within a a
Within-refl a = bit_and_self a

pub Within-trans : (a b c : ℕ) → Within a b → Within b c → Within a c
Within-trans a b c h k = ap (λ x. bit_and x c) (sym h) ∙ bit_and_assoc a b c ∙ ap (bit_and a) k ∙ h

Within-left : (a b : ℕ) → Within (bit_and a b) a
Within-left a b =
    bit_and_comm (bit_and a b) a
    ∙ sym (bit_and_assoc a a b)
    ∙ ap (λ x. bit_and x b) (bit_and_self a)

Within-right : (a b : ℕ) → Within (bit_and a b) b
Within-right a b = bit_and_assoc a b b ∙ ap (bit_and a) (bit_and_self b)

-- What happens to the permissions on the way to a descendant: a process narrows its own, or spawns a
-- child, which goes on in its place. CREATE_PROCESS_V2 names a role; CREATE_PROCESS and
-- CREATE_PROCESS_EX name no permissions.
pub data Deed : Type 0 where
  pledges : PermsRequest → Deed
  spawns : (target : ℕ) → PermsRequest → Deed
  spawns_unresolved : Deed

pub data Heir : Type 0 where
  descends : Permissions → Heir
  refused : SpawnDeny → Heir

abbrev spawned : Permissions → PermsRequest → Checked → Heir
spawned p request (allowed t) = descends (derive_child_perms p t request)
spawned p request (denied d) = refused d

abbrev pub deed : Permissions → Deed → Heir
deed p (pledges request) = descends (pledge p request)
deed p spawns_unresolved = descends (installed none)
deed p (spawns target request) = spawned p request (check_transition p.role target)

abbrev pub descend : Permissions → List Deed → Heir
descend p [] = descends p
descend p (d ∷ ds) = elim (deed p d) [ refused e ↦ refused e | descends q ↦ descend q ds ]

-- Every spawn on the way names a role.
abbrev pub resolved : List Deed → Bool
resolved [] = true
resolved (spawns_unresolved ∷ ds) = false
resolved (d ∷ ds) = resolved ds

-- The bounds on a descendant `q` of `p`.
pub record Bounded (p q : Permissions) : Type 0 where
  pub allowed_within : Within q.allowed_perms p.allowed_perms
  pub perms_within : Within q.perms p.perms ⊎ Within q.perms p.allowed_perms

Bounded-refl : (p : Permissions) → Bounded p p
Bounded-refl p = record {
  allowed_within = Within-refl p.allowed_perms;
  perms_within = inl (Within-refl p.perms);
}

Bounded-trans : (p q r : Permissions) → Bounded p q → Bounded q r → Bounded p r
Bounded-trans p q r h k = record {
  allowed_within = Within-trans _ _ _ k.allowed_within h.allowed_within;
  perms_within = elim k.perms_within [
    | inr a ↦ inr (Within-trans _ _ _ a h.allowed_within)
    | inl s ↦ elim h.perms_within [
      | inl b ↦ inl (Within-trans _ _ _ s b)
      | inr b ↦ inr (Within-trans _ _ _ s b)
    ]
  ];
}

pledge-Bounded : (p : Permissions) (request : PermsRequest) → Bounded p (pledge p request)
unfolding pledge narrow
pledge-Bounded p request = record {
  allowed_within = Within-left p.allowed_perms request.allowed_perms;
  perms_within = inl (Within-left p.perms request.perms);
}

child-Bounded :
    (p : Permissions) (t : TransitionAllowed) (request : PermsRequest)
    → Bounded p (derive_child_perms p t request)
unfolding derive_child_perms narrow
child-Bounded p t request = elim (Bool-cases (t.target == inherit)) [
  | inl same ↦ rw same (Bounded-refl p)
  | inr other ↦ rw other (record {
    allowed_within =
        Within-trans _ _ _ (Within-left _ request.allowed_perms)
          (Within-right t.target_def.default_allowed p.allowed_perms);
    perms_within = inr (
        Within-trans _ _ _ (Within-left _ request.perms)
          (Within-right t.target_def.default_perms p.allowed_perms));
  })
]

descends_inj : (p q : Permissions) → descends p ≡ descends q → p ≡ q
descends_inj p q h = ap heir h
  where
    heir : Heir → Permissions
    heir (descends r) = r
    heir (refused e) = p

refused_ne : (e : SpawnDeny) (q : Permissions) → refused e ≡ descends q → ⊥
refused_ne e q h = cc

deed-Bounded :
    (p q : Permissions) (d : Deed) → resolved (d ∷ []) ≡ true → deed p d ≡ descends q → Bounded p q
deed-Bounded p q (pledges request) named h =
    subst (Bounded p) (descends_inj _ q h) (pledge-Bounded p request)
deed-Bounded p q spawns_unresolved named h = absurd (ground (arith, named))
deed-Bounded p q (spawns target request) named h = by_check (check_transition p.role target) h
  where
    by_check : (c : Checked) → spawned p request c ≡ descends q → Bounded p q
    by_check (allowed t) h = subst (Bounded p) (descends_inj _ q h) (child-Bounded p t request)
    by_check (denied e) h = absurd (refused_ne e q h)

resolved-parts :
    (d : Deed) (ds : List Deed)
    → resolved (d ∷ ds) ≡ true
    → (resolved (d ∷ []) ≡ true) × (resolved ds ≡ true)
resolved-parts (pledges request) ds h = (refl, h)
resolved-parts (spawns target request) ds h = (refl, h)
resolved-parts spawns_unresolved ds h = absurd (ground (arith, h))

-- However a process pledges and spawns by CREATE_PROCESS_V2, and its children after it: a descendant's
-- cap on what it can grant lies within the process's cap, and the classes that it may call lie within
-- the process's own or within that cap. No spawn on the way is a CREATE_PROCESS or CREATE_PROCESS_EX,
-- which give the child all permissions whatever its parent has.
pub descend-Bounded :
    (p q : Permissions) (ds : List Deed)
    → resolved ds ≡ true
    → descend p ds ≡ descends q
    → Bounded p q
descend-Bounded p q [] named h = subst (Bounded p) (descends_inj p q h) (Bounded-refl p)
descend-Bounded p q (d ∷ ds) named h =
    let parts = resolved-parts d ds named in
    first (parts.0) (deed p d) refl h (λ r k. descend-Bounded r q ds (parts.1) k)
  where
    first :
        resolved (d ∷ []) ≡ true
        → (o : Heir) → deed p d ≡ o
        → elim o [ refused e ↦ refused e | descends r ↦ descend r ds ] ≡ descends q
        → ((r : Permissions) → descend r ds ≡ descends q → Bounded r q)
        → Bounded p q
    first n (refused e) k h more = absurd (refused_ne e q h)
    first n (descends r) k h more = Bounded-trans p r q (deed-Bounded p r d n k) (more r h)
