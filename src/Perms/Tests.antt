-- ===== src/Perms/Tests.antt =====
-- A loader of orbit-abi/src/roles.rs and what it spawns.
use orbit.Base.{◌+◌, ◌≡◌, ◌<◌, ◌⊎◌, refl, false, List, [], ◌∷◌}
use orbit.Perms.{
  Permissions, PermsRequest, GateContext, perm_deny, all_classes, stdio, fs_ro, vmem, pledge,
  can_call,
}
use orbit.Perms.Roles.{
  full, installed, inherit, check_transition, derive_child_perms, loader, shell, fs_tool,
}
use orbit.Perms.Descent.{
  Deed, spawns, spawns_unresolved, Bounded, descend, descends, descend-Bounded,
}
use orbit.Perms.Gate.{can_call-pledge}
use orbit.Perms.Ladder.{rung, check_transition-descends}

abbrev boss : Permissions
boss = record { perms = all_classes; allowed_perms = all_classes; role = loader }

abbrev wish : PermsRequest
wish = record { perms = stdio + vmem; allowed_perms = stdio }

-- The loader spawns a shell, which spawns a tool with less.
abbrev deeds : List Deed
deeds =
    spawns shell (record { perms = all_classes; allowed_perms = all_classes })
    ∷ spawns fs_tool wish
    ∷ []

abbrev tool : Permissions
tool = record { perms = stdio + vmem; allowed_perms = stdio; role = fs_tool }

descend-Bounded_example : Bounded boss tool
descend-Bounded_example = descend-Bounded boss tool deeds refl deeds_run
  where
    deeds_run : descend boss deeds ≡ descends tool
    deeds_run = unfold check_transition derive_child_perms in refl

-- A process with little spawns by CREATE_PROCESS, and the child has everything.
unresolved_escapes : descend tool (spawns_unresolved ∷ []) ≡ descends full
unfolding installed
unresolved_escapes = refl

abbrev caller : GateContext
caller = record { pid = 3; tid = 7; time_ticks = 100 }

can_call-pledge_example :
    can_call (pledge boss wish) 6001 caller [] ≡ (false, perm_deny 128 17 100 7 6001 loader 3 ∷ [])
unfolding can_call orbit.Perms.narrow
can_call-pledge_example = can_call-pledge boss wish 6001 caller []

check_transition-descends_example : (shell ≡ inherit) ⊎ ((rung shell < rung loader) × (1 < shell))
unfolding check_transition
check_transition-descends_example = check_transition-descends loader shell _ refl
