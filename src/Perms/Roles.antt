-- ===== src/Perms/Roles.antt =====
-- orbit-abi/src/roles.rs: the table of the roles, and the permissions that a spawned process gets.
use orbit.Base.{
  ℕ, ◌^◌, Bool, false, not, ◌==◌, ltb, if◌then◌else◌, List, [], ◌∷◌, Option, none, some, get_elem?,
  bit_and, bit_or,
}
use orbit.Perms.{
  ClassMask, narrow, stdio, proc_life, proc_spawn, sched, vmem, netch, fs_ro, futex, stats,
  pledge_class, union, all_classes, Permissions, PermsRequest,
}

abbrev pub bootstrap : ℕ
bootstrap = 1

abbrev pub loader : ℕ
loader = 2

abbrev pub shell : ℕ
shell = 3

abbrev pub net_client : ℕ
net_client = 4

abbrev pub fs_tool : ℕ
fs_tool = 5

abbrev pub worker : ℕ
worker = 6

abbrev pub service : ℕ
service = 7

abbrev pub inherit : ℕ
inherit = 0xFFFFFFFF

pub record RoleDef : Type 0 where
  pub default_perms : ClassMask
  pub default_allowed : ClassMask
  pub transitions : ℕ

unfoldable pub allows_transition : RoleDef → ℕ → Bool
allows_transition d target =
    if not (ltb target 64) then false else not (bit_and d.transitions (2 ^ target) == 0)

abbrev role_bits : List ℕ → ℕ
role_bits [] = 0
role_bits (r ∷ rs) = bit_or (2 ^ r) (role_bits rs)

abbrev leaf_classes : ClassMask
leaf_classes = union (stdio ∷ vmem ∷ pledge_class ∷ [])

-- `ROLES`, in the order of the role numbers, from NOROLE on.
abbrev pub roles : List RoleDef
roles =
    record { default_perms = 0; default_allowed = 0; transitions = 0 }
    ∷ record {
      default_perms = all_classes;
      default_allowed = all_classes;
      transitions = role_bits (loader ∷ shell ∷ []);
    }
    ∷ record {
      default_perms = all_classes;
      default_allowed = all_classes;
      transitions = role_bits (shell ∷ service ∷ worker ∷ net_client ∷ fs_tool ∷ []);
    }
    ∷ record {
      default_perms =
          union (stdio ∷ proc_life ∷ proc_spawn ∷ sched ∷ vmem ∷ fs_ro ∷ stats ∷ pledge_class ∷ []);
      default_allowed = all_classes;
      transitions = role_bits (net_client ∷ fs_tool ∷ worker ∷ []);
    }
    ∷ record {
      default_perms = union (stdio ∷ netch ∷ futex ∷ vmem ∷ pledge_class ∷ []);
      default_allowed = leaf_classes;
      transitions = role_bits (worker ∷ []);
    }
    ∷ record {
      default_perms = union (stdio ∷ fs_ro ∷ vmem ∷ pledge_class ∷ []);
      default_allowed = leaf_classes;
      transitions = role_bits (worker ∷ []);
    }
    ∷ record { default_perms = leaf_classes; default_allowed = leaf_classes; transitions = 0 }
    ∷ record {
      default_perms = union (stdio ∷ netch ∷ fs_ro ∷ futex ∷ vmem ∷ pledge_class ∷ stats ∷ []);
      default_allowed = leaf_classes;
      transitions = role_bits (worker ∷ []);
    }
    ∷ []

unfoldable pub role_def : ℕ → Option RoleDef
role_def role = get_elem? roles role

pub data SpawnDeny : Type 0 where
  unknown_parent_role unknown_target_role transition_denied : SpawnDeny

pub record TransitionAllowed : Type 0 where
  pub source : ℕ
  pub target : ℕ
  pub target_def : RoleDef

pub data Checked : Type 0 where
  allowed : TransitionAllowed → Checked
  denied : SpawnDeny → Checked

-- The witness of an inherited role carries the definition of NOROLE, which nothing reads.
abbrev placeholder : RoleDef
placeholder = record { default_perms = 0; default_allowed = 0; transitions = 0 }

abbrev pub check_defs : ℕ → ℕ → Option RoleDef → Option RoleDef → Checked
check_defs parent target none target_def = denied unknown_parent_role
check_defs parent target (some parent_def) none = denied unknown_target_role
check_defs parent target (some parent_def) (some target_def) =
    if not (allows_transition parent_def target)
    then denied transition_denied
    else allowed (record { source = parent; target = target; target_def = target_def })

unfoldable pub check_transition : ℕ → ℕ → Checked
unfolding role_def allows_transition
check_transition parent_role target_role =
    if target_role == inherit
    then allowed (record { source = parent_role; target = inherit; target_def = placeholder })
    else check_defs parent_role target_role (role_def parent_role) (role_def target_role)

unfoldable pub derive_child_perms : Permissions → TransitionAllowed → PermsRequest → Permissions
unfolding narrow
derive_child_perms parent transition request =
    if transition.target == inherit then parent else record {
      perms =
          narrow (narrow transition.target_def.default_perms parent.allowed_perms) request.perms;
      allowed_perms =
          narrow (narrow transition.target_def.default_allowed parent.allowed_perms)
            request.allowed_perms;
      role = transition.target;
    }

-- `Permissions::ALL`.
abbrev pub full : Permissions
full = record { perms = all_classes; allowed_perms = all_classes; role = bootstrap }

-- What `create_new_process` installs: the permissions that it was given, or all of them.
unfoldable pub installed : Option Permissions → Permissions
installed none = full
installed (some p) = p
