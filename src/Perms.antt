-- ===== src/Perms.antt =====
-- orbit-abi/src/perms.rs: the classes of system calls that a process may make, the pledge that narrows
-- them, and the gate before a call with its events (orbit-abi/src/denial.rs). A `ClassMask` is its
-- bits.
pub mod Roles
pub mod Descent
pub mod Ladder
pub mod Gate
mod Tests
use orbit.Base.{
  ℕ, suc, ◌+◌, ◌%◌, ◌^◌, Bool, true, false, not, ◌==◌, ltb, ◌||◌, if◌then◌else◌, List, [], ◌∷◌,
  ◌++◌, Option, none, some, get_elem?, bit_and, bit_or,
}

abbrev pub ClassMask : Type 0
ClassMask = ℕ

unfoldable pub narrow : ClassMask → ClassMask → ClassMask
narrow a b = bit_and a b

unfoldable pub contains : ClassMask → ClassMask → Bool
contains a b = bit_and a b == b

-- `class::raw`.
abbrev pub stdio : ClassMask
stdio = 2 ^ 0

abbrev pub proc_life : ClassMask
proc_life = 2 ^ 1

abbrev pub proc_spawn : ClassMask
proc_spawn = 2 ^ 2

abbrev pub sched : ClassMask
sched = 2 ^ 3

abbrev pub vmem : ClassMask
vmem = 2 ^ 4

abbrev pub vmem_shared : ClassMask
vmem_shared = 2 ^ 5

abbrev pub netch : ClassMask
netch = 2 ^ 6

abbrev pub fs_ro : ClassMask
fs_ro = 2 ^ 7

abbrev pub futex : ClassMask
futex = 2 ^ 8

abbrev pub stats : ClassMask
stats = 2 ^ 9

abbrev pub pledge_class : ClassMask
pledge_class = 2 ^ 10

abbrev pub proc_cred : ClassMask
proc_cred = 2 ^ 11

-- The union of classes.
abbrev pub union : List ClassMask → ClassMask
union [] = 0
union (m ∷ ms) = bit_or m (union ms)

abbrev pub all_classes : ClassMask
all_classes = union (
    stdio ∷ proc_life ∷ proc_spawn ∷ sched ∷ vmem ∷ vmem_shared ∷ netch ∷ fs_ro ∷ futex ∷ stats
    ∷ pledge_class ∷ proc_cred ∷ [])

-- `_pad` and `_reserved` are zero.
pub record Permissions : Type 0 where
  pub perms : ℕ
  pub allowed_perms : ℕ
  pub role : ℕ

pub record PermsRequest : Type 0 where
  pub perms : ClassMask
  pub allowed_perms : ClassMask

abbrev first_class : List (ℕ × ClassMask) → ℕ → ClassMask
first_class [] sysno = 0
first_class ((n, c) ∷ rest) sysno = if n == sysno then c else first_class rest sysno

-- The arms of `class_for`, by the numbers of orbit-abi/src/syscall.rs.
abbrev pub class_arms : List (ℕ × ClassMask)
class_arms =
    (0, proc_life)
    ∷ (11, proc_life)
    ∷ (1, stdio)
    ∷ (2, sched)
    ∷ (3, stdio)
    ∷ (4, stdio)
    ∷ (5, sched)
    ∷ (6, sched)
    ∷ (7, sched)
    ∷ (8, stdio)
    ∷ (10, stdio)
    ∷ (9, pledge_class)
    ∷ (4096, vmem)
    ∷ (4097, netch)
    ∷ (4098, stdio)
    ∷ (4099, proc_spawn)
    ∷ (4100, sched)
    ∷ (4101, stats)
    ∷ (4102, stats)
    ∷ (4103, proc_spawn)
    ∷ (4104, proc_life)
    ∷ (4105, proc_spawn)
    ∷ (4106, stats)
    ∷ (5000, proc_spawn)
    ∷ (5001, proc_life)
    ∷ (5002, proc_life)
    ∷ (5003, proc_life)
    ∷ (5004, futex)
    ∷ (5005, futex)
    ∷ (5006, futex)
    ∷ (8004, futex)
    ∷ (4119, futex)
    ∷ (6000, fs_ro)
    ∷ (6001, fs_ro)
    ∷ (6002, fs_ro)
    ∷ (6003, fs_ro)
    ∷ (6004, fs_ro)
    ∷ (6005, fs_ro)
    ∷ (4107, fs_ro)
    ∷ (4108, proc_life)
    ∷ (4109, proc_life)
    ∷ (4110, proc_life)
    ∷ (4111, proc_life)
    ∷ (4112, proc_life)
    ∷ (4113, proc_life)
    ∷ (4114, proc_life)
    ∷ (4115, proc_cred)
    ∷ (4116, proc_cred)
    ∷ (4117, proc_cred)
    ∷ (4118, proc_cred)
    ∷ (7000, stdio)
    ∷ (7001, stdio)
    ∷ (7002, stdio)
    ∷ (7003, stdio)
    ∷ (12, stdio)
    ∷ []

unfoldable pub class_for : ℕ → ClassMask
class_for sysno = first_class class_arms sysno

unfoldable pub allows : Permissions → ℕ → Bool
unfolding class_for contains
allows p sysno = let cls = class_for sysno in if cls == 0 then false else contains p.perms cls

pub record GateContext : Type 0 where
  pub pid : ℕ
  pub tid : ℕ
  pub time_ticks : ℕ

-- `_reserved` is zero.
pub data DenialEvent : Type 0 where
  perm_deny : (required_class perms time_ticks tid sysno source_role pid : ℕ) → DenialEvent
  role_deny : (time_ticks tid source_role target_role deny_reason pid : ℕ) → DenialEvent

-- The sink is the list of the events pushed so far.
unfoldable pub can_call : Permissions → ℕ → GateContext → List DenialEvent → Bool × List DenialEvent
unfolding allows class_for
can_call p sysno ctx sink = if allows p sysno then (true, sink) else (
  false,
  sink
      ++ (perm_deny (class_for sysno) p.perms ctx.time_ticks ctx.tid (sysno % 2 ^ 32) p.role ctx.pid
          ∷ []),
)

unfoldable pub pledge : Permissions → PermsRequest → Permissions
unfolding narrow
pledge p request = record p {
  perms = narrow p.perms request.perms;
  allowed_perms = narrow p.allowed_perms request.allowed_perms;
}
