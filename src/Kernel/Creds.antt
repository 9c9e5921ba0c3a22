-- ===== src/Kernel/Creds.antt =====
-- The credentials of a process, kmain/src/kernel/mod.rs: `run_setuid` and `run_setgid` with the walk
-- that stamps its threads, `run_setgroups`, `run_setlogin`. What the last two read from user memory is
-- an argument: the list or the name, or the error of the copy.
pub mod Confined
pub mod Stamps
pub mod Synced
mod Tests
use orbit.Base.{
  ℕ, ◌-◌, ◌^◌, Bool, not, leb, ltb, ◌==◌, ◌||◌, if◌then◌else◌, List, [], ◌∷◌, Option, none, some,
}
use orbit.Base.Map.{lookup, insert}
use orbit.Thread.{Thread}
use orbit.Thread.Cap.{set_uid_triplet, set_gid_triplet}
use orbit.Store.{Store, update}
use orbit.Manager.{Manager}
use orbit.Kernel.Processes.{Process, Processes, to_ret, eperm, esrch, einval}

-- The rules on the triplets.
unfoldable pub with_uid : Process → ℕ → Option Process
with_uid p uid =
    if p.euid == 0
    then some (record p { uid = uid; euid = uid; suid = uid })
    else if uid == p.uid || uid == p.suid
    then some (record p { euid = uid })
    else none

unfoldable pub with_gid : Process → ℕ → Option Process
with_gid p gid =
    if p.euid == 0
    then some (record p { gid = gid; egid = gid; sgid = gid })
    else if gid == p.gid || gid == p.sgid
    then some (record p { egid = gid })
    else none

abbrev pub stamp_at : (Thread → Thread) → Store → Option ℕ → Store
stamp_at f st none = st
stamp_at f st (some p) = update st p (f (st p))

-- The walk over the threads of a process that are registered.
unfoldable pub stamp : (Thread → Thread) → Manager → List ℕ → Store → Store
stamp f m [] st = st
stamp f m (tid ∷ tids) st = stamp f m tids (stamp_at f st (lookup tid m.threads))

-- The table, the threads and the result.
abbrev pub commit_uid : Processes → Manager → Store → ℕ → Option Process → Processes × Store × ℕ
commit_uid ps m st pid none = (ps, st, to_ret eperm)
commit_uid ps m st pid (some p) =
    (insert pid p ps, stamp (λ t. set_uid_triplet t p.uid p.euid p.suid) m p.threads st, 0)

abbrev pub change_uid : Processes → Manager → Store → ℕ → ℕ → Option Process → Processes × Store × ℕ
change_uid ps m st pid uid none = (ps, st, to_ret esrch)
change_uid ps m st pid uid (some p) = commit_uid ps m st pid (with_uid p uid)

abbrev pub commit_gid : Processes → Manager → Store → ℕ → Option Process → Processes × Store × ℕ
commit_gid ps m st pid none = (ps, st, to_ret eperm)
commit_gid ps m st pid (some p) =
    (insert pid p ps, stamp (λ t. set_gid_triplet t p.gid p.egid p.sgid) m p.threads st, 0)

abbrev pub change_gid : Processes → Manager → Store → ℕ → ℕ → Option Process → Processes × Store × ℕ
change_gid ps m st pid gid none = (ps, st, to_ret esrch)
change_gid ps m st pid gid (some p) = commit_gid ps m st pid (with_gid p gid)

unfoldable pub run_setuid : Processes → Manager → Store → ℕ → ℕ → Processes × Store × ℕ
unfolding to_ret
run_setuid ps m st pid uid = change_uid ps m st pid uid (lookup pid ps)

unfoldable pub run_setgid : Processes → Manager → Store → ℕ → ℕ → Processes × Store × ℕ
unfolding to_ret
run_setgid ps m st pid gid = change_gid ps m st pid gid (lookup pid ps)

abbrev pub ngroups_max : ℕ
ngroups_max = 16

abbrev pub max_login_name : ℕ
max_login_name = 32

abbrev pub enametoolong : ℕ
enametoolong = 36

-- What a copy from user memory gave: a value, or the result that reports the failure.
pub data Copied {ℓ} (A : Type ℓ) : Type ℓ where
  copied : A → Copied A
  fails : (ret : ℕ) → Copied A

abbrev pub place_groups : Processes → ℕ → Process → Copied (List ℕ) → Processes × ℕ
place_groups ps pid p (fails ret) = (ps, ret)
place_groups ps pid p (copied gs) = (insert pid (record p { groups = gs }) ps, 0)

abbrev pub groups_by : Processes → ℕ → Copied (List ℕ) → Option Process → Processes × ℕ
groups_by ps pid groups none = (ps, to_ret esrch)
groups_by ps pid groups (some p) =
    if not (p.euid == 0) then (ps, to_ret eperm) else place_groups ps pid p groups

-- With no groups to read, there is nothing to copy.
unfoldable pub run_setgroups : Processes → ℕ → ℕ → Copied (List ℕ) → Processes × ℕ
unfolding to_ret
run_setgroups ps pid count groups =
    if ltb ngroups_max count
    then (ps, to_ret einval)
    else groups_by ps pid (if count == 0 then copied [] else groups) (lookup pid ps)

abbrev pub place_login : Processes → ℕ → Process → Copied (List ℕ) → Processes × ℕ
place_login ps pid p (fails ret) = (ps, ret)
place_login ps pid p (copied bytes) = (insert pid (record p { login_name = some bytes }) ps, 0)

abbrev pub login_by : Processes → ℕ → Copied (List ℕ) → Option Process → Processes × ℕ
login_by ps pid name none = (ps, to_ret esrch)
login_by ps pid name (some p) =
    if not (p.euid == 0) then (ps, to_ret eperm) else place_login ps pid p name

unfoldable pub run_setlogin : Processes → ℕ → ℕ → Copied (List ℕ) → Processes × ℕ
unfolding to_ret
run_setlogin ps pid name_len name =
    if name_len == 0 || ltb max_login_name name_len
    then (ps, to_ret enametoolong)
    else login_by ps pid name (lookup pid ps)

pub data Call : Type 0 where
  setuid : (pid uid : ℕ) → Call
  setgid : (pid gid : ℕ) → Call
  setgroups : (pid count : ℕ) → Copied (List ℕ) → Call
  setlogin : (pid name_len : ℕ) → Copied (List ℕ) → Call

unfoldable pub call : Manager → Processes × Store → Call → Processes × Store
unfolding run_setuid run_setgid run_setgroups run_setlogin
call m (ps, st) (setuid pid uid) = let (ps', st', ret) = run_setuid ps m st pid uid in (ps', st')
call m (ps, st) (setgid pid gid) = let (ps', st', ret) = run_setgid ps m st pid gid in (ps', st')
call m (ps, st) (setgroups pid count groups) = ((run_setgroups ps pid count groups).0, st)
call m (ps, st) (setlogin pid name_len name) = ((run_setlogin ps pid name_len name).0, st)

unfoldable pub run : Manager → Processes × Store → List Call → Processes × Store
unfolding call
run m s [] = s
run m s (c ∷ cs) = run m (call m s c) cs
