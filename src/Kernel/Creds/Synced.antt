-- ===== src/Kernel/Creds/Synced.antt =====
-- The calls of Creds keep the threads' credentials those of their process.
use orbit.Base.{
  ℕ, ltb, ◌==◌, ◌||◌, ◌≡◌, refl, inl, inr, Bool-cases, List, [], ◌∷◌, Option, none, some, arith,
}
use orbit.Base.Map.{lookup, insert, IsSorted, insert-Rising}
use orbit.Thread.{Thread}
use orbit.Thread.Cap.{set_uid_triplet, set_gid_triplet}
use orbit.Store.{Store}
use orbit.Manager.{Manager}
use orbit.Kernel.Processes.{Process, Processes}
use orbit.Kernel.Creds.{
  groups_by, place_groups, login_by, place_login, Copied, copied, fails, with_uid, with_gid,
  commit_uid, change_uid, commit_gid, change_gid, run_setuid, run_setgid, run_setgroups,
  run_setlogin, Call, setuid, setgid, setgroups, setlogin, call, run, ngroups_max, max_login_name,
}
use orbit.Kernel.Creds.Stamps.{Carries, Synced, stamp-Synced, same-Synced}

module _ (m : Manager) where
  with_uid-turns :
      (k uid : ℕ) (p p' : Process) (t : Thread)
      → with_uid p uid ≡ some p'
      → Carries k p t
      → Carries k p' (set_uid_triplet t p'.uid p'.euid p'.suid)
  unfolding with_uid set_uid_triplet
  with_uid-turns k uid p p' t h c = ground arith

  with_uid-threads : (uid : ℕ) (p p' : Process) → with_uid p uid ≡ some p' → p'.threads ≡ p.threads
  unfolding with_uid
  with_uid-threads uid p p' h = ground arith

  with_gid-turns :
      (k gid : ℕ) (p p' : Process) (t : Thread)
      → with_gid p gid ≡ some p'
      → Carries k p t
      → Carries k p' (set_gid_triplet t p'.gid p'.egid p'.sgid)
  unfolding with_gid set_gid_triplet
  with_gid-turns k gid p p' t h c = ground arith

  with_gid-threads : (gid : ℕ) (p p' : Process) → with_gid p gid ≡ some p' → p'.threads ≡ p.threads
  unfolding with_gid
  with_gid-threads gid p p' h = ground arith

  module _ (ps : Processes) (st : Store) (sorted : IsSorted ps) (synced : Synced m ps st) where
    commit_uid-Synced :
        (k uid : ℕ) (p : Process) (o : Option Process)
        → with_uid p uid ≡ o
        → lookup k ps ≡ some p
        → Synced m (commit_uid ps m st k o).0 (commit_uid ps m st k o).1
    commit_uid-Synced k uid p none h here = synced
    commit_uid-Synced k uid p (some p') h here =
        stamp-Synced m (λ t. set_uid_triplet t p'.uid p'.euid p'.suid) k p p' ps st
          (λ t. unfold set_uid_triplet in refl) (λ t c. with_uid-turns k uid p p' t h c) sorted here
          (with_uid-threads uid p p' h) synced

    change_uid-Synced :
        (k uid : ℕ) (o : Option Process)
        → lookup k ps ≡ o
        → Synced m (change_uid ps m st k uid o).0 (change_uid ps m st k uid o).1
    change_uid-Synced k uid none here = synced
    change_uid-Synced k uid (some p) here = commit_uid-Synced k uid p (with_uid p uid) refl here

    commit_gid-Synced :
        (k gid : ℕ) (p : Process) (o : Option Process)
        → with_gid p gid ≡ o
        → lookup k ps ≡ some p
        → Synced m (commit_gid ps m st k o).0 (commit_gid ps m st k o).1
    commit_gid-Synced k gid p none h here = synced
    commit_gid-Synced k gid p (some p') h here =
        stamp-Synced m (λ t. set_gid_triplet t p'.gid p'.egid p'.sgid) k p p' ps st
          (λ t. unfold set_gid_triplet in refl) (λ t c. with_gid-turns k gid p p' t h c) sorted here
          (with_gid-threads gid p p' h) synced

    change_gid-Synced :
        (k gid : ℕ) (o : Option Process)
        → lookup k ps ≡ o
        → Synced m (change_gid ps m st k gid o).0 (change_gid ps m st k gid o).1
    change_gid-Synced k gid none here = synced
    change_gid-Synced k gid (some p) here = commit_gid-Synced k gid p (with_gid p gid) refl here

    groups_by-Synced :
        (k : ℕ) (groups : Copied (List ℕ)) (o : Option Process)
        → lookup k ps ≡ o
        → Synced m (groups_by ps k groups o).0 st
    groups_by-Synced k groups none here = synced
    groups_by-Synced k groups (some p) here = elim (Bool-cases (p.euid == 0)) [
      | inr weak ↦ rw weak synced
      | inl root ↦ rw root (placed groups)
    ]
      where
        placed : (groups : Copied (List ℕ)) → Synced m (place_groups ps k p groups).0 st
        placed (fails ret) = synced
        placed (copied xs) =
            same-Synced m k p (record p { groups = xs }) ps st (λ t c. ground arith) sorted here
              refl synced

    login_by-Synced :
        (k : ℕ) (name : Copied (List ℕ)) (o : Option Process)
        → lookup k ps ≡ o
        → Synced m (login_by ps k name o).0 st
    login_by-Synced k name none here = synced
    login_by-Synced k name (some p) here = elim (Bool-cases (p.euid == 0)) [
      | inr weak ↦ rw weak synced
      | inl root ↦ rw root (placed name)
    ]
      where
        placed : (name : Copied (List ℕ)) → Synced m (place_login ps k p name).0 st
        placed (fails ret) = synced
        placed (copied xs) =
            same-Synced m k p (record p { login_name = some xs }) ps st (λ t c. ground arith) sorted
              here refl synced

    call-Synced : (c : Call) → Synced m (call m (ps, st) c).0 (call m (ps, st) c).1
    unfolding call run_setuid run_setgid run_setgroups run_setlogin
    call-Synced (setuid k uid) = change_uid-Synced k uid (lookup k ps) refl
    call-Synced (setgid k gid) = change_gid-Synced k gid (lookup k ps) refl
    call-Synced (setgroups k count groups) = elim (Bool-cases (ltb ngroups_max count)) [
      | inl many ↦ rw many synced
      | inr few ↦ rw few (groups_by-Synced k _ (lookup k ps) refl)
    ]
    call-Synced (setlogin k len name) = elim (Bool-cases (len == 0 || ltb max_login_name len)) [
      | inl bad ↦ rw bad synced
      | inr good ↦ rw good (login_by-Synced k name (lookup k ps) refl)
    ]

    insert-IsSorted : (k : ℕ) (p : Process) → IsSorted (insert k p ps)
    insert-IsSorted k p = insert-Rising 0 k p ps (omega arith) sorted

    call-IsSorted : (c : Call) → IsSorted (call m (ps, st) c).0
    unfolding call run_setuid run_setgid run_setgroups run_setlogin
    call-IsSorted (setuid k uid) = grind (arith, insert-IsSorted)
    call-IsSorted (setgid k gid) = grind (arith, insert-IsSorted)
    call-IsSorted (setgroups k count groups) = grind (arith, insert-IsSorted)
    call-IsSorted (setlogin k len name) = grind (arith, insert-IsSorted)

-- In a process table that is in the order of its pids: if every registered thread of every process
-- belongs to it and carries its six ids, so it does after any calls of setuid, setgid, setgroups and
-- setlogin.
pub run-Synced :
    (m : Manager) (ps : Processes) (st : Store) (cs : List Call)
    → IsSorted ps
    → Synced m ps st
    → Synced m (run m (ps, st) cs).0 (run m (ps, st) cs).1
unfolding run
run-Synced m ps st [] sorted synced = synced
run-Synced m ps st (c ∷ cs) sorted synced =
    run-Synced m (call m (ps, st) c).0 (call m (ps, st) c).1 cs
      (call-IsSorted m ps st sorted synced c) (call-Synced m ps st sorted synced c)
