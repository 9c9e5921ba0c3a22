-- ===== src/Kernel/Creds/Confined.antt =====
-- Once root is given up, `run_setuid` and its like do not bring it back.
use orbit.Base.{
  ℕ, ◌≡◌, refl, Bool, true, false, not, ◌==◌, ◌||◌, ◌&&◌, List, [], ◌∷◌, Option, none, some, arith,
  ==_iff, Bool-cases, inl, inr, ap, sym, ◌∙◌, subst,
}
use orbit.Base.Map.{lookup, insert, lookup-insert}
use orbit.Store.{Store}
use orbit.Manager.{Manager}
use orbit.Kernel.Processes.{Process, Processes}
use orbit.Kernel.Creds.{
  Copied, commit_uid, change_uid, commit_gid, change_gid, with_uid, with_gid, run_setuid,
  run_setgid, run_setgroups, run_setlogin, Call, setuid, setgid, setgroups, setlogin, call, run,
}

-- None of the three user ids is root's.
abbrev pub powerless : Process → Bool
powerless p = not (p.uid == 0) && not (p.euid == 0) && not (p.suid == 0)

-- A process that is what it was but for the effective ids, which lie among the three that it had.
pub record Within (p q : Process) : Type 0 where
  pub uid : q.uid ≡ p.uid
  pub suid : q.suid ≡ p.suid
  pub euid : (q.euid == p.uid || q.euid == p.euid || q.euid == p.suid) ≡ true
  pub gid : q.gid ≡ p.gid
  pub sgid : q.sgid ≡ p.sgid
  pub egid : (q.egid == p.gid || q.egid == p.egid || q.egid == p.sgid) ≡ true
  pub groups : q.groups ≡ p.groups
  pub login_name : q.login_name ≡ p.login_name

-- The process is there, and within what it was.
abbrev pub Confined : Process → Option Process → Type 0
Confined p none = ⊥
Confined p (some q) = Within p q

abbrev rooted : Option Process → Bool
rooted none = false
rooted (some q) = q.euid == 0

module _ (p : Process) (weak : powerless p ≡ true) where
  with_uid-Within :
      (q : Process) (uid : ℕ) → Within p q → (q' : Process) → with_uid q uid ≡ some q' → Within p q'
  unfolding with_uid
  with_uid-Within q uid w q' h = ground (arith, ==_iff uid q.uid, ==_iff uid q.suid)

  with_gid-Within :
      (q : Process) (gid : ℕ) → Within p q → (q' : Process) → with_gid q gid ≡ some q' → Within p q'
  unfolding with_gid
  with_gid-Within q gid w q' h = ground (arith, ==_iff gid q.gid, ==_iff gid q.sgid)

  no_root : (q : Process) → Within p q → (q.euid == 0) ≡ false
  no_root q w = ground arith

  module _ (ps : Processes) (pid : ℕ) (before : Confined p (lookup pid ps)) where
    write-Confined :
        (k : ℕ) (q q' : Process)
        → lookup k ps ≡ some q
        → (Within p q → Within p q')
        → Confined p (lookup pid (insert k q' ps))
    write-Confined k q q' here keeps = elim (Bool-cases (k == pid)) [
      | inl e ↦
          let same : lookup pid ps ≡ some q =
            ap (λ j. lookup j ps) (sym ((==_iff k pid).0 e)) ∙ here in
          rw (lookup-insert k pid q' ps, e) (keeps (subst (λ o. Confined p o) same before))
      | inr e ↦ rw (lookup-insert k pid q' ps, e) before
    ]

    commit_uid-Confined :
        (m : Manager) (st : Store) (k uid : ℕ) (q : Process) (o : Option Process)
        → lookup k ps ≡ some q
        → with_uid q uid ≡ o
        → Confined p (lookup pid (commit_uid ps m st k o).0)
    commit_uid-Confined m st k uid q none here h = before
    commit_uid-Confined m st k uid q (some q') here h =
        write-Confined k q q' here (λ w. with_uid-Within q uid w q' h)

    setuid-Confined :
        (m : Manager) (st : Store) (k uid : ℕ) (o : Option Process)
        → lookup k ps ≡ o
        → Confined p (lookup pid (change_uid ps m st k uid o).0)
    setuid-Confined m st k uid none here = before
    setuid-Confined m st k uid (some q) here =
        commit_uid-Confined m st k uid q (with_uid q uid) here refl

    commit_gid-Confined :
        (m : Manager) (st : Store) (k gid : ℕ) (q : Process) (o : Option Process)
        → lookup k ps ≡ some q
        → with_gid q gid ≡ o
        → Confined p (lookup pid (commit_gid ps m st k o).0)
    commit_gid-Confined m st k gid q none here h = before
    commit_gid-Confined m st k gid q (some q') here h =
        write-Confined k q q' here (λ w. with_gid-Within q gid w q' h)

    setgid-Confined :
        (m : Manager) (st : Store) (k gid : ℕ) (o : Option Process)
        → lookup k ps ≡ o
        → Confined p (lookup pid (change_gid ps m st k gid o).0)
    setgid-Confined m st k gid none here = before
    setgid-Confined m st k gid (some q) here =
        commit_gid-Confined m st k gid q (with_gid q gid) here refl

    not_root : rooted (lookup pid ps) ≡ false
    not_root = by_process (lookup pid ps) before
      where
        by_process : (o : Option Process) → Confined p o → rooted o ≡ false
        by_process none c = absurd c
        by_process (some q) w = no_root q w

    -- What the two other calls do not change without root.
    setgroups_same :
        (k count : ℕ) (groups : Copied (List ℕ))
        → lookup pid (run_setgroups ps k count groups).0 ≡ lookup pid ps
    unfolding run_setgroups
    setgroups_same k count groups = grind (arith, lookup-insert, not_root, ==_iff k pid)

    setlogin_same :
        (k name_len : ℕ) (name : Copied (List ℕ))
        → lookup pid (run_setlogin ps k name_len name).0 ≡ lookup pid ps
    unfolding run_setlogin
    setlogin_same k name_len name = grind (arith, lookup-insert, not_root, ==_iff k pid)

    call-Confined :
        (m : Manager) (st : Store) (c : Call) → Confined p (lookup pid (call m (ps, st) c).0)
    unfolding call run_setuid run_setgid
    call-Confined m st (setuid k uid) = setuid-Confined m st k uid (lookup k ps) refl
    call-Confined m st (setgid k gid) = setgid-Confined m st k gid (lookup k ps) refl
    call-Confined m st (setgroups k count groups) =
        subst (λ o. Confined p o) (sym (setgroups_same k count groups)) before
    call-Confined m st (setlogin k name_len name) =
        subst (λ o. Confined p o) (sym (setlogin_same k name_len name)) before

run-keeps :
    (m : Manager) (p : Process) (pid : ℕ) (ps : Processes) (st : Store) (cs : List Call)
    → powerless p ≡ true
    → Confined p (lookup pid ps)
    → Confined p (lookup pid (run m (ps, st) cs).0)
unfolding run
run-keeps m p pid ps st [] weak before = before
run-keeps m p pid ps st (c ∷ cs) weak before =
    let s = call m (ps, st) c in
    run-keeps m p pid s.0 s.1 cs weak (call-Confined p weak ps pid before m st c)

-- A process none of whose user ids is root's: whatever calls of setuid, setgid, setgroups and setlogin
-- any processes make, its real and saved ids, its groups and its login name stay as they are, and each
-- effective id lies among the three that it had.
pub run-Confined :
    (m : Manager) (p : Process) (pid : ℕ) (ps : Processes) (st : Store) (cs : List Call)
    → lookup pid ps ≡ some p
    → powerless p ≡ true
    → Confined p (lookup pid (run m (ps, st) cs).0)
run-Confined m p pid ps st cs here weak =
    run-keeps m p pid ps st cs weak (subst (λ o. Confined p o) (sym here) (itself p))
  where
    itself : (q : Process) → Within q q
    itself q = ground arith
