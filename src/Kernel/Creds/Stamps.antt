-- ===== src/Kernel/Creds/Stamps.antt =====
-- The credentials that the threads carry, and those of their process.
use orbit.Base.{
  ℕ, ◌≡◌, refl, sym, ◌∙◌, subst, inl, inr, Bool, true, false, ◌==◌, ◌||◌, ltb, if◌then◌else◌, List,
  [], ◌∷◌, Option, none, some, arith, All, Bool-cases, ==_iff, ==_refl, ==_ne, ◌<◌, suc, ◌≢◌,
}
use orbit.Base.Map.{lookup, insert, Rising, IsSorted, lookup_below}
use orbit.Thread.{Thread}
use orbit.Store.{Store}
use orbit.Manager.{Manager}
use orbit.Kernel.Processes.{Process, Processes}
use orbit.Kernel.Creds.{stamp_at, stamp}

-- The thread belongs to the process under this number and carries its triplets.
pub record Carries (k : ℕ) (p : Process) (t : Thread) : Type 0 where
  pub pid : t.pid ≡ k
  pub uid : t.uid ≡ p.uid
  pub euid : t.euid ≡ p.euid
  pub suid : t.suid ≡ p.suid
  pub gid : t.gid ≡ p.gid
  pub egid : t.egid ≡ p.egid
  pub sgid : t.sgid ≡ p.sgid

abbrev pub Registered : ℕ → Process → Store → Option ℕ → Type 0
Registered k p st none = Unit
Registered k p st (some q) = Carries k p (st q)

abbrev is_at : Option ℕ → ℕ → Bool
is_at none q = false
is_at (some p) q = p == q

module _ (m : Manager) where
  -- So does each registered thread of the process.
  abbrev pub Threads : ℕ → Process → Store → List ℕ → Type 0
  Threads k p st tids = All (λ tid. Registered k p st (lookup tid m.threads)) tids

  abbrev pub Synced : Processes → Store → Type 0
  Synced ps st = All (λ kp. Threads kp.0 kp.1 st kp.1.threads) ps

  -- Whether the walk over these threads meets the pointer.
  reaches : List ℕ → ℕ → Bool
  reaches [] q = false
  reaches (tid ∷ tids) q = is_at (lookup tid m.threads) q || reaches tids q

  stamp_lem :
      (f : Thread → Thread) (tids : List ℕ) (st : Store) (q : ℕ)
      → ((t : Thread) → f (f t) ≡ f t)
      → stamp f m tids st q ≡ (if reaches tids q then f (st q) else st q)
  unfolding stamp reaches
  stamp_lem f [] st q twice = refl
  stamp_lem f (tid ∷ tids) st q twice =
      stamp_lem f tids (stamp_at f st (lookup tid m.threads)) q twice
      ∙ by_thread (lookup tid m.threads)
    where
      by_thread :
          (o : Option ℕ)
          → (if reaches tids q then f (stamp_at f st o q) else stamp_at f st o q)
            ≡ (if is_at o q || reaches tids q then f (st q) else st q)
      by_thread none = refl
      by_thread (some p) = ground (arith, twice (st q), ==_iff p q)

  -- A thread that the walk meets belongs to the process.
  reaches-pid :
      (k : ℕ) (p : Process) (st : Store) (tids : List ℕ) (q : ℕ)
      → Threads k p st tids
      → reaches tids q ≡ true
      → (st q).pid ≡ k
  unfolding reaches
  reaches-pid k p st [] q own met = cc
  reaches-pid k p st (tid ∷ tids) q own met =
      by_thread (lookup tid m.threads) own.0 met (reaches-pid k p st tids q own.1)
    where
      by_thread :
          (o : Option ℕ)
          → Registered k p st o
          → (is_at o q || reaches tids q) ≡ true
          → (reaches tids q ≡ true → (st q).pid ≡ k)
          → (st q).pid ≡ k
      by_thread none r met later = later met
      by_thread (some t) r met later = ground (arith, ==_iff t q)

  -- A change of the threads under one number that turns what carries the old process's triplets into
  -- what carries the new one's, and that leaves the threads under any other number alone.
  module _ (k : ℕ) (p p' : Process) (st st' : Store)
      (turns : (q : ℕ) → reaches p.threads q ≡ true → Carries k p (st q) → Carries k p' (st' q))
      (alone : (q : ℕ) → (reaches p.threads q ≡ false) → st' q ≡ st q) where
    turn-Threads :
        (tids : List ℕ)
        → ((q : ℕ) → reaches tids q ≡ true → reaches p.threads q ≡ true)
        → Threads k p st tids
        → Threads k p' st' tids
    unfolding reaches
    turn-Threads [] among own = tt
    turn-Threads (tid ∷ tids) among own = (
      by_thread (lookup tid m.threads) own.0 (λ q h. among q (ground arith)),
      turn-Threads tids (λ q h. among q (ground arith)) own.1,
    )
      where
        by_thread :
            (o : Option ℕ)
            → Registered k p st o
            → ((q : ℕ) → is_at o q ≡ true → reaches p.threads q ≡ true)
            → Registered k p' st' o
        by_thread none r met = tt
        by_thread (some q) r met = turns q (met q (==_refl q)) r

    module _ (own : Threads k p st p.threads) where
      -- A thread of another process is not met.
      keep-Threads :
          (j : ℕ) (q : Process) (tids : List ℕ)
          → (j == k) ≡ false
          → Threads j q st tids
          → Threads j q st' tids
      keep-Threads j q [] other theirs = tt
      keep-Threads j q (tid ∷ tids) other theirs =
          (by_thread (lookup tid m.threads) theirs.0, keep-Threads j q tids other theirs.1)
        where
          by_thread : (o : Option ℕ) → Registered j q st o → Registered j q st' o
          by_thread none r = tt
          by_thread (some t) r = elim (Bool-cases (reaches p.threads t)) [
            | inl met ↦
                let mine : (st t).pid ≡ k = reaches-pid k p st p.threads t own met in
                absurd (not_both (==_ne j k) (sym r.pid ∙ mine) other)
            | inr not_met ↦ subst (λ u. Carries j q u) (sym (alone t not_met)) r
          ]
            where
              not_both : (j ≢ k → (j == k) ≡ false) → j ≡ k → (j == k) ≡ false → ⊥
              not_both h same differs = ground (arith, ==_iff j k)

      above-Synced : (n : ℕ) (ps : Processes) → k < n → Rising n ps → Synced ps st → Synced ps st'
      above-Synced n [] above rising synced = tt
      above-Synced n ((j, q) ∷ ps) above rising synced = (
        keep-Threads j q q.threads (ground arith) synced.0,
        above-Synced (suc j) ps (ground arith) rising.1 synced.1,
      )

      insert-Synced :
          (n : ℕ) (ps : Processes)
          → Rising n ps
          → lookup k ps ≡ some p
          → p'.threads ≡ p.threads
          → Synced ps st
          → Synced (insert k p' ps) st'
      unfolding lookup insert
      insert-Synced n [] rising here kept synced = cc
      insert-Synced n ((j, q) ∷ ps) rising here kept synced = elim (Bool-cases (j == k)) [
        | inl e ↦ rw e (
          subst (λ tids. Threads k p' st' tids) (sym kept) (turn-Threads p.threads (λ t h. h) own),
          above-Synced (suc j) ps (ground arith) rising.1 synced.1,
        )
        | inr e ↦ elim (Bool-cases (ltb k j)) [
          | inl lt ↦
              let gone : lookup k ps ≡ none = lookup_below (suc j) k ps rising.1 (ground arith) in
              absurd (ground arith)
          | inr ge ↦
              rw (e, ge)
                (
                  keep-Threads j q q.threads e synced.0,
                  insert-Synced (suc j) ps rising.1 (ground arith) kept synced.1,
                )
        ]
      ]

  lookup-Threads :
      (k : ℕ) (p : Process) (ps : Processes) (st : Store)
      → Synced ps st
      → lookup k ps ≡ some p
      → Threads k p st p.threads
  unfolding lookup
  lookup-Threads k p [] st synced here = cc
  lookup-Threads k p ((j, q) ∷ ps) st synced here = elim (Bool-cases (j == k)) [
    | inl e ↦
        let same : q ≡ p = ground arith in
        subst (λ r. Threads k r st r.threads) same
          (subst (λ i. Threads i q st q.threads) ((==_iff j k).0 e) synced.0)
    | inr e ↦ lookup-Threads k p ps st synced.1 (ground arith)
  ]

  -- One walk after a change of the triplets.
  pub stamp-Synced :
      (f : Thread → Thread) (k : ℕ) (p p' : Process) (ps : Processes) (st : Store)
      → ((t : Thread) → f (f t) ≡ f t)
      → ((t : Thread) → Carries k p t → Carries k p' (f t))
      → IsSorted ps
      → lookup k ps ≡ some p
      → p'.threads ≡ p.threads
      → Synced ps st
      → Synced (insert k p' ps) (stamp f m p'.threads st)
  stamp-Synced f k p p' ps st twice turns sorted here kept synced =
      let st' = stamp f m p'.threads st in
      let walk : (q : ℕ) → st' q ≡ (if reaches p.threads q then f (st q) else st q) = λ q.
        subst (λ tids. stamp f m tids st q ≡ (if reaches p.threads q then f (st q) else st q))
          (sym kept) (stamp_lem f p.threads st q twice) in
      insert-Synced k p p' st st'
        (λ q met c. subst (λ t. Carries k p' t) (sym (walk q ∙ rw met refl)) (turns (st q) c))
        (λ q not_met. walk q ∙ rw not_met refl) (lookup-Threads k p ps st synced here) 0 ps sorted
        here kept synced

  -- A process whose triplets and threads stay.
  pub same-Synced :
      (k : ℕ) (p p' : Process) (ps : Processes) (st : Store)
      → ((t : Thread) → Carries k p t → Carries k p' t)
      → IsSorted ps
      → lookup k ps ≡ some p
      → p'.threads ≡ p.threads
      → Synced ps st
      → Synced (insert k p' ps) st
  same-Synced k p p' ps st turns sorted here kept synced =
      insert-Synced k p p' st st (λ q met c. turns (st q) c) (λ q not_met. refl)
        (lookup-Threads k p ps st synced here) 0 ps sorted here kept synced
