-- ===== src/Sched/Assign/Harts.antt =====
-- How each hart of orbit-core/src/sched.rs fares between two worlds.
use orbit.Base.{
  mem, ℕ, ◌≡◌, refl, ap, subst, ◌∙◌, ◌⊎◌, inl, inr, Bool, true, false, not, ◌==◌, if◌then◌else◌,
  List, [], ◌∷◌, ◌++◌, Option, none, some, arith, All, bit_and, Bool-cases, ==_iff,
}
use orbit.Thread.{as_usize, exited}
use orbit.ReadyQueue.{permits}
use orbit.Sched.{HartView, affinity_bit, is_busy, World}
use orbit.Sched.Assign.Chain.{unserved, mem_through, All-prefix, not_mem_of_All, Serves}

-- The thread that a hart took between two views of it.
abbrev pub newly : HartView → HartView → List ℕ
newly before after = elim before.current [
  | some _ ↦ []
  | none ↦ elim after.current [ none ↦ [] | some p ↦ p ∷ [] ]
]

abbrev pub newly_all : List HartView → List HartView → List ℕ
newly_all [] after = []
newly_all (v ∷ vs) [] = []
newly_all (v ∷ vs) (v' ∷ vs') = newly v v' ++ newly_all vs vs'

-- Why an idle hart may have taken nothing between two worlds: it may run no thread that is still
-- queued, or the thread that it was given had been killed in the queue.
abbrev pub Starved : World → World → HartView → Type 0
Starved w w' v =
    All (λ q. permits w.threads (affinity_bit v) q ≡ false) w'.queue
    ⊎ ((p : ℕ) × (mem p w.queue ≡ true)
        × (mem p w'.queue ≡ false)
        × ((w'.threads p).state ≡ as_usize exited))

-- A hart between two worlds: a busy one keeps its thread, and an idle one takes a thread that it may
-- run or stays as it is for want of one.
abbrev pub Fits : World → World → HartView → HartView → Type 0
Fits w w' before after =
    ((is_busy before ≡ true) × (after ≡ before))
    ⊎ ((p : ℕ) × (is_busy before ≡ false)
        × (after ≡ record before { current = some p })
        × (permits w.threads (affinity_bit before) p ≡ true))
    ⊎ ((is_busy before ≡ false) × (after ≡ before) × Starved w w' before)

abbrev pub FitsAll : World → World → List HartView → List HartView → Type 0
FitsAll w w' [] [] = Unit
FitsAll w w' (v ∷ vs) (v' ∷ vs') = Fits w w' v v' × FitsAll w w' vs vs'
FitsAll w w' vs vs' = ⊥

pub newly_refl : (v : HartView) → newly v v ≡ []
newly_refl v = same v.current
  where
    same :
        (c : Option ℕ)
        → newly
            (record { hart_id = v.hart_id; current = c })
            (record { hart_id = v.hart_id; current = c })
          ≡ []
    same none = refl
    same (some p) = refl

pub newly-idle :
    (v : HartView) (p : ℕ) → is_busy v ≡ false → newly v (record v { current = some p }) ≡ p ∷ []
newly-idle v p h = taken v.current h
  where
    taken :
        (c : Option ℕ)
        → is_busy (record { hart_id = v.hart_id; current = c }) ≡ false
        → newly
            (record { hart_id = v.hart_id; current = c })
            (record { hart_id = v.hart_id; current = some p })
          ≡ p ∷ []
    taken none h = refl
    taken (some q) h = cc

All-from : (P : ℕ → Type 0) (qs rs : List ℕ) → All (λ q. mem q rs ≡ true) qs → All P rs → All P qs
All-from P [] rs h a = tt
All-from P (q ∷ qs) rs h a = (found rs (h.0) a, All-from P qs rs (h.1) a)
  where
    found : (ss : List ℕ) → mem q ss ≡ true → All P ss → P q
    found [] m a = absurd (ground (arith, m))
    found (r ∷ ss) m a = elim (Bool-cases (r == q)) [
      | inl e ↦ let same : r ≡ q = (==_iff r q).0 e in subst P same (a.0)
      | inr e ↦ found ss (rw e at m) (a.1)
    ]

-- What was queued at the end was queued at the start.
still : (w w' : World) (l : List ℕ) → Serves w l w' → All (λ q. mem q w.queue ≡ true) w'.queue
still w w' l s = (All-prefix (λ q. mem q w.queue ≡ true) l w'.queue s.from).1

-- A hart that fitted fits after more threads have left, and after fewer.
pub Fits-later :
    (w w1 w2 : World) (l : List ℕ) (v v' : HartView)
    → Serves w1 l w2
    → Fits w w1 v v'
    → Fits w w2 v v'
Fits-later w w1 w2 l v v' s (inl busy) = inl busy
Fits-later w w1 w2 l v v' s (inr (inl took)) = inr (inl took)
Fits-later w w1 w2 l v v' s (inr (inr (idle, same, inl unfit))) =
    inr (inr (idle, same, inl (All-from _ w2.queue w1.queue (still w1 w2 l s) unfit)))
Fits-later w w1 w2 l v v' s (inr (inr (idle, same, inr (p, here, gone, dead)))) = inr (
    inr (
      idle,
      same,
      inr (
        p,
        here,
        not_mem_of_All p w2.queue w1.queue (still w1 w2 l s) gone,
        ap (λ t. t.state) (unserved w1 w2 l s p gone) ∙ dead,
      ),
    ))

pub Fits-before :
    (w w1 w2 : World) (l : List ℕ) (v v' : HartView)
    → Serves w l w1
    → Fits w1 w2 v v'
    → Fits w w2 v v'
Fits-before w w1 w2 l v v' s (inl busy) = inl busy
Fits-before w w1 w2 l v v' s (inr (inl (p, idle, same, fits))) = inr (
    inl (
      p,
      idle,
      same,
      subst (λ k. not (bit_and k (affinity_bit v) == 0) ≡ true) (s.affinity p) fits,
    ))
Fits-before w w1 w2 l v v' s (inr (inr (idle, same, inl unfit))) =
    inr (inr (idle, same, inl (each w2.queue unfit)))
  where
    each :
        (ps : List ℕ)
        → All (λ p. permits w1.threads (affinity_bit v) p ≡ false) ps
        → All (λ p. permits w.threads (affinity_bit v) p ≡ false) ps
    each [] a = tt
    each (p ∷ ps) a = (
      subst (λ k. not (bit_and k (affinity_bit v) == 0) ≡ false) (s.affinity p) (a.0),
      each ps (a.1),
    )
Fits-before w w1 w2 l v v' s (inr (inr (idle, same, inr (p, here, gone, dead)))) =
    inr
      (inr (idle, same, inr (p, mem_through p w1.queue w.queue (still w w1 l s) here, gone, dead)))

-- Only the record of interrupts may differ.
pub rung_bell :
    (w w1 : World) (v v' : HartView) (taken : Bool) (ws : List ℕ)
    → Fits w w1 v v'
    → Fits w (if taken then record w1 { wakes = ws } else w1) v v'
rung_bell w w1 v v' true ws f = f
rung_bell w w1 v v' false ws f = f

pub FitsAll-before :
    (w w1 w2 : World) (l : List ℕ) (vs vs' : List HartView)
    → Serves w l w1
    → FitsAll w1 w2 vs vs'
    → FitsAll w w2 vs vs'
FitsAll-before w w1 w2 l [] [] s f = tt
FitsAll-before w w1 w2 l [] (v' ∷ vs') s f = f
FitsAll-before w w1 w2 l (v ∷ vs) [] s f = f
FitsAll-before w w1 w2 l (v ∷ vs) (v' ∷ vs') s f =
    (Fits-before w w1 w2 l v v' s (f.0), FitsAll-before w w1 w2 l vs vs' s (f.1))

pub FitsAll-later :
    (w w1 w2 : World) (l : List ℕ) (vs vs' : List HartView)
    → Serves w1 l w2
    → FitsAll w w1 vs vs'
    → FitsAll w w2 vs vs'
FitsAll-later w w1 w2 l [] [] s f = tt
FitsAll-later w w1 w2 l [] (v' ∷ vs') s f = f
FitsAll-later w w1 w2 l (v ∷ vs) [] s f = f
FitsAll-later w w1 w2 l (v ∷ vs) (v' ∷ vs') s f =
    (Fits-later w w1 w2 l v v' s (f.0), FitsAll-later w w1 w2 l vs vs' s (f.1))
