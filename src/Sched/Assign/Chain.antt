-- ===== src/Sched/Assign/Chain.antt =====
-- How the world of orbit-core/src/sched.rs changes while threads leave the queue for harts.
use orbit.Base.{
  mem, Distinct, ℕ, ◌≡◌, ◌⊎◌, refl, sym, ap, ◌∙◌, true, false, ◌==◌, ◌||◌, List, [], ◌∷◌, ◌++◌,
  append_assoc, arith, All, All-append, subst, ==_iff, Bool-cases, inl, inr,
}
use orbit.Thread.{Thread, as_usize, assigned}
use orbit.Store.{Store, update, dispatchable, QueueOk}
use orbit.Sched.{World}

-- From `w` to `w'`, the threads of `l` have left the queue for harts: they and the queue that is left
-- are all different and were all queued, only queued threads changed, and no affinity did.
pub record Serves (w : World) (l : List ℕ) (w' : World) : Type 0 where
  pub ok : QueueOk w'.threads w'.queue
  pub distinct : Distinct (l ++ w'.queue)
  pub from : All (λ q. mem q w.queue ≡ true) (l ++ w'.queue)
  pub frame : (q : ℕ) → (mem q w.queue ≡ true) ⊎ (w'.threads q ≡ w.threads q)
  pub affinity : (q : ℕ) → (w'.threads q).affinity ≡ (w.threads q).affinity
  pub placed : All (λ p. (w'.threads p).state ≡ as_usize assigned) l

pub unserved :
    (w w' : World) (l : List ℕ)
    → Serves w l w'
    → (q : ℕ) → mem q w.queue ≡ false
    → w'.threads q ≡ w.threads q
unserved w w' l s q h = elim (s.frame q) [ inl m ↦ absurd (ground (arith, m)) | inr e ↦ e ]

pub All-mem :
    (qs rs : List ℕ) → ((q : ℕ) → mem q qs ≡ true → mem q rs ≡ true) → All (λ q. mem q rs ≡ true) qs
All-mem [] rs h = tt
All-mem (q ∷ qs) rs h = (h q (ground arith), All-mem qs rs (λ r m. h r (ground (arith, m))))

pub not_mem_of_All :
    (p : ℕ) (qs rs : List ℕ) → All (λ q. mem q rs ≡ true) qs → mem p rs ≡ false → mem p qs ≡ false
not_mem_of_All p [] rs a h = refl
not_mem_of_All p (q ∷ qs) rs a h = elim (Bool-cases (q == p)) [
  | inl e ↦ let same : q ≡ p = (==_iff q p).0 e in absurd (ground (arith, ap (λ x. mem x rs) same))
  | inr e ↦ rw (e, not_mem_of_All p qs rs (a.1) h) refl
]

pub Serves-refl : (w : World) → QueueOk w.threads w.queue → Serves w [] w
Serves-refl w ok = record {
  ok = ok;
  distinct = ok.distinct;
  from = All-mem w.queue w.queue (λ q h. h);
  frame = λ q. inr refl;
  affinity = λ q. refl;
  placed = tt;
}

mem-append : (p : ℕ) (xs ys : List ℕ) → mem p (xs ++ ys) ≡ (mem p xs || mem p ys)
mem-append p [] ys = refl
mem-append p (x ∷ xs) ys = ground (arith, mem-append p xs ys)

-- A distinct tail drawn from the old one may replace it.
Distinct-splice :
    (l xs ys : List ℕ)
    → Distinct (l ++ xs)
    → Distinct ys
    → All (λ q. mem q xs ≡ true) ys
    → Distinct (l ++ ys)
Distinct-splice [] xs ys d e a = e
Distinct-splice (p ∷ l) xs ys d e a = (
  ground (arith, mem-append p l xs, mem-append p l ys, not_mem_of_All p ys xs a),
  Distinct-splice l xs ys (d.1) e a,
)

pub All-prefix : (P : ℕ → Type 0) (xs ys : List ℕ) → All P (xs ++ ys) → All P xs × All P ys
All-prefix P [] ys a = (tt, a)
All-prefix P (x ∷ xs) ys a = let rest = All-prefix P xs ys (a.1) in ((a.0, rest.0), rest.1)

pub mem_through :
    (q : ℕ) (rs ss : List ℕ) → All (λ q. mem q ss ≡ true) rs → mem q rs ≡ true → mem q ss ≡ true
mem_through q [] ss a h = absurd (ground (arith, h))
mem_through q (r ∷ rs) ss a h = elim (Bool-cases (r == q)) [
  | inl e ↦ let same : r ≡ q = (==_iff r q).0 e in subst (λ x. mem x ss ≡ true) same (a.0)
  | inr e ↦ mem_through q rs ss (a.1) (ground arith)
]

All-through :
    (qs rs ss : List ℕ)
    → All (λ q. mem q rs ≡ true) qs
    → All (λ q. mem q ss ≡ true) rs
    → All (λ q. mem q ss ≡ true) qs
All-through [] rs ss a b = tt
All-through (q ∷ qs) rs ss a b = (mem_through q rs ss b (a.0), All-through qs rs ss (a.1) b)

placed_still :
    (before after : Store) (queue l : List ℕ)
    → ((q : ℕ) → mem q queue ≡ false → after q ≡ before q)
    → Distinct (l ++ queue)
    → All (λ p. (before p).state ≡ as_usize assigned) l
    → All (λ p. (after p).state ≡ as_usize assigned) l
placed_still before after queue [] frame d a = tt
placed_still before after queue (p ∷ l) frame d a = (
  ap (λ t. t.state) (frame p (ground (arith, mem-append p l queue))) ∙ a.0,
  placed_still before after queue l frame (d.1) (a.1),
)

pub Serves-trans :
    (w w' w'' : World) (l l' : List ℕ) → Serves w l w' → Serves w' l' w'' → Serves w (l ++ l') w''
Serves-trans w w' w'' l l' s s' =
    let parts = All-prefix (λ q. mem q w.queue ≡ true) l w'.queue s.from in
    record {
      ok = s'.ok;
      distinct =
          subst Distinct (sym (append_assoc l l' w''.queue))
            (Distinct-splice l w'.queue (l' ++ w''.queue) s.distinct s'.distinct s'.from);
      from = subst (All (λ q. mem q w.queue ≡ true)) (sym (append_assoc l l' w''.queue)) (
          All-append (λ q. mem q w.queue ≡ true) l (l' ++ w''.queue) (parts.0)
            (All-through (l' ++ w''.queue) w'.queue w.queue s'.from (parts.1)));
      frame = λ q. elim (Bool-cases (mem q w.queue)) [
        | inl h ↦ inl h
        | inr h ↦ inr (
            unserved w' w'' l' s' q (not_mem_of_All q w'.queue w.queue (parts.1) h)
            ∙ unserved w w' l s q h)
      ];
      affinity = λ q. s'.affinity q ∙ s.affinity q;
      placed =
          All-append (λ p. (w''.threads p).state ≡ as_usize assigned) l l'
            (placed_still w'.threads w''.threads w'.queue l (unserved w' w'' l' s') s.distinct
              s.placed)
            s'.placed;
    }

-- Taking one element out of the middle.
pub All-pull :
    (P : ℕ → Type 0) (xs ys : List ℕ) (p : ℕ) → All P (xs ++ (p ∷ ys)) → P p × All P (xs ++ ys)
All-pull P [] ys p a = a
All-pull P (x ∷ xs) ys p a = let r = All-pull P xs ys p (a.1) in (r.0, (a.0, r.1))

pub mem-pull : (q p : ℕ) (xs ys : List ℕ) → mem q (xs ++ (p ∷ ys)) ≡ (mem q (xs ++ ys) || p == q)
mem-pull q p [] ys = ground arith
mem-pull q p (x ∷ xs) ys = ground (arith, mem-pull q p xs ys)

pub Distinct-pull : (xs ys : List ℕ) (p : ℕ) → Distinct (xs ++ (p ∷ ys)) → Distinct (p ∷ (xs ++ ys))
Distinct-pull [] ys p d = d
Distinct-pull (x ∷ xs) ys p d =
    let r = Distinct-pull xs ys p (d.1) in
    (ground (arith, mem-pull x p xs ys), (ground (arith, mem-pull x p xs ys), r.1))

-- A queue that lost one thread, which alone changed.
pub pulled-QueueOk :
    (st : Store) (xs ys : List ℕ) (p : ℕ) (t : Thread)
    → QueueOk st (xs ++ (p ∷ ys))
    → QueueOk (update st p t) (xs ++ ys)
pulled-QueueOk st xs ys p t ok =
    let d = Distinct-pull xs ys p ok.distinct in
    record {
      each =
          others (xs ++ ys) ((All-pull (λ q. dispatchable (st q).state ≡ true) xs ys p ok.each).1)
            (d.0);
      distinct = d.1;
    }
  where
    others :
        (qs : List ℕ)
        → All (λ q. dispatchable (st q).state ≡ true) qs
        → mem p qs ≡ false
        → All (λ q. dispatchable (update st p t q).state ≡ true) qs
    others [] a h = tt
    others (q ∷ qs) a h = (ground (arith, a.0), others qs (a.1) (ground arith))

-- The thread that left: it went to a hart, or (killed while it was queued) nowhere.
pub pulled-Serves :
    (st : Store) (xs ys : List ℕ) (ws : List ℕ) (p : ℕ) (t : Thread) (l : List ℕ)
    → QueueOk st (xs ++ (p ∷ ys))
    → t.affinity ≡ (st p).affinity
    → ((l ≡ p ∷ []) × (t.state ≡ as_usize assigned)) ⊎ (l ≡ [])
    → Serves
        (record { threads = st; queue = xs ++ (p ∷ ys); wakes = ws })
        l
        (record { threads = update st p t; queue = xs ++ ys; wakes = ws })
pulled-Serves st xs ys ws p t l ok aff h =
    let d = Distinct-pull xs ys p ok.distinct in
    let there : All (λ q. mem q (xs ++ (p ∷ ys)) ≡ true) (p ∷ (xs ++ ys)) =
      All-mem (p ∷ (xs ++ ys)) (xs ++ (p ∷ ys)) (λ q m. ground (arith, mem-pull q p xs ys)) in
    record {
      ok = pulled-QueueOk st xs ys p t ok;
      distinct = elim h [ inl (e, _) ↦ rw e d | inr e ↦ rw e (d.1) ];
      from = elim h [ inl (e, _) ↦ rw e there | inr e ↦ rw e (there.1) ];
      frame = λ q. elim (Bool-cases (p == q)) [
        | inl e ↦ inl (ground (arith, mem-pull q p xs ys))
        | inr e ↦ inr (rw e refl)
      ];
      affinity = λ q. elim (Bool-cases (p == q)) [
        | inl e ↦ let same : p ≡ q = (==_iff p q).0 e in rw e (aff ∙ ap (λ r. (st r).affinity) same)
        | inr e ↦ rw e refl
      ];
      placed = elim h [ inl (e, a) ↦ rw e (ground (arith, a), tt) | inr e ↦ rw e tt ];
    }
