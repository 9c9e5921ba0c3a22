-- ===== src/PageCache/Invariant.antt =====
-- The invariant of kmain/src/kernel/page_cache.rs: the `lru` deque holds exactly the Ready keys, each
-- once. And how often the pool and the slots hold a frame.
use orbit.Base.{
  mem, Distinct, ℕ, ◌+◌, ◌≡◌, refl, sym, ap, subst, ◌∙◌, ◌⊎◌, inl, inr, Bool, true, false, ◌==◌,
  ◌||◌, if◌then◌else◌, List, [], ◌∷◌, ◌++◌, map, Option, none, some, arith, Bool-cases, done,
  ==_iff,
}
use orbit.Base.Map.{
  lookup, remove, total, weight, IsSorted, lookup-remove, remove-Rising, total-remove,
}
use orbit.PageCache.{
  CacheKey, rank, SlotState, loading, ready, frame_of, PageCache, Result, ok, err, exhausted,
  is_ready, pop_back, without_victim, count_exhausted, evict, acquire_from, acquire_frame,
}

abbrev pub Entries : Type 0
Entries = List (ℕ × SlotState)

abbrev pub ranks : List CacheKey → List ℕ
ranks ks = map rank ks

pub record Inv (c : PageCache) : Type 0 where
  pub sorted : IsSorted c.entries
  pub distinct : Distinct (ranks c.lru)
  pub exact : (x : ℕ) → mem x (ranks c.lru) ≡ is_ready (lookup x c.entries)

-- How often the pool and the slots hold a frame.
abbrev pub hit : ℕ → ℕ → ℕ
hit f g = if g == f then 1 else 0

abbrev pub count_in : ℕ → List ℕ → ℕ
count_in f [] = 0
count_in f (g ∷ gs) = hit f g + count_in f gs

abbrev pub held : ℕ → PageCache → ℕ
held f c = count_in f c.pool + total (λ s. hit f (frame_of s)) c.entries

pop_back-cases :
    (ks : List CacheKey)
    → ((pop_back ks ≡ none) × (ks ≡ []))
      ⊎ ((k : CacheKey) × (rest : List CacheKey) × (pop_back ks ≡ some (k, rest))
          × (ks ≡ rest ++ (k ∷ [])))
pop_back-cases [] = inl (refl, refl)
pop_back-cases (k ∷ ks) = elim (pop_back-cases ks) [
  | inl (e, nil) ↦ inr (k, [], rw e refl, ap (◌∷◌ k) nil)
  | inr (l, rest, e, whole) ↦ inr (l, k ∷ rest, rw e refl, ap (◌∷◌ k) whole)
]

last-Distinct :
    (rest : List CacheKey) (k : CacheKey)
    → Distinct (ranks (rest ++ (k ∷ [])))
    → Distinct (ranks rest) × (mem (rank k) (ranks rest) ≡ false)
last-Distinct [] k d = (tt, refl)
last-Distinct (r ∷ rest) k d =
    let more = last-Distinct rest k (d.1) in
    (((not_front rest (d.0)).0, more.0), ground (arith, not_front rest (d.0), more.1))
  where
    not_front :
        (qs : List CacheKey)
        → mem (rank r) (ranks (qs ++ (k ∷ []))) ≡ false
        → (mem (rank r) (ranks qs) ≡ false) × ((rank k == rank r) ≡ false)
    not_front [] h = (refl, ground arith)
    not_front (q ∷ qs) h = let t = not_front qs (ground arith) in (ground (arith, t.0), t.1)

mem-last :
    (x : ℕ) (rest : List CacheKey) (k : CacheKey)
    → mem x (ranks (rest ++ (k ∷ []))) ≡ (mem x (ranks rest) || rank k == x)
mem-last x [] k = ground arith
mem-last x (r ∷ rest) k = ground (arith, mem-last x rest k)

abbrev pub taken : ℕ → Result ℕ → ℕ
taken f (ok g) = hit f g
taken f (err e) = 0

-- A frame was taken from the pool or from a slot, or there is none; no slot appeared.
pub record Acquired (c : PageCache) (r : Result ℕ) (c' : PageCache) : Type 0 where
  pub inv : Inv c'
  pub absent : (x : ℕ) → lookup x c.entries ≡ none → lookup x c'.entries ≡ none
  pub owned : (f : ℕ) → held f c' + taken f r ≡ held f c

ready-cases :
    (o : Option SlotState) → is_ready o ≡ true → (f : ℕ) × (n : ℕ) × (o ≡ some (ready f n))
ready-cases none h = absurd (clash h)
  where
    clash : false ≡ true → ⊥
    clash p = cc
ready-cases (some (loading f n ws)) h = absurd (clash h)
  where
    clash : false ≡ true → ⊥
    clash p = cc
ready-cases (some (ready f n)) h = (f, n, refl)

evict_lem :
    (c : PageCache) (key : CacheKey) (rest : List CacheKey)
    → Inv c
    → c.lru ≡ rest ++ (key ∷ [])
    → (r : Result ℕ) × (c' : PageCache) × (evict c key rest ≡ done (r, c')) × Acquired c r c'
evict_lem c key rest inv whole =
    let d = last-Distinct rest key (subst (λ l. Distinct (ranks l)) whole inv.distinct) in
    let same : (x : ℕ) → (mem x (ranks rest) || rank key == x) ≡ is_ready (lookup x c.entries) =
      λ x. sym (mem-last x rest key) ∙ ap (λ l. mem x (ranks l)) (sym whole) ∙ inv.exact x in
    let victim : is_ready (lookup (rank key) c.entries) ≡ true =
      sym (same (rank key)) ∙ ground arith in
    let (f, n, found) = ready-cases (lookup (rank key) c.entries) victim in
    let weigh = λ (w : SlotState → ℕ).
      subst (λ o. total w (remove (rank key) c.entries) + weight w o ≡ total w c.entries) found
        (total-remove w (rank key) c.entries) in
    (
      ok f,
      without_victim c key rest,
      rw (evict, found) refl,
      record {
        inv = record {
          sorted = remove-Rising 0 (rank key) c.entries inv.sorted;
          distinct = d.0;
          exact = λ x.
              still x (same x)
              ∙ sym (ap is_ready (lookup-remove 0 (rank key) x c.entries inv.sorted));
        };
        absent = λ x h. lookup-remove 0 (rank key) x c.entries inv.sorted ∙ gone (rank key == x) h;
        owned = λ g. omega (arith, weigh (λ s. hit g (frame_of s)));
      },
    )
  where
    or_false : (a b : Bool) → b ≡ false → a ≡ (a || b)
    or_false true b h = refl
    or_false false b h = sym h

    still :
        (x : ℕ)
        → (mem x (ranks rest) || rank key == x) ≡ is_ready (lookup x c.entries)
        → mem x (ranks rest) ≡ is_ready (if rank key == x then none else lookup x c.entries)
    still x h = elim (Bool-cases (rank key == x)) [
      | inl e ↦
          let out = last-Distinct rest key (subst (λ l. Distinct (ranks l)) whole inv.distinct) in
          rw e (subst (λ y. mem y (ranks rest) ≡ false) ((==_iff (rank key) x).0 e) (out.1))
      | inr e ↦ rw e (or_false (mem x (ranks rest)) (rank key == x) e ∙ h)
    ]

    gone : (b : Bool) {o : Option SlotState} → o ≡ none → (if b then none else o) ≡ none
    gone true h = refl
    gone false h = h

pub acquire_frame_lem :
    (c : PageCache)
    → Inv c
    → (r : Result ℕ) × (c' : PageCache) × (acquire_frame c ≡ done (r, c')) × Acquired c r c'
unfolding acquire_frame
acquire_frame_lem c inv = by_pool c.pool refl
  where
    nothing : pop_back c.lru ≡ none → acquire_from c [] ≡ done (err exhausted, count_exhausted c)
    nothing p = rw (acquire_from, p) refl

    victim :
        (key : CacheKey) (rest : List CacheKey)
        → pop_back c.lru ≡ some (key, rest)
        → acquire_from c [] ≡ evict c key rest
    victim key rest p = rw (acquire_from, p) refl

    by_pool :
        (pool : List ℕ)
        → c.pool ≡ pool
        → (r : Result ℕ) × (c' : PageCache) × (acquire_frame c ≡ done (r, c')) × Acquired c r c'
    by_pool (f ∷ pool) e = (
      ok f,
      record c { pool = pool },
      ap (acquire_from c) e,
      record {
        inv = record { sorted = inv.sorted; distinct = inv.distinct; exact = inv.exact };
        absent = λ x h. h;
        owned = λ g. omega (arith, ap (count_in g) e);
      },
    )
    by_pool [] e = elim (pop_back-cases c.lru) [
      | inl (p, nil) ↦ (
        err exhausted,
        count_exhausted c,
        ap (acquire_from c) e ∙ nothing p,
        record {
          inv = record { sorted = inv.sorted; distinct = inv.distinct; exact = inv.exact };
          absent = λ x h. h;
          owned = λ g. omega arith;
        },
      )
      | inr (key, rest, p, whole) ↦
          let (r, c', v, a) = evict_lem c key rest inv whole in
          (r, c', ap (acquire_from c) e ∙ victim key rest p ∙ v, a)
    ]
