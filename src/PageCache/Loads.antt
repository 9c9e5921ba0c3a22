-- ===== src/PageCache/Loads.antt =====
-- How a load of kmain/src/kernel/page_cache.rs begins, over the invariant of the cache.
use orbit.Base.{
  mem, Distinct, ℕ, ◌+◌, ◌≡◌, refl, sym, ap, subst, ◌∙◌, inl, inr, Bool, true, false, ◌==◌,
  if◌then◌else◌, List, [], ◌∷◌, Option, none, some, arith, Bool-cases, Option-cases, Run, done,
  ◌>>=◌, ==_iff, ==_refl,
}
use orbit.Base.Map.{
  IsSorted, lookup, insert, contains_key, total, weight, lookup-insert, insert-Rising, total-insert,
}
use orbit.PageCache.{
  CacheKey, rank, Waiter, SlotState, loading, frame_of, PageCache, Result, ok, err, is_ready, find,
  acquire_frame, start_load, begin_load, already_present,
}
use orbit.PageCache.Invariant.{Inv, ranks, hit, held, Acquired, acquire_frame_lem}

-- What every operation promises: the invariant, and each frame in as many places as before.
pub record Keeps (c c' : PageCache) : Type 0 where
  pub inv : Inv c'
  pub owned : (f : ℕ) → held f c' ≡ held f c

abbrev pub frame_weight : ℕ → SlotState → ℕ
frame_weight f s = hit f (frame_of s)

-- A slot that is not Ready replaces one that is not Ready, or none.
pub insert-Inv :
    (c : PageCache) (key : CacheKey) (f n : ℕ) (ws : List Waiter)
    → Inv c
    → is_ready (lookup (rank key) c.entries) ≡ false
    → Inv (record c { entries = insert (rank key) (loading f n ws) c.entries })
insert-Inv c key f n ws inv h = record {
  sorted = insert-Rising 0 (rank key) (loading f n ws) c.entries (omega arith) inv.sorted;
  distinct = inv.distinct;
  exact = λ x.
      inv.exact x
      ∙ same x
      ∙ sym (ap is_ready (lookup-insert (rank key) x (loading f n ws) c.entries));
}
  where
    same :
        (x : ℕ)
        → is_ready (lookup x c.entries)
          ≡ is_ready (if rank key == x then some (loading f n ws) else lookup x c.entries)
    same x = elim (Bool-cases (rank key == x)) [
      | inl e ↦
          rw e (subst (λ y. is_ready (lookup y c.entries) ≡ false) ((==_iff (rank key) x).0 e) h)
      | inr e ↦ rw e refl
    ]

-- Only the counters differ.
pub restat : (c c' : PageCache) → c.entries ≡ c'.entries → c.lru ≡ c'.lru → Inv c → Inv c'
restat c c' e l inv = record {
  sorted = subst (λ m. IsSorted m) e inv.sorted;
  distinct = subst (λ k. Distinct (ranks k)) l inv.distinct;
  exact = λ x.
      subst (λ k. mem x (ranks k) ≡ is_ready (lookup x c'.entries)) l
        (subst (λ m. mem x (ranks c.lru) ≡ is_ready (lookup x m)) e (inv.exact x));
}

-- What a load leaves: a new Loading slot with the frame that was answered, or an error.
abbrev pub Began : PageCache → CacheKey → ℕ → Waiter → Result ℕ → PageCache → Type 0
Began c key n w (ok pa) c' = (find c key ≡ none) × (find c' key ≡ some (loading pa n (w ∷ [])))
Began c key n w (err e) c' = Unit

-- Over the invariant `begin_load` never panics: the eviction's `expect` and `unreachable!` are not
-- reached. The invariant holds afterwards and each frame is in as many places as before; if a frame was
-- answered, the key had no slot and has a Loading one now, with that frame and this one waiter.
pub begin_load_lem :
    (c : PageCache) (key : CacheKey) (n : ℕ) (w : Waiter)
    → Inv c
    → (r : Result ℕ) × (c' : PageCache) × (begin_load c key n w ≡ done (r, c'))
      × Keeps c c'
      × Began c key n w r c'
unfolding begin_load acquire_frame find
begin_load_lem c key n w inv = elim (Option-cases (lookup (rank key) c.entries)) [
  | inr (s, here) ↦ (
    err already_present,
    c,
    if_true (contains_key (rank key) c.entries) (done (err already_present, c)) fallback
        (ap is_some here),
    record { inv = inv; owned = λ f. refl },
    tt,
  )
  | inl absent ↦
      let (r, c', e, a) = acquire_frame_lem c inv in
      let unseen : begin_load c key n w ≡ (acquire_frame c >>= λ r. done (start_load key n w r)) =
        if_false (contains_key (rank key) c.entries) (done (err already_present, c)) fallback
          (ap is_some absent) in
      from_frame absent unseen r c' e a
]
  where
    fallback : Run (Result ℕ × PageCache)
    fallback = acquire_frame c >>= λ r. done (start_load key n w r)

    is_some : Option SlotState → Bool
    is_some o = elim o [ none ↦ false | some _ ↦ true ]

    if_true : (b : Bool) (x y : Run (Result ℕ × PageCache)) → b ≡ true → (if b then x else y) ≡ x
    if_true b x y h = rw h refl

    if_false : (b : Bool) (x y : Run (Result ℕ × PageCache)) → b ≡ false → (if b then x else y) ≡ y
    if_false b x y h = rw h refl

    from_frame :
        lookup (rank key) c.entries ≡ none
        → begin_load c key n w ≡ (acquire_frame c >>= λ r. done (start_load key n w r))
        → (r : Result ℕ) (c' : PageCache) → acquire_frame c ≡ done (r, c')
        → Acquired c r c'
        → (r : Result ℕ) × (c' : PageCache) × (begin_load c key n w ≡ done (r, c'))
          × Keeps c c'
          × Began c key n w r c'
    from_frame absent unseen (err x) c' e a = (
      err x,
      c',
      unseen ∙ ap (λ q. q >>= λ r. done (start_load key n w r)) e,
      record { inv = a.inv; owned = λ f. omega (arith, a.owned f) },
      tt,
    )
    from_frame absent unseen (ok pa) c' e a =
        let free : lookup (rank key) c'.entries ≡ none = a.absent (rank key) absent in
        let next = start_load key n w (ok pa, c') in
        (
          ok pa,
          next.1,
          unseen ∙ ap (λ q. q >>= λ r. done (start_load key n w r)) e,
          record {
            inv =
                restat
                  (record c' { entries = insert (rank key) (loading pa n (w ∷ [])) c'.entries })
                  (next.1) refl refl (insert-Inv c' key pa n (w ∷ []) a.inv (ap is_ready free));
            owned = λ f. omega (
              arith,
              a.owned f,
              subst
                  (λ o.
                    total (frame_weight f) (insert (rank key) (loading pa n (w ∷ [])) c'.entries)
                      + weight (frame_weight f) o
                    ≡ total (frame_weight f) c'.entries + hit f pa)
                  free
                  (total-insert (frame_weight f) 0 (rank key) (loading pa n (w ∷ [])) c'.entries
                    a.inv.sorted),
            );
          },
          (
            absent,
            lookup-insert (rank key) (rank key) (loading pa n (w ∷ [])) c'.entries
                ∙ rw (==_refl (rank key)) refl,
          ),
        )
