-- ===== src/PageCache/Hits.antt =====
-- Readers of kmain/src/kernel/page_cache.rs that find a slot: they join a load, or hit a Ready page.
use orbit.Base.{
  mem, Distinct, ℕ, ◌+◌, ◌≡◌, refl, sym, ap, subst, ◌∙◌, inl, inr, Bool, true, false, ◌==◌, ◌||◌,
  List, [], ◌∷◌, ◌++◌, Option, none, some, arith, Bool-cases, ==_iff, ==_refl,
}
use orbit.Base.Map.{lookup, insert, total, weight, lookup-insert, total-insert}
use orbit.PageCache.{
  CacheKey, rank, Waiter, SlotState, loading, ready, PageCache, is_ready, find, drop_key, touch_lru,
  register_waiter,
}
use orbit.PageCache.Invariant.{Inv, ranks, hit}
use orbit.PageCache.Loads.{Keeps, frame_weight, insert-Inv, restat}

-- The slot after a waiter has joined.
abbrev pub joined : Waiter → Option SlotState → Option SlotState
joined w none = none
joined w (some (loading f n ws)) = some (loading f n (ws ++ (w ∷ [])))
joined w (some (ready f n)) = some (ready f n)

-- Over the invariant a waiter that joins a Loading slot comes last, and any other slot stays as it is.
-- The invariant holds afterwards, and each frame is in as many places as before.
register_waiter_lem :
    (c : PageCache) (key : CacheKey) (w : Waiter)
    → Inv c
    → let r = register_waiter c key w in Keeps c (r.1) × (find (r.1) key ≡ joined w (find c key))
unfolding register_waiter find
register_waiter_lem c key w inv = by_slot (lookup (rank key) c.entries) refl
  where
    by_slot :
        (o : Option SlotState)
        → lookup (rank key) c.entries ≡ o
        → let r = register_waiter c key w in
          Keeps c (r.1) × (lookup (rank key) r.1.entries ≡ joined w (lookup (rank key) c.entries))
    by_slot none e = rw (register_waiter, e) (record { inv = inv; owned = λ f. refl }, e)
    by_slot (some (ready f n)) e =
        rw (register_waiter, e) (record { inv = inv; owned = λ f. refl }, e)
    by_slot (some (loading f n ws)) e =
        rw (register_waiter, e)
          (
            record {
              inv =
                  restat
                    (record c {
                      entries = insert (rank key) (loading f n (ws ++ (w ∷ []))) c.entries;
                    })
                    _ refl refl (insert-Inv c key f n (ws ++ (w ∷ [])) inv (ap is_ready e));
              owned = λ g. omega (
                arith,
                subst
                    (λ o.
                      total (frame_weight g)
                          (insert (rank key) (loading f n (ws ++ (w ∷ []))) c.entries)
                        + weight (frame_weight g) o
                      ≡ total (frame_weight g) c.entries + hit g f)
                    e
                    (total-insert (frame_weight g) 0 (rank key) (loading f n (ws ++ (w ∷ [])))
                      c.entries inv.sorted),
              );
            },
            lookup-insert (rank key) (rank key) (loading f n (ws ++ (w ∷ []))) c.entries
                ∙ rw (==_refl (rank key)) refl,
          )

mem-drop_key :
    (key : CacheKey) (ks : List CacheKey) (x : ℕ)
    → Distinct (ranks ks)
    → mem (rank key) (ranks ks) ≡ true
    → (mem x (ranks (key ∷ drop_key key ks)) ≡ mem x (ranks ks))
      × Distinct (ranks (key ∷ drop_key key ks))
mem-drop_key key [] x d h = absurd (ground (arith, h))
mem-drop_key key (k ∷ ks) x d h = elim (Bool-cases (rank k == rank key)) [
  | inl e ↦
      let same : rank k ≡ rank key = (==_iff (rank k) (rank key)).0 e in
      rw e (
        ap (λ r. r == x || mem x (ranks ks)) (sym same),
        (subst (λ r. mem r (ranks ks) ≡ false) same (d.0), d.1),
      )
  | inr e ↦
      let rest : mem (rank key) (ranks ks) ≡ true = rw e at h in
      let at_x = mem-drop_key key ks x (d.1) rest in
      let at_k = mem-drop_key key ks (rank k) (d.1) rest in
      rw e (
        swap (rank key == x) (rank k == x) _ ∙ ap (λ b. rank k == x || b) (at_x.0),
        (rw e (at_x.1.0), (or_right (rank key == rank k) _ (at_k.0 ∙ d.0), at_x.1.1)),
      )
]
  where
    swap : (a b c : Bool) → (a || (b || c)) ≡ (b || (a || c))
    swap true true c = refl
    swap true false c = refl
    swap false b c = refl

    or_right : (a b : Bool) → (a || b) ≡ false → b ≡ false
    or_right true b h = absurd (ground (arith, h))
    or_right false b h = h

-- Over the invariant a hit moves a Ready key to the front of the deque and leaves any other key out of
-- it: no slot changes, the deque holds the same keys, and the invariant holds.
touch_lru_lem :
    (c : PageCache) (key : CacheKey)
    → Inv c
    → let c' = touch_lru c key in
      Keeps c c' × (c'.entries ≡ c.entries) × ((x : ℕ) → mem x (ranks c'.lru) ≡ mem x (ranks c.lru))
unfolding touch_lru
touch_lru_lem c key inv = elim (Bool-cases (is_ready (lookup (rank key) c.entries))) [
  | inr no_slot ↦ rw (touch_lru, no_slot) (record { inv = inv; owned = λ f. refl }, refl, λ x. refl)
  | inl hit_slot ↦
      let here : mem (rank key) (ranks c.lru) ≡ true = inv.exact (rank key) ∙ hit_slot in
      let same = λ (x : ℕ). mem-drop_key key c.lru x inv.distinct here in
      rw (touch_lru, hit_slot)
        (
          record {
            inv = record {
              sorted = inv.sorted;
              distinct = (same 0).1;
              exact = λ x. (same x).0 ∙ inv.exact x;
            };
            owned = λ f. refl;
          },
          refl,
          λ x. (same x).0,
        )
]
