-- ===== src/PageCache/Settles.antt =====
-- How a load of kmain/src/kernel/page_cache.rs ends: `complete_slot`, with the waiters that were
-- registered meanwhile.
use orbit.Base.{
  mem, ℕ, ◌+◌, ◌≡◌, refl, sym, ap, subst, ◌∙◌, inl, inr, Bool, true, false, ◌==◌, ◌||◌,
  if◌then◌else◌, List, [], ◌∷◌, Option, none, some, arith, Bool-cases,
}
use orbit.Base.Map.{
  lookup, insert, remove, total, weight, lookup-remove, insert-Rising, remove-Rising, total-remove,
}
use orbit.PageCache.Slots.{replaced, same_slot, total-replaced}
use orbit.PageCache.{
  CacheKey, rank, Waiter, SlotState, loading, ready, PageCache, is_ready, find, complete_slot, bump,
}
use orbit.PageCache.Invariant.{Inv, ranks}
use orbit.PageCache.Loads.{Keeps, frame_weight}

abbrev pub waiters_of : Option SlotState → List Waiter
waiters_of none = []
waiters_of (some (loading f n ws)) = ws
waiters_of (some (ready f n)) = []

-- The slot after the read has ended.
abbrev pub settled : ℕ → Option SlotState → Option SlotState
settled status none = none
settled status (some (loading f n ws)) = if status == 0 then some (ready f n) else none
settled status (some (ready f n)) = some (ready f n)

-- What the end of a read promises, for the slot that the key had.
abbrev Settles : PageCache → CacheKey → ℕ → Option SlotState → List Waiter × PageCache → Type 0
Settles c key status o (ws, c') =
    Keeps c c'
    × (ws ≡ waiters_of o)
    × ((j : ℕ)
        → lookup j c'.entries ≡ (if rank key == j then settled status o else lookup j c.entries))

complete_absent :
    (c : PageCache) (key : CacheKey) (status : ℕ)
    → Inv c
    → lookup (rank key) c.entries ≡ none
    → Settles c key status none ([], record c { entries = remove (rank key) c.entries })
complete_absent c key status inv here =
    let slots : (j : ℕ) → lookup j (remove (rank key) c.entries) ≡ lookup j c.entries = λ j.
      lookup-remove 0 (rank key) j c.entries inv.sorted
      ∙ ap (λ o. if rank key == j then o else lookup j c.entries) (sym here)
      ∙ sym (same_slot c.entries (rank key) j) in
    (
      record {
        inv = record {
          sorted = remove-Rising 0 (rank key) c.entries inv.sorted;
          distinct = inv.distinct;
          exact = λ x. inv.exact x ∙ ap is_ready (sym (slots x));
        };
        owned = λ f. omega (
          arith,
          subst
              (λ o.
                total (frame_weight f) (remove (rank key) c.entries) + weight (frame_weight f) o
                ≡ total (frame_weight f) c.entries)
              here (total-remove (frame_weight f) (rank key) c.entries),
        );
      },
      refl,
      λ j. lookup-remove 0 (rank key) j c.entries inv.sorted,
    )

complete_ready :
    (c : PageCache) (key : CacheKey) (status f n : ℕ)
    → Inv c
    → lookup (rank key) c.entries ≡ some (ready f n)
    → Settles c key status
        (some (ready f n))
        ([], record c { entries = insert (rank key) (ready f n) (remove (rank key) c.entries) })
complete_ready c key status f n inv here =
    let slots = λ (j : ℕ). replaced c.entries (rank key) j (ready f n) inv.sorted in
    (
      record {
        inv = record {
          sorted =
              insert-Rising 0 (rank key) (ready f n) (remove (rank key) c.entries) (omega arith)
                (remove-Rising 0 (rank key) c.entries inv.sorted);
          distinct = inv.distinct;
          exact = λ x.
              inv.exact x
              ∙ ap is_ready (
                  same_slot c.entries (rank key) x
                  ∙ ap (λ o. if rank key == x then o else lookup x c.entries) here
                  ∙ sym (slots x));
        };
        owned = λ g. omega (
          arith,
          total-replaced c.entries (frame_weight g) (rank key) (ready f n) (ready f n) inv.sorted
              here,
        );
      },
      refl,
      slots,
    )

loading_out :
    (c : PageCache) (key : CacheKey) (f n : ℕ) (ws : List Waiter)
    → Inv c
    → lookup (rank key) c.entries ≡ some (loading f n ws)
    → mem (rank key) (ranks c.lru) ≡ false
loading_out c key f n ws inv here = inv.exact (rank key) ∙ ap is_ready here

complete_good :
    (c : PageCache) (key : CacheKey) (f n : ℕ) (ws : List Waiter)
    → Inv c
    → lookup (rank key) c.entries ≡ some (loading f n ws)
    → Settles c key 0 (some (loading f n ws)) (
      ws,
      record c {
        entries = insert (rank key) (ready f n) (remove (rank key) c.entries);
        lru = key ∷ c.lru;
      },
    )
complete_good c key f n ws inv here =
    let slots = λ (j : ℕ). replaced c.entries (rank key) j (ready f n) inv.sorted in
    (
      record {
        inv = record {
          sorted =
              insert-Rising 0 (rank key) (ready f n) (remove (rank key) c.entries) (omega arith)
                (remove-Rising 0 (rank key) c.entries inv.sorted);
          distinct = (loading_out c key f n ws inv here, inv.distinct);
          exact = λ x. first (rank key == x) _ _ (inv.exact x) ∙ ap is_ready (sym (slots x));
        };
        owned = λ g. omega (
          arith,
          total-replaced c.entries (frame_weight g) (rank key) (ready f n) (loading f n ws)
              inv.sorted here,
        );
      },
      refl,
      slots,
    )
  where
    first :
        (b m : Bool) (o : Option SlotState)
        → m ≡ is_ready o
        → (b || m) ≡ is_ready (if b then some (ready f n) else o)
    first true m o h = refl
    first false m o h = h

complete_bad :
    (c : PageCache) (key : CacheKey) (f n io_errors : ℕ) (ws : List Waiter)
    → Inv c
    → lookup (rank key) c.entries ≡ some (loading f n ws)
    → Settles c key 1 (some (loading f n ws)) (
      ws,
      record c {
        entries = remove (rank key) c.entries;
        pool = f ∷ c.pool;
        stats = record (c.stats) { io_errors = io_errors };
      },
    )
complete_bad c key f n io_errors ws inv here =
    let slots = λ (j : ℕ). lookup-remove 0 (rank key) j c.entries inv.sorted in
    (
      record {
        inv = record {
          sorted = remove-Rising 0 (rank key) c.entries inv.sorted;
          distinct = inv.distinct;
          exact = λ x.
              inv.exact x
              ∙ ap is_ready (same_slot c.entries (rank key) x)
              ∙ away (rank key == x) (lookup (rank key) c.entries) (lookup x c.entries)
                  (ap is_ready here)
              ∙ ap is_ready (sym (slots x));
        };
        owned = λ g. omega (
          arith,
          subst
              (λ o.
                total (frame_weight g) (remove (rank key) c.entries) + weight (frame_weight g) o
                ≡ total (frame_weight g) c.entries)
              here (total-remove (frame_weight g) (rank key) c.entries),
        );
      },
      refl,
      slots,
    )
  where
    away :
        (b : Bool) (o p : Option SlotState)
        → is_ready o ≡ false
        → is_ready (if b then o else p) ≡ is_ready (if b then none else p)
    away true o p h = h
    away false o p h = refl

-- Over the invariant `complete_slot` answers with all the waiters of a Loading slot and with none for
-- any other key. A read that went well makes the slot Ready, a failed one removes it, a key that was
-- Ready or absent stays so, and no other slot changes; the invariant holds afterwards, and each frame
-- is in as many places as before, so that a failed read's frame is back in the pool.
pub complete_slot_lem :
    (c : PageCache) (key : CacheKey) (status : ℕ)
    → Inv c
    → let r = complete_slot c key status in
      Keeps c (r.1)
      × (r.0 ≡ waiters_of (find c key))
      × ((j : ℕ)
          → lookup j r.1.entries
            ≡ (if rank key == j then settled status (find c key) else lookup j c.entries))
unfolding complete_slot find
complete_slot_lem c key status inv = by_slot (lookup (rank key) c.entries) refl
  where
    by_slot :
        (o : Option SlotState)
        → lookup (rank key) c.entries ≡ o
        → Settles c key status (lookup (rank key) c.entries) (complete_slot c key status)
    by_slot none e = rw (complete_slot, e) (complete_absent c key status inv e)
    by_slot (some (ready f n)) e = rw (complete_slot, e) (complete_ready c key status f n inv e)
    by_slot (some (loading f n ws)) e = elim (Bool-cases (status == 0)) [
      | inl z ↦ rw (complete_slot, e, z) (complete_good c key f n ws inv e)
      | inr b ↦ rw (complete_slot, e, b) (complete_bad c key f n (bump c.stats.io_errors) ws inv e)
    ]
