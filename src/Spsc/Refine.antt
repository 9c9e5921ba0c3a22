-- ===== src/Spsc/Refine.antt =====
-- The ring of process/src/spsc.rs as a bounded queue, when no call runs beside another.
use native.Mathlib.Nat.{mod-eq_of_lt}
use orbit.Base.{
  ℕ, suc, ◌+◌, ◌%◌, ◌<◌, ◌≡◌, refl, ap, ap₂, ◌∙◌, ◌≢◌, ◌↔◌, true, ◌==◌, if◌then◌else◌, ==_ne,
  ==_iff, lt→ltb, Bool-cases, inl, inr, List, [], ◌∷◌, ◌++◌, arith, length, get_or, set, Option,
  none, some, length-set, get_or-set_self, get_elem?-eq-get_or,
}
use orbit.Spsc.{SpscQueue, Enqueued, ok, err, size_mod, enqueue, dequeue, is_empty, is_full, len}
use orbit.Spsc.Window.{
  next, gap, next-lt, next-eq-head, next-ne-head, gap-pos, gap_self, gap-zero, next_of_full,
  gap-next_tail, gap-next_head, window, length-window, window-set, window-snoc,
}

-- The buffer is not longer than `usize` counts, and both indices lie in it.
pub record Inv {ℓ} {A : Type ℓ} (q : SpscQueue A) : Type 0 where
  pub small : length q.buffer < size_mod
  pub head_in : q.head < length q.buffer
  pub tail_in : q.tail < length q.buffer

-- Both indices step as `next` does: the sum before `% N` does not wrap.
pub step_next {ℓ} :
    {A : Type ℓ} {q : SpscQueue A} (i : ℕ)
    → Inv q
    → i < length q.buffer
    → (i + 1) % size_mod % length q.buffer ≡ next (length q.buffer) i
step_next {q = q} i v h = ap (λ k. k % length q.buffer) (mod-eq_of_lt (omega arith))

module _ {ℓ} {A : Type ℓ} where
  -- A queue that holds fewer entries than `n`.
  unfoldable pub put : ℕ → A → List A → Enqueued A × List A
  put n x xs = if length xs + 1 == n then (err x, xs) else (ok, xs ++ (x ∷ []))

  unfoldable pub get : List A → Option A × List A
  get [] = (none, [])
  get (x ∷ xs) = (some x, xs)

module _ {ℓ} {A : Type ℓ} (d : A) where
  -- The entries, oldest first.
  abbrev pub contents : SpscQueue A → List A
  contents q = window (length q.buffer) d q.buffer q.head (gap (length q.buffer) q.head q.tail)

  pub length-contents :
      (q : SpscQueue A) → length (contents q) ≡ gap (length q.buffer) q.head q.tail
  length-contents q = length-window (length q.buffer) d q.buffer q.head _

  enqueue_full :
      (q : SpscQueue A) (x : A)
      → Inv q
      → next (length q.buffer) q.tail ≡ q.head
      → enqueue q x ≡ some (err x, q)
  unfolding enqueue
  enqueue_full q x v e = rw (step_next q.tail v v.tail_in, (==_iff _ _).1 e) refl

  enqueue_room :
      (q : SpscQueue A) (x : A)
      → Inv q
      → next (length q.buffer) q.tail ≢ q.head
      → enqueue q x
        ≡ some
            (ok, record q { buffer = set q.buffer q.tail x; tail = next (length q.buffer) q.tail })
  unfolding enqueue
  enqueue_room q x v e = rw (step_next q.tail v v.tail_in, ==_ne _ _ e, lt→ltb _ _ v.tail_in) refl

  -- Writing at the tail appends the entry.
  contents-write :
      (q : SpscQueue A) (x : A)
      → Inv q
      → next (length q.buffer) q.tail ≢ q.head
      → contents (record q { buffer = set q.buffer q.tail x; tail = next (length q.buffer) q.tail })
        ≡ contents q ++ (x ∷ [])
  contents-write q x v e =
      let n : ℕ = length q.buffer in
      let k : ℕ = gap n q.head q.tail in
      let more : gap n q.head (next n q.tail) ≡ suc k = omega (
        arith,
        gap-next_tail n q.head q.tail v.head_in v.tail_in
            (next-ne-head n q.head q.tail v.head_in v.tail_in e),
      ) in
      rw (length-set q.buffer q.tail x, more)
        (window-snoc n d (set q.buffer q.tail x) q.head q.tail k v.head_in v.tail_in refl
          ∙ ap₂ ◌++◌ (window-set n d q.buffer x q.head q.tail k v.head_in v.tail_in refl)
              (ap (λ y. y ∷ []) (get_or-set_self q.buffer q.tail x d v.tail_in)))

  one_left :
      (q : SpscQueue A)
      → Inv q
      → next (length q.buffer) q.tail ≢ q.head
      → gap (length q.buffer) q.head q.tail + 1 ≢ length q.buffer
  one_left q v e p = omega (arith, next-ne-head _ _ _ v.head_in v.tail_in e)

  -- On a valid ring `enqueue` does not fault, keeps the ring valid and of its size, answers as the
  -- queue of at most N - 1 entries does, and leaves the ring holding that queue's entries.
  enqueue_refines :
      (q : SpscQueue A) (x : A)
      → Inv q
      → (r : Enqueued A) × (q' : SpscQueue A) × (enqueue q x ≡ some (r, q'))
        × Inv q'
        × (length q'.buffer ≡ length q.buffer)
        × ((r, contents q') ≡ put (length q.buffer) x (contents q))
  unfolding put
  enqueue_refines q x v = elim (Bool-cases (next (length q.buffer) q.tail == q.head)) [
    | inl full ↦
        let e : next (length q.buffer) q.tail ≡ q.head = (==_iff _ _).0 full in
        (
          err x,
          q,
          enqueue_full q x v e,
          v,
          refl,
          rw (length-contents q, (==_iff _ _).1 (next-eq-head _ _ _ v.head_in v.tail_in e)) refl,
        )
    | inr room ↦
        let e : next (length q.buffer) q.tail ≢ q.head = λ p. ground (arith, (==_iff _ _).1 p) in
        (
          ok,
          _,
          enqueue_room q x v e,
          record {
            small = omega (arith, length-set q.buffer q.tail x, v.small);
            head_in = omega (arith, length-set q.buffer q.tail x, v.head_in);
            tail_in =
                omega
                  (arith, length-set q.buffer q.tail x, next-lt (length q.buffer) q.tail v.tail_in);
          },
          length-set q.buffer q.tail x,
          rw (length-contents q, ==_ne _ _ (one_left q v e))
              (ap (λ xs. (ok, xs)) (contents-write q x v e)),
        )
  ]

  dequeue_empty : (q : SpscQueue A) → q.head ≡ q.tail → dequeue q ≡ some (none, q)
  unfolding dequeue
  dequeue_empty q e = rw ((==_iff _ _).1 e) refl

  dequeue-some :
      (q : SpscQueue A)
      → Inv q
      → q.head ≢ q.tail
      → dequeue q
        ≡ some (some (get_or q.buffer q.head d), record q { head = next (length q.buffer) q.head })
  unfolding dequeue
  dequeue-some q v e =
      rw (==_ne _ _ e)
        (rw (get_elem?-eq-get_or q.buffer q.head d v.head_in, step_next q.head v v.head_in) refl)

  -- The oldest entry comes first, and the rest is what the ring with the next head holds.
  contents-cons :
      (q : SpscQueue A)
      → Inv q
      → q.head ≢ q.tail
      → contents q
        ≡ get_or q.buffer q.head d ∷ contents (record q { head = next (length q.buffer) q.head })
  contents-cons q v e =
      let n : ℕ = length q.buffer in
      let more : gap n q.head q.tail ≡ suc (gap n (next n q.head) q.tail) = omega (
        arith,
        gap-next_head n q.head q.tail v.head_in v.tail_in
            (gap-pos n q.head q.tail v.head_in v.tail_in e),
      ) in
      rw more refl

  -- On a valid ring `dequeue` does not fault, keeps the ring valid and its buffer as it is, returns
  -- the oldest entry if there is one, and leaves the ring holding the others.
  dequeue_refines :
      (q : SpscQueue A)
      → Inv q
      → (r : Option A) × (q' : SpscQueue A) × (dequeue q ≡ some (r, q'))
        × Inv q'
        × (q'.buffer ≡ q.buffer)
        × ((r, contents q') ≡ get (contents q))
  unfolding get
  dequeue_refines q v = elim (Bool-cases (q.head == q.tail)) [
    | inl empty ↦
        let e : q.head ≡ q.tail = (==_iff _ _).0 empty in
        (none, q, dequeue_empty q e, v, refl, rw (gap_self _ _ _ v.head_in v.tail_in e) refl)
    | inr entries ↦
        let e : q.head ≢ q.tail = λ p. ground (arith, (==_iff _ _).1 p) in
        (
          some (get_or q.buffer q.head d),
          _,
          dequeue-some q v e,
          record {
            small = v.small;
            head_in = next-lt (length q.buffer) q.head v.head_in;
            tail_in = v.tail_in;
          },
          refl,
          rw (contents-cons q v e) refl,
        )
  ]

  -- On a valid ring the queries answer for the entries: `len` is their number, `is_empty` is true
  -- exactly if there is none, and `is_full` exactly if there are N - 1.
  queries_refine :
      (q : SpscQueue A)
      → Inv q
      → (len q ≡ length (contents q))
        × ((is_empty q ≡ true) ↔ (length (contents q) ≡ 0))
        × ((is_full q ≡ true) ↔ (length (contents q) + 1 ≡ length q.buffer))
  unfolding len is_empty is_full
  queries_refine q v =
      let n : ℕ = length q.buffer in
      rw (length-contents q, step_next q.tail v v.tail_in)
        (
          refl,
          (
            λ e. gap_self n q.head q.tail v.head_in v.tail_in ((==_iff _ _).0 e),
            λ e. (==_iff _ _).1 (gap-zero n q.head q.tail v.head_in v.tail_in e),
          ),
          (
            λ e. next-eq-head n q.head q.tail v.head_in v.tail_in ((==_iff _ _).0 e),
            λ e. (==_iff _ _).1 (next_of_full n q.head q.tail v.head_in v.tail_in e),
          ),
        )

  -- On a valid ring no call faults. `enqueue` answers as the queue of at most N - 1 entries does and
  -- leaves the ring holding that queue's entries; `dequeue` takes out its oldest entry, if there is
  -- one; both keep the ring valid and of its size. `len` is the number of the entries, `is_empty` is
  -- true exactly if there is none, and `is_full` exactly if there are N - 1.
  pub calls_refine :
      (q : SpscQueue A) (x : A)
      → Inv q
      → ((r : Enqueued A) × (q' : SpscQueue A) × (enqueue q x ≡ some (r, q'))
          × Inv q'
          × (length q'.buffer ≡ length q.buffer)
          × ((r, contents q') ≡ put (length q.buffer) x (contents q)))
        × ((r : Option A) × (q' : SpscQueue A) × (dequeue q ≡ some (r, q'))
            × Inv q'
            × (q'.buffer ≡ q.buffer)
            × ((r, contents q') ≡ get (contents q)))
        × (len q ≡ length (contents q))
        × ((is_empty q ≡ true) ↔ (length (contents q) ≡ 0))
        × ((is_full q ≡ true) ↔ (length (contents q) + 1 ≡ length q.buffer))
  calls_refine q x v =
      let asked = queries_refine q v in
      (enqueue_refines q x v, dequeue_refines q v, asked.0, asked.1, asked.2)
