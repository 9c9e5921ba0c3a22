-- ===== src/Spsc/Masked.antt =====
-- The ring of net_channel/src/spsc.rs, in memory that user space can write: each index is reduced
-- modulo N as it is loaded.
use native.Mathlib.Nat.{mod-eq_of_lt, mod-lt}
use orbit.Base.{
  ℕ, ◌+◌, ◌-◌, ◌%◌, ◌<◌, ◌≡◌, refl, ap₂, Bool, ◌==◌, ltb, if◌then◌else◌, lt→ltb, Bool-cases, inl,
  inr, length, length-set, get_elem?, get_or, set, Option, none, some, get_elem?-eq-get_or,
}
use orbit.Spsc.{SpscQueue, Enqueued, ok, err, size_mod}
use orbit.Spsc
use orbit.Spsc.Refine.{Inv}

module _ {ℓ} {A : Type ℓ} where
  abbrev pub load_head : SpscQueue A → ℕ
  load_head q = q.head % length q.buffer

  abbrev pub load_tail : SpscQueue A → ℕ
  load_tail q = q.tail % length q.buffer

  pub enqueue : SpscQueue A → A → Option (Enqueued A × SpscQueue A)
  enqueue q val =
      let tail = load_tail q in
      let next = (tail + 1) % size_mod % length q.buffer in
      if next == load_head q
      then some (err val, q)
      else if ltb tail (length q.buffer)
      then some (ok, record q { buffer = set q.buffer tail val; tail = next })
      else none

  pub dequeue : SpscQueue A → Option (Option A × SpscQueue A)
  dequeue q =
      let head = load_head q in
      if head == load_tail q then some (none, q) else elim (get_elem? q.buffer head) [
        | none ↦ none
        | some val ↦ some (some val, record q { head = (head + 1) % size_mod % length q.buffer })
      ]

  pub is_empty : SpscQueue A → Bool
  is_empty q = load_head q == load_tail q

  pub is_full : SpscQueue A → Bool
  is_full q = (load_tail q + 1) % size_mod % length q.buffer == load_head q

  pub len : SpscQueue A → ℕ
  len q = (load_tail q + length q.buffer - load_head q) % length q.buffer

  -- Whatever indices stand in the shared page, neither call leaves the buffer, and the buffer keeps
  -- its length.
  pub calls_in_bounds :
      (q : SpscQueue A) (x : A)
      → 0 < length q.buffer
      → ((r : Enqueued A) × (q' : SpscQueue A) × (enqueue q x ≡ some (r, q'))
          × (length q'.buffer ≡ length q.buffer))
        × ((r : Option A) × (q' : SpscQueue A) × (dequeue q ≡ some (r, q'))
            × (length q'.buffer ≡ length q.buffer))
  unfolding enqueue dequeue
  calls_in_bounds q x pos = (
    elim (Bool-cases ((load_tail q + 1) % size_mod % length q.buffer == load_head q)) [
      | inl full ↦ (err x, q, rw full refl, refl)
      | inr room ↦ (
        ok,
        record q {
          buffer = set q.buffer (load_tail q) x;
          tail = (load_tail q + 1) % size_mod % length q.buffer;
        },
        rw (room, lt→ltb _ _ (mod-lt q.tail pos)) refl,
        length-set q.buffer (load_tail q) x,
      )
    ],
    elim (Bool-cases (load_head q == load_tail q)) [
      | inl empty ↦ (none, q, rw empty refl, refl)
      | inr entries ↦ (
        some (get_or q.buffer (load_head q) x),
        record q { head = (load_head q + 1) % size_mod % length q.buffer },
        rw (entries, get_elem?-eq-get_or q.buffer (load_head q) x (mod-lt q.head pos)) refl,
        refl,
      )
    ],
  )

  -- On a valid ring the reduction changes nothing: each call and query is that of
  -- process/src/spsc.rs.
  masked_eq :
      (q : SpscQueue A) (x : A)
      → Inv q
      → (enqueue q x ≡ Spsc.enqueue q x)
        × (dequeue q ≡ Spsc.dequeue q)
        × (is_empty q ≡ Spsc.is_empty q)
        × (is_full q ≡ Spsc.is_full q)
        × (len q ≡ Spsc.len q)
  unfolding enqueue dequeue is_empty is_full len Spsc.enqueue Spsc.dequeue Spsc.is_empty
      Spsc.is_full Spsc.len
  masked_eq q x v =
      let h : load_head q ≡ q.head = mod-eq_of_lt v.head_in in
      let t : load_tail q ≡ q.tail = mod-eq_of_lt v.tail_in in
      let n : ℕ = length q.buffer in
      (
        rw (h, t) refl,
        ap₂
            (λ head tail. if head == tail then some (none, q) else elim (get_elem? q.buffer head) [
              | none ↦ none
              | some val ↦ some (some val, record q { head = (head + 1) % size_mod % n })
            ])
            h t,
        rw (h, t) refl,
        rw (h, t) refl,
        rw (h, t) refl,
      )
