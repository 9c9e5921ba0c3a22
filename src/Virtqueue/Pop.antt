-- ===== src/Virtqueue/Pop.antt =====
-- `pop_used` of virtio/src/queue.rs: the return of a chain to the free list.
use orbit.Base.{
  ℕ, zero, suc, ◌+◌, ◌%◌, ◌^◌, ◌≤◌, ◌≡◌, ◌≢◌, refl, sym, ap, subst, ◌∙◌, ◌⊎◌, true, false, ◌||◌,
  some, List, [], ◌∷◌, ◌++◌, length, length-append, arith, ◌==◌, ==_refl, ==_iff, ==_ne, mem,
  Distinct, Bool-cases, inl, inr,
}
use orbit.Virtqueue.{VirtqUsed, Descs, Virtqueue, set_desc, find_tail, splice, popped, pop_used}
use orbit.Virtqueue.Chains.{Follows, IsChain, Follows-same, set_desc_self, set_desc-ne}

abbrev tail_of : ℕ → List ℕ → ℕ
tail_of h [] = h
tail_of h (y ∷ ys) = tail_of y ys

mem-tail_of : (h : ℕ) (rest : List ℕ) → mem (tail_of h rest) (h ∷ rest) ≡ true
mem-tail_of h [] = rw (==_refl h) refl
mem-tail_of h (y ∷ ys) = let r = mem-tail_of y ys in ground (arith, r)

mem-append : (p : ℕ) (xs ys : List ℕ) → mem p (xs ++ ys) ≡ (mem p xs || mem p ys)
mem-append p [] ys = refl
mem-append p (x ∷ xs) ys = ground (arith, mem-append p xs ys)

-- The walk ends at the tail within as many rounds as the chain is long.
find_tail-tail_of :
    (rest : List ℕ) (h fuel count : ℕ) (d : Descs)
    → IsChain d h rest
    → suc (length rest) ≤ fuel
    → find_tail fuel h count d ≡ some (tail_of h rest, count + suc (length rest))
unfolding find_tail
find_tail-tail_of rest h zero count d chain le = absurd (omega arith)
find_tail-tail_of [] h (suc fuel) count d chain le = rw chain refl
find_tail-tail_of (y ∷ ys) h (suc fuel) count d chain le =
    let more : count + 1 + suc (length ys) ≡ count + suc (suc (length ys)) = omega arith in
    rw (chain.0, chain.1)
      (find_tail-tail_of ys y fuel (count + 1) d chain.2 (omega arith)
        ∙ ap (λ (n : ℕ). some (tail_of y ys, n)) more)

-- The tail is linked to the old free list, which puts the whole chain in front of it.
module _ (fh : ℕ) (free : List ℕ) (d : Descs) (t : ℕ) where
  abbrev linked : Descs
  linked = set_desc d t (record (d t) { next = fh })

  linked-Follows :
      (rest : List ℕ) (h : ℕ)
      → t ≡ tail_of h rest
      → IsChain d h rest
      → Distinct ((h ∷ rest) ++ free)
      → Follows d fh free
      → Follows linked h ((h ∷ rest) ++ free)
  linked-Follows [] h e chain dis f =
      let at : linked h ≡ record (d t) { next = fh } =
        rw e (set_desc_self d h (record (d h) { next = fh })) in
      (
        refl,
        rw at (
            Follows-same d linked fh free
              (λ x m. set_desc-ne d t (record (d t) { next = fh }) x (rw e (apart h x dis.0 m))) f),
      )
    where
      apart : (a x : ℕ) → mem a free ≡ false → mem x free ≡ true → (x == a) ≡ false
      apart a x absent present = elim (Bool-cases (x == a)) [
        | inr off ↦ off
        | inl same ↦ let q : x ≡ a = (==_iff x a).0 same in absurd (clash (rw q at present) absent)
      ]
        where
          clash : mem a free ≡ true → mem a free ≡ false → ⊥
          clash p q = cc
  linked-Follows (y ∷ ys) h e chain dis f =
      let off : (h == t) ≡ false = not_tail (mem-tail_of y ys) in
      let at : linked h ≡ d h = set_desc-ne d t (record (d t) { next = fh }) h off in
      (refl, rw (at, chain.1) (linked-Follows ys y e chain.2 dis.1 f))
    where
      not_tail : mem (tail_of y ys) (y ∷ ys) ≡ true → (h == t) ≡ false
      not_tail inside = elim (Bool-cases (h == t)) [
        | inr other ↦ other
        | inl same ↦
            let q : h ≡ tail_of y ys = (==_iff h t).0 same ∙ e in
            let there : mem h (y ∷ ys) ≡ true = subst (λ k. mem k (y ∷ ys) ≡ true) (sym q) inside in
            absurd (clash there (dis.0))
      ]
        where
          clash : mem h (y ∷ ys) ≡ true → mem h ((y ∷ ys) ++ free) ≡ false → ⊥
          clash p q = let m = mem-append h (y ∷ ys) free in ground (arith, m, p, q)

-- For a queue with a free list of `num_free` descriptors, a chain of at most `size` descriptors, all
-- of them distinct, and a used ring whose next new entry names the chain's head: `pop_used` returns
-- the head with the length that the device wrote; the free list is then the chain followed by the old
-- free list, counted by `num_free`, the next entry of the used ring is due, and no descriptor outside
-- the chain is changed.
pub pop_used-Follows :
    (q : Virtqueue) (used : VirtqUsed) (free : List ℕ) (h : ℕ) (rest : List ℕ)
    → Follows q.desc q.free_head free
    → IsChain q.desc h rest
    → Distinct ((h ∷ rest) ++ free)
    → length free ≡ q.num_free
    → suc (length rest) ≤ q.size
    → used.idx ≢ q.last_used_idx
    → (used.ring (q.last_used_idx % q.size)).id % 2 ^ 16 ≡ h
    → (q' : Virtqueue) × (pop_used used q
        ≡ popped h (used.ring (q.last_used_idx % q.size)).written q')
      × Follows q'.desc q'.free_head ((h ∷ rest) ++ free)
      × (length ((h ∷ rest) ++ free) ≡ q'.num_free)
      × (q'.last_used_idx ≡ (q.last_used_idx + 1) % 2 ^ 16)
      × ((j : ℕ) → (mem j (h ∷ rest) ≡ true) ⊎ (q'.desc j ≡ q.desc j))
unfolding pop_used splice
pop_used-Follows q used free h rest f chain dis len le new_entry named =
    let t = tail_of h rest in
    let count : 0 + suc (length rest) ≡ suc (length rest) = omega arith in
    let found : find_tail q.size h 0 q.desc ≡ some (t, suc (length rest)) =
      find_tail-tail_of rest h q.size 0 q.desc chain le ∙ ap (λ (n : ℕ). some (t, n)) count in
    let d' = set_desc q.desc t (record (q.desc t) { next = q.free_head }) in
    (
      record q {
        desc = d';
        free_head = h;
        num_free = q.num_free + suc (length rest);
        last_used_idx = (q.last_used_idx + 1) % 2 ^ 16;
      },
      rw (==_ne used.idx q.last_used_idx new_entry, named, found) refl,
      linked-Follows q.free_head free q.desc t rest h refl chain dis f,
      omega (arith, length-append (h ∷ rest) free),
      refl,
      λ j. by_place j (Bool-cases (j == t)),
    )
  where
    by_place :
        (j : ℕ)
        → ((j == tail_of h rest) ≡ true) ⊎ ((j == tail_of h rest) ≡ false)
        → (mem j (h ∷ rest) ≡ true)
          ⊎ (set_desc q.desc
                (tail_of h rest)
                (record (q.desc (tail_of h rest)) { next = q.free_head })
                j
              ≡ q.desc j)
    by_place j (inl same) =
        let e : j ≡ tail_of h rest = (==_iff j (tail_of h rest)).0 same in
        inl (subst (λ k. mem k (h ∷ rest) ≡ true) (sym e) (mem-tail_of h rest))
    by_place j (inr other) = inr (
        set_desc-ne q.desc (tail_of h rest)
          (record (q.desc (tail_of h rest)) { next = q.free_head }) j other)
