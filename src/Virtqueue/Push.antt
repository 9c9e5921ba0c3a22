-- ===== src/Virtqueue/Push.antt =====
-- `push_chain` of virtio/src/queue.rs: what the device reads from the chain, and what is left free.
use orbit.Base.{
  ℕ, zero, suc, ◌+◌, ◌-◌, ◌%◌, ◌^◌, ◌≤◌, ◌<◌, ◌≡◌, refl, sym, ap, subst, ◌∙◌, ◌⊎◌, Bool, true,
  false, Option, none, some, List, [], ◌∷◌, length, take, drop, length-drop, length-take, min,
  arith, ◌==◌, ==_refl, ==_iff, if◌then◌else◌, ltb, bit_and, mem, Distinct, Bool-cases, inl, inr,
}
use orbit.Virtqueue.{
  Buf, Descs, Virtqueue, flag_next, set_desc, gather, after, populate, filled, desc_flags, refuses,
  push_chain,
}
use orbit.Virtqueue.Chains.{
  Follows, IsChain, read_chain, gather-take, after-Follows, Follows-same, set_desc_self,
  populate-else, buf_of-filled,
}

ends-filled : (b : Buf) → (bit_and (filled b []).flags flag_next == 0) ≡ true
unfolding filled desc_flags
ends-filled b = by_write b.write
  where
    by_write : (w : Bool) → (bit_and (desc_flags w true) 1 == 0) ≡ true
    by_write true = refl
    by_write false = refl

goes_on-filled :
    (b : Buf) (h : ℕ) (hs : List ℕ) → (bit_and (filled b (h ∷ hs)).flags flag_next == 0) ≡ false
unfolding filled desc_flags
goes_on-filled b h hs = by_write b.write
  where
    by_write : (w : Bool) → (bit_and (desc_flags w false) 1 == 0) ≡ false
    by_write true = refl
    by_write false = refl

first_written :
    (h : ℕ) (hs : List ℕ) (b : Buf) (bs : List Buf) (d : Descs)
    → mem h hs ≡ false
    → populate (h ∷ hs) (b ∷ bs) d h ≡ filled b hs
unfolding populate
first_written h hs b bs d apart =
    populate-else hs bs (set_desc d h (filled b hs)) h apart ∙ set_desc_self d h (filled b hs)

next-filled : (b : Buf) (h : ℕ) (hs : List ℕ) → (filled b (h ∷ hs)).next ≡ h
unfolding filled
next-filled b h hs = refl

one_step :
    (h : ℕ) (hs : List ℕ) (b : Buf) (bs : List Buf) (d : Descs)
    → populate (h ∷ hs) (b ∷ bs) d ≡ populate hs bs (set_desc d h (filled b hs))
unfolding populate
one_step h hs b bs d = refl

-- The chain holds the buffers in order, and is linked by the flag.
populate-read :
    (hs : List ℕ) (h : ℕ) (bs : List Buf) (b : Buf) (d : Descs)
    → length hs ≡ length bs
    → Distinct (h ∷ hs)
    → (read_chain (suc (length bs)) h (populate (h ∷ hs) (b ∷ bs) d) ≡ (b ∷ bs))
      × IsChain (populate (h ∷ hs) (b ∷ bs) d) h hs
unfolding read_chain
populate-read [] h [] b d e dis =
    let at = first_written h [] b [] d refl in
    (rw (at, ends-filled b, buf_of-filled b []) refl, rw (at, ends-filled b) refl)
populate-read [] h (c ∷ bs) b d e dis = absurd (omega arith)
populate-read (y ∷ ys) h [] b d e dis = absurd (omega arith)
populate-read (y ∷ ys) h (c ∷ bs) b d e dis =
    let at = first_written h (y ∷ ys) b (c ∷ bs) d dis.0 in
    let d1 = set_desc d h (filled b (y ∷ ys)) in
    let later = populate-read ys y bs c d1 (omega arith) dis.1 in
    let step = one_step h (y ∷ ys) b (c ∷ bs) d in
    (
      rw (at, buf_of-filled b (y ∷ ys), goes_on-filled b y ys, next-filled b y ys, step)
          (ap (◌∷◌ b) (later.0)),
      (
        rw at (goes_on-filled b y ys),
        rw at (next-filled b y ys),
        subst (λ m. IsChain m y ys) (sym step) later.1,
      ),
    )

mem-take-drop :
    (n x : ℕ) (xs : List ℕ) → Distinct xs → mem x (drop n xs) ≡ true → mem x (take n xs) ≡ false
mem-take-drop zero x xs dis m = refl
mem-take-drop (suc n) x [] dis m = refl
mem-take-drop (suc n) x (y ∷ ys) dis m = elim (Bool-cases (y == x)) [
  | inl same ↦
      let e : y ≡ x = (==_iff y x).0 same in absurd (clash (rw e at (dis.0)) (mem-drop n x ys m))
  | inr other ↦ rw other (mem-take-drop n x ys dis.1 m)
]
  where
    mem-drop : (k z : ℕ) (zs : List ℕ) → mem z (drop k zs) ≡ true → mem z zs ≡ true
    mem-drop zero z zs h = h
    mem-drop (suc k) z [] h = h
    mem-drop (suc k) z (w ∷ ws) h = let r = mem-drop k z ws h in ground (arith, r)

    clash : {t : Bool} → t ≡ false → t ≡ true → ⊥
    clash p q = cc

Distinct-take : (n : ℕ) (xs : List ℕ) → Distinct xs → Distinct (take n xs)
Distinct-take zero xs dis = tt
Distinct-take (suc n) [] dis = tt
Distinct-take (suc n) (x ∷ xs) dis = (mem-take n xs dis.0, Distinct-take n xs dis.1)
  where
    mem-take : (k : ℕ) (ys : List ℕ) → mem x ys ≡ false → mem x (take k ys) ≡ false
    mem-take zero ys h = refl
    mem-take (suc k) [] h = refl
    mem-take (suc k) (y ∷ ys) h = let r = mem-take k ys (ground (arith, h)) in ground (arith, r, h)

-- The descriptors in memory after the chain is written.
abbrev Written : Descs → ℕ → List Buf → List ℕ → Descs → Type 0
Written d head bufs free d' =
    (rest : List ℕ) × (take (length bufs) free ≡ (head ∷ rest))
    × IsChain d' head rest
    × (read_chain (length bufs) head d' ≡ bufs)
    × Follows d' (after (length bufs) head d) (drop (length bufs) free)
    × ((j : ℕ) → (mem j (head ∷ rest) ≡ true) ⊎ (d' j ≡ d j))

populate-Written :
    (d : Descs) (head : ℕ) (b : Buf) (bs : List Buf) (free : List ℕ)
    → Follows d head free
    → Distinct free
    → suc (length bs) ≤ length free
    → Written d head (b ∷ bs) free (populate (gather (suc (length bs)) head d) (b ∷ bs) d)
populate-Written d head b bs [] f dis le = absurd (omega arith)
populate-Written d head b bs (x ∷ xs) f dis le =
    let got = gather-take (suc (length bs)) head d (x ∷ xs) f le in
    let left = after-Follows (suc (length bs)) head d (x ∷ xs) f le in
    let short : min (length bs) (length xs) ≡ length bs = omega arith in
    let read =
      populate-read (take (length bs) xs) x bs b d (length-take (length bs) xs ∙ short)
        (Distinct-take (suc (length bs)) (x ∷ xs) dis) in
    rw got (
      take (length bs) xs,
      ap (λ (t : ℕ). t ∷ take (length bs) xs) (sym f.0),
      rw f.0 (read.1),
      rw f.0 (read.0),
      Follows-same d (populate (x ∷ take (length bs) xs) (b ∷ bs) d)
          (after (suc (length bs)) head d) (drop (length bs) xs)
          (λ y m.
            populate-else (x ∷ take (length bs) xs) (b ∷ bs) d y
              (mem-take-drop (suc (length bs)) y (x ∷ xs) dis m))
          left,
      λ j. by_place j (Bool-cases (mem j (x ∷ take (length bs) xs))),
    )
  where
    by_place :
        (j : ℕ)
        → (mem j (x ∷ take (length bs) xs) ≡ true) ⊎ (mem j (x ∷ take (length bs) xs) ≡ false)
        → (mem j (head ∷ take (length bs) xs) ≡ true)
          ⊎ (populate (x ∷ take (length bs) xs) (b ∷ bs) d j ≡ d j)
    by_place j (inl inside) = inl (rw f.0 inside)
    by_place j (inr outside) = inr (populate-else (x ∷ take (length bs) xs) (b ∷ bs) d j outside)

why :
    (q : Virtqueue) (bufs : List Buf)
    → refuses q bufs ≡ true
    → (length bufs ≡ 0) ⊎ (q.num_free < length bufs) ⊎ (32 < length bufs)
unfolding refuses
why q bufs full = elim (Bool-cases (ltb 32 (length bufs))) [
  | inl long ↦ inr (inr (ground (arith, long)))
  | inr short ↦ elim (Bool-cases (length bufs == 0)) [
    | inl empty ↦ inl (ground (arith, empty))
    | inr some_there ↦ inr (inl (ground (arith, full, short, some_there)))
  ]
]

not_empty : (q : Virtqueue) → refuses q [] ≡ false → ⊥
unfolding refuses
not_empty q h = cc

fits :
    (q : Virtqueue) (b : Buf) (bs : List Buf) (free : List ℕ)
    → length free ≡ q.num_free
    → refuses q (b ∷ bs) ≡ false
    → suc (length bs) ≤ length free
unfolding refuses
fits q b bs free len ready = ground (arith, ready)

-- What `push_chain` may leave.
abbrev pub Pushed : Virtqueue → List Buf → List ℕ → Option ℕ × Virtqueue → Type 0
Pushed q bufs free (none, q') =
    ((length bufs ≡ 0) ⊎ (q.num_free < length bufs) ⊎ (32 < length bufs)) × (q' ≡ q)
Pushed q bufs free (some head, q') =
    (0 < length bufs)
    × (rest : List ℕ) × (take (length bufs) free ≡ (head ∷ rest))
    × IsChain q'.desc head rest
    × (read_chain (length bufs) head q'.desc ≡ bufs)
    × Follows q'.desc q'.free_head (drop (length bufs) free)
    × (length (drop (length bufs) free) ≡ q'.num_free)
    × ((j : ℕ) → (mem j (head ∷ rest) ≡ true) ⊎ (q'.desc j ≡ q.desc j))
    × (q'.avail_ring (q.avail_idx % q.size) ≡ head)
    × (q'.published_idx ≡ (q.avail_idx + 1) % 2 ^ 16)

-- For a queue whose free list visits distinct descriptors, `num_free` of them: `push_chain`
-- refuses, and leaves the queue as it is, only if there are no buffers, more than are free, or more
-- than 32. Otherwise it returns the first free descriptor and publishes it in the next place of the
-- available ring; from it the device reads just the given buffers along a chain of the first free
-- descriptors, which have left the free list; the others are still on it, in order and counted by
-- `num_free`, and no other descriptor is changed.
pub push_chain-Pushed :
    (q : Virtqueue) (bufs : List Buf) (free : List ℕ)
    → Follows q.desc q.free_head free
    → Distinct free
    → length free ≡ q.num_free
    → Pushed q bufs free (push_chain bufs q)
unfolding push_chain
push_chain-Pushed q bufs free f dis len = elim (Bool-cases (refuses q bufs)) [
  | inl full ↦ rw full (why q bufs full, refl)
  | inr ready ↦ rw ready (accepted bufs ready)
]
  where
    accepted :
        (bs : List Buf)
        → refuses q bs ≡ false
        → Pushed q bs free (
          some q.free_head,
          record q {
            desc = populate (gather (length bs) q.free_head q.desc) bs q.desc;
            free_head = after (length bs) q.free_head q.desc;
            num_free = q.num_free - length bs;
            avail_ring = λ i. if i == q.avail_idx % q.size then q.free_head else q.avail_ring i;
            avail_idx = (q.avail_idx + 1) % 2 ^ 16;
            published_idx = (q.avail_idx + 1) % 2 ^ 16;
          },
        )
    accepted [] ready = absurd (not_empty q ready)
    accepted (b ∷ bs) ready =
        let w = populate-Written q.desc q.free_head b bs free f dis (fits q b bs free len ready) in
        (
          omega arith,
          w.0,
          w.1,
          w.2,
          w.3,
          w.4,
          omega (arith, length-drop (suc (length bs)) free),
          w.5,
          rw (==_refl (q.avail_idx % q.size)) refl,
          refl,
        )
