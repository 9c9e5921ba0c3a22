-- ===== src/Spsc/Concurrent/Invariant.antt =====
-- What each side's locals say about the ring (process/src/spsc.rs), and that the other side's
-- stores leave it true.
use orbit.Base.{
  ℕ, suc, ◌+◌, ◌<◌, ◌≡◌, refl, sym, ap, ◌∙◌, ◌≢◌, [], ◌∷◌, ◌++◌, arith, length, length-set, get_or,
  set, get_or-set_ne,
}
use orbit.Spsc.{SpscQueue}
use orbit.Spsc.Window.{
  gap, next-lt, gap-cases, gap-next_tail, gap-next_head, window, window-set, window-snoc,
}
use orbit.Spsc.Refine.{Inv, step_next, contents}
use orbit.Spsc.Concurrent.{Producer, Consumer, next_index}

abbrev pub held {ℓ} : {A : Type ℓ} → SpscQueue A → ℕ
held q = gap (length q.buffer) q.head q.tail

module _ {ℓ} {A : Type ℓ} (d : A) where
  abbrev pub ProducerKnows : SpscQueue A → Producer A → Type ℓ
  ProducerKnows q Producer.idle = Unit
  ProducerKnows q (Producer.loaded val tail) = (tail ≡ q.tail) × Unit {ℓ}
  ProducerKnows q (Producer.room val tail) =
      (tail ≡ q.tail) × (held q + 1 < length q.buffer) × Unit {ℓ}
  ProducerKnows q (Producer.written val tail) =
      (tail ≡ q.tail) × (held q + 1 < length q.buffer) × (get_or q.buffer tail d ≡ val)

  abbrev pub ConsumerKnows : SpscQueue A → Consumer A → Type ℓ
  ConsumerKnows q Consumer.idle = Unit
  ConsumerKnows q (Consumer.loaded head) = (head ≡ q.head) × Unit {ℓ}
  ConsumerKnows q (Consumer.entries head) = (head ≡ q.head) × (0 < held q) × Unit {ℓ}
  ConsumerKnows q (Consumer.taken val head) =
      (head ≡ q.head) × (0 < held q) × (get_or q.buffer head d ≡ val)

  -- The ring after each store.
  abbrev pub after_write : SpscQueue A → A → SpscQueue A
  after_write q val = record q { buffer = set q.buffer q.tail val }

  abbrev pub after_publish : SpscQueue A → SpscQueue A
  after_publish q = record q { tail = next_index q q.tail }

  abbrev pub after_release : SpscQueue A → SpscQueue A
  after_release q = record q { head = next_index q q.head }

  pub write-Inv : (q : SpscQueue A) (val : A) → Inv q → Inv (after_write q val)
  write-Inv q val v = record {
    small = omega (arith, v.small, length-set q.buffer q.tail val);
    head_in = omega (arith, v.head_in, length-set q.buffer q.tail val);
    tail_in = omega (arith, v.tail_in, length-set q.buffer q.tail val);
  }

  pub publish-Inv : (q : SpscQueue A) → Inv q → Inv (after_publish q)
  publish-Inv q v = record {
    small = v.small;
    head_in = v.head_in;
    tail_in = rw (step_next q.tail v v.tail_in) (next-lt (length q.buffer) q.tail v.tail_in);
  }

  pub release-Inv : (q : SpscQueue A) → Inv q → Inv (after_release q)
  release-Inv q v = record {
    small = v.small;
    head_in = rw (step_next q.head v v.head_in) (next-lt (length q.buffer) q.head v.head_in);
    tail_in = v.tail_in;
  }

  pub held-write : (q : SpscQueue A) (val : A) → held (after_write q val) ≡ held q
  held-write q val = ap (λ n. gap n q.head q.tail) (length-set q.buffer q.tail val)

  pub held-publish :
      (q : SpscQueue A) → Inv q → held q + 1 < length q.buffer → held (after_publish q) ≡ held q + 1
  held-publish q v room =
      rw (step_next q.tail v v.tail_in) (gap-next_tail _ q.head q.tail v.head_in v.tail_in room)

  pub held-release : (q : SpscQueue A) → Inv q → 0 < held q → held (after_release q) + 1 ≡ held q
  held-release q v some_left =
      rw (step_next q.head v v.head_in)
        (gap-next_head _ q.head q.tail v.head_in v.tail_in some_left)

  pub ProducerKnows-release :
      (q : SpscQueue A) (p : Producer A)
      → Inv q
      → 0 < held q
      → ProducerKnows q p
      → ProducerKnows (after_release q) p
  ProducerKnows-release q Producer.idle v left k = tt
  ProducerKnows-release q (Producer.loaded val tail) v left k = k
  ProducerKnows-release q (Producer.room val tail) v left k =
      (k.0, omega (arith, k.1, held-release q v left), tt)
  ProducerKnows-release q (Producer.written val tail) v left k =
      (k.0, omega (arith, k.1, held-release q v left), k.2)

  pub ConsumerKnows-publish :
      (q : SpscQueue A) (c : Consumer A)
      → Inv q
      → held q + 1 < length q.buffer
      → ConsumerKnows q c
      → ConsumerKnows (after_publish q) c
  ConsumerKnows-publish q Consumer.idle v room k = tt
  ConsumerKnows-publish q (Consumer.loaded head) v room k = k
  ConsumerKnows-publish q (Consumer.entries head) v room k =
      (k.0, omega (arith, k.1, held-publish q v room), tt)
  ConsumerKnows-publish q (Consumer.taken val head) v room k =
      (k.0, omega (arith, k.1, held-publish q v room), k.2)

  -- The slot that the producer writes is not the one that the consumer reads.
  tail-ne-head : (q : SpscQueue A) → Inv q → 0 < held q → q.tail ≢ q.head
  tail-ne-head q v left =
      omega (arith, gap-cases (length q.buffer) q.head q.tail v.head_in v.tail_in)

  pub ConsumerKnows-write :
      (q : SpscQueue A) (val : A) (c : Consumer A)
      → Inv q
      → ConsumerKnows q c
      → ConsumerKnows (after_write q val) c
  ConsumerKnows-write q val Consumer.idle v k = tt
  ConsumerKnows-write q val (Consumer.loaded head) v k = k
  ConsumerKnows-write q val (Consumer.entries head) v k =
      (k.0, omega (arith, k.1, held-write q val), tt)
  ConsumerKnows-write q val (Consumer.taken x head) v k = (
    k.0,
    omega (arith, k.1, held-write q val),
    get_or-set_ne q.buffer q.tail head val d (λ e. tail-ne-head q v k.1 (e ∙ k.0)) ∙ k.2,
  )

  -- The window over the stores.
  pub contents-write :
      (q : SpscQueue A) (val : A) → Inv q → contents d (after_write q val) ≡ contents d q
  contents-write q val v =
      rw (length-set q.buffer q.tail val)
        (window-set (length q.buffer) d q.buffer val q.head q.tail _ v.head_in v.tail_in refl)

  pub contents-publish :
      (q : SpscQueue A)
      → Inv q
      → held q + 1 < length q.buffer
      → contents d (after_publish q) ≡ contents d q ++ (get_or q.buffer q.tail d ∷ [])
  contents-publish q v room =
      let more : held (after_publish q) ≡ suc (held q) = omega (arith, held-publish q v room) in
      rw more (window-snoc (length q.buffer) d q.buffer q.head q.tail _ v.head_in v.tail_in refl)

  pub contents-release :
      (q : SpscQueue A)
      → Inv q
      → 0 < held q
      → contents d q ≡ get_or q.buffer q.head d ∷ contents d (after_release q)
  contents-release q v left =
      let fewer : held q ≡ suc (held (after_release q)) = omega (arith, held-release q v left) in
      ap (λ k. window (length q.buffer) d q.buffer q.head k) fewer
      ∙ ap
          (λ h.
            get_or q.buffer q.head d
            ∷ window (length q.buffer) d q.buffer h (held (after_release q)))
          (sym (step_next q.head v v.head_in))
