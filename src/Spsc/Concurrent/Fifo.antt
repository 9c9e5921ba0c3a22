-- ===== src/Spsc/Concurrent/Fifo.antt =====
-- The values that cross the ring of process/src/spsc.rs in an interleaving of one producer and one
-- consumer.
use orbit.Base.{
  ℕ, ◌+◌, ◌<◌, ◌≡◌, refl, sym, ap, ◌∙◌, ◌≢◌, [], ◌∷◌, ◌++◌, append_assoc, arith, length, length-set,
  subst, get_or, get_elem?-eq-get_or, set, Option, some, get_or-set_self, replicate,
  length-replicate,
}
use orbit.Spsc.{SpscQueue, size_mod, zeroed}
use orbit.Spsc.Window.{next-ne-head, gap-pos, gap_self, window}
use orbit.Spsc.Refine.{Inv, step_next, contents}
use orbit.Spsc.Concurrent.{
  Producer, Consumer, System, next_index, Step, load_tail, full, see_room, write, publish,
  load_head, empty, see_entries, read, release, Reach, here, later,
}
use orbit.Spsc.Concurrent.Invariant.{
  held, ProducerKnows, ConsumerKnows, after_release, write-Inv, publish-Inv, release-Inv,
  held-write, ProducerKnows-release, ConsumerKnows-publish, ConsumerKnows-write, contents-write,
  contents-publish, contents-release,
}

-- The invariant of the two-sided system. `fifo`: what has been received, followed by what the ring
-- holds, is what has been sent.
pub record Safe {ℓ} {A : Type ℓ} (d : A) (s : System A) : Type ℓ where
  pub ring : Inv s.ring
  pub producer : ProducerKnows d s.ring s.producer
  pub consumer : ConsumerKnows d s.ring s.consumer
  pub fifo : s.received ++ contents d s.ring ≡ s.sent

module _ {ℓ} {A : Type ℓ} (d : A) where
  knows : (s : System A) (P : Producer A) → s.producer ≡ P → Safe d s → ProducerKnows d s.ring P
  knows s P e v = subst (λ p. ProducerKnows d s.ring p) e v.producer

  notes : (s : System A) (C : Consumer A) → s.consumer ≡ C → Safe d s → ConsumerKnows d s.ring C
  notes s C e v = subst (λ c. ConsumerKnows d s.ring c) e v.consumer

  read_value : {o : Option A} {x y : A} → o ≡ some x → o ≡ some y → x ≡ y
  read_value p q = cc

  write-Safe :
      (s : System A) (val : A) (tail : ℕ)
      → Safe d s
      → ProducerKnows d s.ring (Producer.room val tail)
      → Safe d (record s {
        ring = record (s.ring) { buffer = set s.ring.buffer tail val };
        producer = Producer.written val tail;
      })
  write-Safe s val tail v k = rw (k.0) (record {
    ring = write-Inv d s.ring val v.ring;
    producer = (
      refl,
      omega (arith, k.1, held-write d s.ring val, length-set s.ring.buffer s.ring.tail val),
      get_or-set_self s.ring.buffer s.ring.tail val d v.ring.tail_in,
    );
    consumer = ConsumerKnows-write d s.ring val s.consumer v.ring v.consumer;
    fifo = ap (λ xs. s.received ++ xs) (contents-write d s.ring val v.ring) ∙ v.fifo;
  })

  publish-Safe :
      (s : System A) (val : A) (tail : ℕ)
      → Safe d s
      → ProducerKnows d s.ring (Producer.written val tail)
      → Safe d (record s {
        ring = record (s.ring) { tail = next_index s.ring tail };
        producer = Producer.idle;
        sent = s.sent ++ (val ∷ []);
      })
  publish-Safe s val tail v k = rw (k.0) (record {
    ring = publish-Inv d s.ring v.ring;
    producer = tt;
    consumer = ConsumerKnows-publish d s.ring s.consumer v.ring k.1 v.consumer;
    fifo =
        ap (λ xs. s.received ++ xs)
          (contents-publish d s.ring v.ring k.1
            ∙ ap (λ x. contents d s.ring ++ (x ∷ []))
                (ap (λ t. get_or s.ring.buffer t d) (sym k.0) ∙ k.2))
        ∙ sym (append_assoc s.received (contents d s.ring) (val ∷ []))
        ∙ ap (λ xs. xs ++ (val ∷ [])) v.fifo;
  })

  release-Safe :
      (s : System A) (val : A) (head : ℕ)
      → Safe d s
      → ConsumerKnows d s.ring (Consumer.taken val head)
      → Safe d (record s {
        ring = record (s.ring) { head = next_index s.ring head };
        consumer = Consumer.idle;
        received = s.received ++ (val ∷ []);
      })
  release-Safe s val head v k = rw (k.0) (record {
    ring = release-Inv d s.ring v.ring;
    producer = ProducerKnows-release d s.ring s.producer v.ring k.1 v.producer;
    consumer = tt;
    fifo =
        append_assoc s.received (val ∷ []) (contents d (after_release d s.ring))
        ∙ ap (λ xs. s.received ++ xs)
            (ap (λ x. x ∷ contents d (after_release d s.ring))
                (sym k.2 ∙ ap (λ h. get_or s.ring.buffer h d) k.0)
              ∙ sym (contents-release d s.ring v.ring k.1))
        ∙ v.fifo;
  })

  -- Every step of either side keeps the system safe.
  pub Step-Safe : (s : System A) {t : System A} → Step s t → Safe d s → Safe d t
  Step-Safe s (load_tail val e) v = record {
    ring = v.ring;
    producer = (refl, tt);
    consumer = v.consumer;
    fifo = v.fifo;
  }
  Step-Safe s (full val tail e h) v = record {
    ring = v.ring;
    producer = tt;
    consumer = v.consumer;
    fifo = v.fifo;
  }
  Step-Safe s (see_room val tail e h) v =
      let k : ProducerKnows d s.ring (Producer.loaded val tail) = knows s _ e v in
      record {
        ring = v.ring;
        producer = (k.0, room_seen s tail v k.0 h, tt);
        consumer = v.consumer;
        fifo = v.fifo;
      }
    where
      room_seen :
          (s : System A) (tail : ℕ)
          → Safe d s
          → tail ≡ s.ring.tail
          → next_index s.ring tail ≢ s.ring.head
          → held s.ring + 1 < length s.ring.buffer
      room_seen s tail v k h =
          next-ne-head _ s.ring.head s.ring.tail v.ring.head_in v.ring.tail_in
            (λ p. h (ap (next_index s.ring) k ∙ step_next s.ring.tail v.ring v.ring.tail_in ∙ p))
  Step-Safe s (write val tail e) v = write-Safe s val tail v (knows s _ e v)
  Step-Safe s (publish val tail e) v = publish-Safe s val tail v (knows s _ e v)
  Step-Safe s (load_head e) v = record {
    ring = v.ring;
    producer = v.producer;
    consumer = (refl, tt);
    fifo = v.fifo;
  }
  Step-Safe s (empty head e h) v = record {
    ring = v.ring;
    producer = v.producer;
    consumer = tt;
    fifo = v.fifo;
  }
  Step-Safe s (see_entries head e h) v =
      let k : ConsumerKnows d s.ring (Consumer.loaded head) = notes s _ e v in
      record {
        ring = v.ring;
        producer = v.producer;
        consumer = (
          k.0,
          gap-pos _ s.ring.head s.ring.tail v.ring.head_in v.ring.tail_in (λ p. h (k.0 ∙ p)),
          tt,
        );
        fifo = v.fifo;
      }
  Step-Safe s (read val head e h) v =
      let k : ConsumerKnows d s.ring (Consumer.entries head) = notes s _ e v in
      record {
        ring = v.ring;
        producer = v.producer;
        consumer = (
          k.0,
          k.1,
          read_value (get_elem?-eq-get_or s.ring.buffer head d (rw (k.0) v.ring.head_in)) h,
        );
        fifo = v.fifo;
      }
  Step-Safe s (release val head e) v = release-Safe s val head v (notes s _ e v)

  pub Reach-Safe :
      (q : SpscQueue A) {s : System A} → Inv q → contents d q ≡ [] → Reach q s → Safe d s
  Reach-Safe q v e here = record { ring = v; producer = tt; consumer = tt; fifo = e }
  Reach-Safe q v e (later {s = s} r st) = Step-Safe s st (Reach-Safe q v e r)

  zeroed-Inv : (n : ℕ) (z : A) → 0 < n → n < size_mod → Inv (zeroed n z)
  zeroed-Inv n z pos small = record {
    small = omega (arith, length-replicate n z);
    head_in = omega (arith, length-replicate n z);
    tail_in = omega (arith, length-replicate n z);
  }

  -- Start from `zeroed` memory of any length n with 0 < n < 2 ^ 64. In every state that steps of
  -- one producer and one consumer reach, both indices lie in the buffer, and the values received,
  -- followed by those that the ring holds, are the values sent, in order: nothing is lost, made
  -- up, repeated or overtaken.
  pub fifo_order :
      (n : ℕ) (z : A) (s : System A)
      → 0 < n
      → n < size_mod
      → Reach (zeroed n z) s
      → Inv s.ring × (s.received ++ contents d s.ring ≡ s.sent)
  fifo_order n z s pos small r =
      let v : Inv (zeroed n z) = zeroed-Inv n z pos small in
      let safe : Safe d s = Reach-Safe (zeroed n z) v (nothing_held v) r in (safe.ring, safe.fifo)
    where
      nothing_held : Inv (zeroed n z) → contents d (zeroed n z) ≡ []
      nothing_held v =
          ap (window (length (replicate n z)) d (replicate n z) 0)
            (gap_self (length (replicate n z)) 0 0 v.head_in v.tail_in refl)
