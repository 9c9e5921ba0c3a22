-- ===== src/Spsc/Tests.antt =====
-- The rings of process/src/spsc.rs and net_channel/src/spsc.rs at small inputs.
use orbit.Base.{ℕ, ◌≡◌, refl, ◌↔◌, true, [], ◌∷◌, arith, length, Option, none, some}
use orbit.Spsc.{SpscQueue, Enqueued, ok, zeroed, enqueue, dequeue, is_empty, is_full, len}
use orbit.Spsc.Refine.{Inv, contents, put, get, calls_refine}
use orbit.Spsc.Masked
use orbit.Spsc.Concurrent.{
  Producer, Consumer, System, load_tail, see_room, write, publish, load_head, see_entries, Reach,
  here, later,
}
use orbit.Spsc.Concurrent.Fifo.{fifo_order}

-- Two entries round the end of a buffer of four.
abbrev wrapped : SpscQueue ℕ
wrapped = record { head = 3; tail = 1; buffer = 9 ∷ 0 ∷ 0 ∷ 8 ∷ [] }

wrapped-Inv : Inv wrapped
wrapped-Inv = omega arith

contents-wrapped : contents 0 wrapped ≡ 8 ∷ 9 ∷ []
contents-wrapped = refl

enqueue-wrapped :
    enqueue wrapped 7 ≡ some (ok, record { head = 3; tail = 2; buffer = 9 ∷ 7 ∷ 0 ∷ 8 ∷ [] })
unfolding enqueue
enqueue-wrapped = refl

-- An index from outside faults in the plain ring.
enqueue_fault : enqueue (record wrapped { tail = 7; head = 1 }) 7 ≡ none
unfolding enqueue
enqueue_fault = refl

calls_refine_example :
    ((r : Enqueued ℕ) × (q' : SpscQueue ℕ) × (enqueue wrapped 7 ≡ some (r, q'))
      × Inv q'
      × (length q'.buffer ≡ 4)
      × ((r, contents 0 q') ≡ put 4 7 (8 ∷ 9 ∷ [])))
    × ((r : Option ℕ) × (q' : SpscQueue ℕ) × (dequeue wrapped ≡ some (r, q'))
        × Inv q'
        × (q'.buffer ≡ wrapped.buffer)
        × ((r, contents 0 q') ≡ get (8 ∷ 9 ∷ [])))
    × (len wrapped ≡ 2)
    × ((is_empty wrapped ≡ true) ↔ ◌≡◌ {A = ℕ} 2 0)
    × ((is_full wrapped ≡ true) ↔ ◌≡◌ {A = ℕ} 3 4)
calls_refine_example = calls_refine 0 wrapped 7 wrapped-Inv

-- Indices that user space forged.
abbrev forged : SpscQueue ℕ
forged = record wrapped { tail = 1000; head = 77 }

calls_in_bounds_example :
    ((r : Enqueued ℕ) × (q' : SpscQueue ℕ) × (Masked.enqueue forged 7 ≡ some (r, q'))
      × (length q'.buffer ≡ 4))
    × ((r : Option ℕ) × (q' : SpscQueue ℕ) × (Masked.dequeue forged ≡ some (r, q'))
        × (length q'.buffer ≡ 4))
calls_in_bounds_example = Masked.calls_in_bounds forged 7 (omega arith)

-- The producer has sent 5 and is about to write 6; the consumer has seen an entry.
abbrev midway : System ℕ
midway = record {
  ring = record { head = 0; tail = 1; buffer = 5 ∷ 0 ∷ 0 ∷ [] };
  producer = Producer.room 6 1;
  consumer = Consumer.entries 0;
  sent = 5 ∷ [];
  received = [];
}

midway-Reach : Reach (zeroed 3 0) midway
midway-Reach =
    later
      (later
        (later
          (later
            (later
              (later (later (later here (load_tail 5 refl)) (see_room 5 0 refl (λ e. omega arith)))
                (write 5 0 refl))
              (publish 5 0 refl))
            (load_head refl))
          (load_tail 6 refl))
        (see_entries 0 refl (λ e. omega arith)))
      (see_room 6 1 refl (λ e. omega arith))

fifo_order_example : Inv midway.ring × ((5 ∷ []) ≡ midway.sent)
fifo_order_example = fifo_order 0 3 0 midway (omega arith) (omega arith) midway-Reach
