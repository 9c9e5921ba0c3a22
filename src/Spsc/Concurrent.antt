-- ===== src/Spsc/Concurrent.antt =====
-- One producer and one consumer over a ring, a shared access at a time (process/src/spsc.rs). The
-- acquire and release orders of the source are taken as sequential consistency: an interleaving is
-- a sequence of the steps below. `sent` lists the values whose `enqueue` has returned Ok, and
-- `received` those that `dequeue` has returned, both in order.
pub mod Invariant
pub mod Fifo
use orbit.Base.{ℕ, ◌+◌, ◌%◌, ◌≡◌, ◌≢◌, List, [], ◌∷◌, ◌++◌, length, get_elem?, set, some}
use orbit.Spsc.{SpscQueue, size_mod}

-- Where the producer stands in `enqueue`, with the locals that are live there.
pub data Producer {ℓ} (A : Type ℓ) : Type ℓ where
  idle : Producer A
  loaded : (val : A) (tail : ℕ) → Producer A  -- before the load of `head`
  room : (val : A) (tail : ℕ) → Producer A  -- before the write of the slot
  written : (val : A) (tail : ℕ) → Producer A  -- before the store of `tail`

-- Where the consumer stands in `dequeue`.
pub data Consumer {ℓ} (A : Type ℓ) : Type ℓ where
  idle : Consumer A
  loaded : (head : ℕ) → Consumer A  -- before the load of `tail`
  entries : (head : ℕ) → Consumer A  -- before the read of the slot
  taken : (val : A) (head : ℕ) → Consumer A  -- before the store of `head`

pub record System {ℓ} (A : Type ℓ) : Type ℓ where
  pub ring : SpscQueue A
  pub producer : Producer A
  pub consumer : Consumer A
  pub sent : List A
  pub received : List A

-- `(i + 1) % N`, as both sides compute it.
abbrev pub next_index {ℓ} : {A : Type ℓ} → SpscQueue A → ℕ → ℕ
next_index q i = (i + 1) % size_mod % length q.buffer

-- A step of either side. The slot is written and read at the index that the side has loaded; that
-- this lies in the buffer is a theorem below, not a premise.
pub data Step {ℓ} {A : Type ℓ} (s : System A) : System A → Type ℓ where
  load_tail :
      (val : A)
      → s.producer ≡ Producer.idle
      → Step s (record s { producer = Producer.loaded val s.ring.tail })
  full :
      (val : A) (tail : ℕ)
      → s.producer ≡ Producer.loaded val tail
      → next_index s.ring tail ≡ s.ring.head
      → Step s (record s { producer = Producer.idle })
  see_room :
      (val : A) (tail : ℕ)
      → s.producer ≡ Producer.loaded val tail
      → next_index s.ring tail ≢ s.ring.head
      → Step s (record s { producer = Producer.room val tail })
  write :
      (val : A) (tail : ℕ)
      → s.producer ≡ Producer.room val tail
      → Step s (record s {
        ring = record (s.ring) { buffer = set s.ring.buffer tail val };
        producer = Producer.written val tail;
      })
  publish :
      (val : A) (tail : ℕ)
      → s.producer ≡ Producer.written val tail
      → Step s (record s {
        ring = record (s.ring) { tail = next_index s.ring tail };
        producer = Producer.idle;
        sent = s.sent ++ (val ∷ []);
      })
  load_head :
      s.consumer ≡ Consumer.idle → Step s (record s { consumer = Consumer.loaded s.ring.head })
  empty :
      (head : ℕ)
      → s.consumer ≡ Consumer.loaded head
      → head ≡ s.ring.tail
      → Step s (record s { consumer = Consumer.idle })
  see_entries :
      (head : ℕ)
      → s.consumer ≡ Consumer.loaded head
      → head ≢ s.ring.tail
      → Step s (record s { consumer = Consumer.entries head })
  read :
      (val : A) (head : ℕ)
      → s.consumer ≡ Consumer.entries head
      → get_elem? s.ring.buffer head ≡ some val
      → Step s (record s { consumer = Consumer.taken val head })
  release :
      (val : A) (head : ℕ)
      → s.consumer ≡ Consumer.taken val head
      → Step s (record s {
        ring = record (s.ring) { head = next_index s.ring head };
        consumer = Consumer.idle;
        received = s.received ++ (val ∷ []);
      })

-- A fresh ring, with both sides idle.
abbrev pub start {ℓ} : {A : Type ℓ} → SpscQueue A → System A
start q = record {
  ring = q;
  producer = Producer.idle;
  consumer = Consumer.idle;
  sent = [];
  received = [];
}

pub data Reach {ℓ} {A : Type ℓ} (q : SpscQueue A) : System A → Type ℓ where
  here : Reach q (start q)
  later : {s t : System A} → Reach q s → Step s t → Reach q t
