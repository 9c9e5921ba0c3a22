-- ===== src/Spsc.antt =====
-- The single-producer, single-consumer ring of process/src/spsc.rs, and its copy in
-- net_channel/src/spsc.rs, which shares a page with user space and so reduces every index it loads.
-- `N` is the length of the buffer. An index is an AtomicUsize: a call that runs alone reads and
-- writes it at once (the interleavings are in Spsc/Concurrent). An index outside the buffer is a
-- panic, the result `none`.
pub mod Window
pub mod Refine
pub mod Masked
pub mod Concurrent
mod Tests
use orbit.Base.{
  ℕ, suc, ◌+◌, ◌-◌, ◌%◌, ◌^◌, Bool, ◌==◌, if◌then◌else◌, List, Option, none, some, get_elem?, set,
  length, ltb, replicate,
}

-- A ring with its buffer; `N` of the source is the buffer's length.
pub record SpscQueue {ℓ} (A : Type ℓ) : Type ℓ where
  pub head : ℕ
  pub tail : ℕ
  pub buffer : List A

-- Arithmetic on `usize`. The sum tail + N - head of `len` is not below zero at any index below N.
abbrev pub size_mod : ℕ
size_mod = 2 ^ 64

-- `Result<(), T>` of `enqueue`.
pub data Enqueued {ℓ} (A : Type ℓ) : Type ℓ where
  ok : Enqueued A
  err : A → Enqueued A

module _ {ℓ} {A : Type ℓ} where
  -- `core::mem::zeroed()`: both indices at 0.
  abbrev pub zeroed : ℕ → A → SpscQueue A
  zeroed n z = record { head = 0; tail = 0; buffer = replicate n z }

  pub enqueue : SpscQueue A → A → Option (Enqueued A × SpscQueue A)
  enqueue q val =
      let next = (q.tail + 1) % size_mod % length q.buffer in
      if next == q.head
      then some (err val, q)
      else if ltb q.tail (length q.buffer)
      then some (ok, record q { buffer = set q.buffer q.tail val; tail = next })
      else none

  pub dequeue : SpscQueue A → Option (Option A × SpscQueue A)
  dequeue q = if q.head == q.tail then some (none, q) else elim (get_elem? q.buffer q.head) [
    | none ↦ none
    | some val ↦ some (some val, record q { head = (q.head + 1) % size_mod % length q.buffer })
  ]

  pub is_empty : SpscQueue A → Bool
  is_empty q = q.head == q.tail

  pub is_full : SpscQueue A → Bool
  is_full q = (q.tail + 1) % size_mod % length q.buffer == q.head

  -- tail + N - head: the sum is not below head, so the subtraction does not wrap.
  pub len : SpscQueue A → ℕ
  len q = (q.tail + length q.buffer - q.head) % length q.buffer

  -- `reset_producer` and `reset_consumer` each store one index.
  pub reset_producer : SpscQueue A → SpscQueue A
  reset_producer q = record q { tail = 0 }

  pub reset_consumer : SpscQueue A → SpscQueue A
  reset_consumer q = record q { head = 0 }
