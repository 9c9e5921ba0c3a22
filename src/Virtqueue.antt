-- ===== src/Virtqueue.antt =====
-- The split-ring virtqueue of virtio/src/queue.rs. The descriptors and the ring of heads are
-- memory that the queue writes; the used ring is written by the device, and an argument.
pub mod Chains
pub mod Push
pub mod Pop
pub mod Tests
use orbit.Base.{
  ℕ, zero, suc, ◌+◌, ◌-◌, ◌%◌, ◌^◌, Bool, true, false, not, ◌||◌, Option, none, some, List, [], ◌∷◌,
  length, ltb, ◌==◌, if◌then◌else◌, bit_and, bit_or,
}

pub record VirtqDesc : Type 0 where
  pub addr : ℕ
  pub len : ℕ
  pub flags : ℕ
  pub next : ℕ

-- VIRTQ_DESC_F_NEXT and VIRTQ_DESC_F_WRITE.
abbrev pub flag_next : ℕ
flag_next = 1

abbrev pub flag_write : ℕ
flag_write = 2

pub record VirtqUsedElem : Type 0 where
  pub id : ℕ
  pub written : ℕ

pub record Buf : Type 0 where
  pub pa : ℕ
  pub size : ℕ
  pub write : Bool

-- The used ring, as the device has left it.
pub record VirtqUsed : Type 0 where
  pub idx : ℕ
  pub ring : ℕ → VirtqUsedElem

abbrev pub Descs : Type 0
Descs = ℕ → VirtqDesc

-- `avail_ring` and `published_idx` are the entries and the index of the available ring.
pub record Virtqueue : Type 0 where
  pub desc : Descs
  pub avail_ring : ℕ → ℕ
  pub published_idx : ℕ
  pub size : ℕ
  pub free_head : ℕ
  pub num_free : ℕ
  pub avail_idx : ℕ
  pub last_used_idx : ℕ

unfoldable pub set_desc : Descs → ℕ → VirtqDesc → Descs
set_desc d i v j = if j == i then v else d j

-- The loop of `new` over the `rounds` descriptors from `i` on.
unfoldable pub seed : ℕ → ℕ → ℕ → Descs → Descs
unfolding set_desc
seed zero i size d = d
seed (suc rounds) i size d = seed rounds (i + 1) size (
    set_desc d i
      (record { addr = 0; len = 0; flags = 0; next = if ltb (i + 1) size then i + 1 else 0 }))

unfoldable pub new : Descs → (ℕ → ℕ) → ℕ → Virtqueue
unfolding seed
new memory avail size = record {
  desc = seed size 0 size memory;
  avail_ring = avail;
  published_idx = 0;
  size = size;
  free_head = 0;
  num_free = size;
  avail_idx = 0;
  last_used_idx = 0;
}

-- The descriptors popped from the free list, in order.
unfoldable pub gather : ℕ → ℕ → Descs → List ℕ
gather zero head d = []
gather (suc n) head d = head ∷ gather n (d head).next d

-- What follows the last of them.
unfoldable pub after : ℕ → ℕ → Descs → ℕ
after zero head d = head
after (suc n) head d = after n (d head).next d

unfoldable pub desc_flags : Bool → Bool → ℕ
desc_flags write last =
    let flags = if write then bit_or 0 flag_write else 0 in
    if last then flags else bit_or flags flag_next

unfoldable pub filled : Buf → List ℕ → VirtqDesc
unfolding desc_flags
filled b [] = record { addr = b.pa; len = b.size; flags = desc_flags b.write true; next = 0 }
filled b (h ∷ hs) = record { addr = b.pa; len = b.size; flags = desc_flags b.write false; next = h }

unfoldable pub populate : List ℕ → List Buf → Descs → Descs
unfolding filled set_desc
populate [] bufs d = d
populate (h ∷ hs) [] d = d
populate (h ∷ hs) (b ∷ bs) d = populate hs bs (set_desc d h (filled b hs))

-- The guards of `push_chain`; the length is cut to 16 bits in the second.
unfoldable pub refuses : Virtqueue → List Buf → Bool
refuses q bufs = (length bufs == 0) || ltb q.num_free (length bufs % 2 ^ 16) || ltb 32 (length bufs)

-- `none` is `Err(Full)`.
unfoldable pub push_chain : List Buf → Virtqueue → Option ℕ × Virtqueue
push_chain bufs q =
    let n = length bufs in
    let chain = gather n q.free_head q.desc in
    let slot = q.avail_idx % q.size in
    let bumped = (q.avail_idx + 1) % 2 ^ 16 in
    if refuses q bufs then (none, q) else (
      some q.free_head,
      record q {
        desc = populate chain bufs q.desc;
        free_head = after n q.free_head q.desc;
        num_free = q.num_free - n;
        avail_ring = λ i. if i == slot then q.free_head else q.avail_ring i;
        avail_idx = bumped;
        published_idx = bumped;
      },
    )

-- The walk to the last descriptor of a chain, with the count; `none` is the end of the fuel.
unfoldable pub find_tail : ℕ → ℕ → ℕ → Descs → Option (ℕ × ℕ)
find_tail zero idx count d = none
find_tail (suc fuel) idx count d =
    let rest = find_tail fuel (d idx).next (count + 1) d in
    if bit_and (d idx).flags flag_next == 0 then some (idx, count + 1) else rest

pub data Popped : Type 0 where
  nothing : Popped
  endless : Popped
  popped : ℕ → ℕ → Virtqueue → Popped

unfoldable pub splice : ℕ → ℕ → Virtqueue → Option (ℕ × ℕ) → Popped
unfolding set_desc
splice head written q none = endless
splice head written q (some (tail, count)) = popped head written (record q {
  desc = set_desc q.desc tail (record (q.desc tail) { next = q.free_head });
  free_head = head;
  num_free = q.num_free + count;
})

-- A chain has at most `size` descriptors, which is the fuel of the walk.
unfoldable pub pop_used : VirtqUsed → Virtqueue → Popped
unfolding splice
pop_used used q =
    let elem = used.ring (q.last_used_idx % q.size) in
    let head = elem.id % 2 ^ 16 in
    let q' = record q { last_used_idx = (q.last_used_idx + 1) % 2 ^ 16 } in
    if used.idx == q.last_used_idx
    then nothing
    else splice head elem.written q' (find_tail q.size head 0 q.desc)

unfoldable pub has_used : VirtqUsed → Virtqueue → Bool
has_used used q = not (used.idx == q.last_used_idx)

unfoldable pub peek_free_head : Virtqueue → Option ℕ
peek_free_head q = if q.num_free == 0 then none else some q.free_head
