-- ===== src/PageCache.antt =====
-- kmain/src/kernel/page_cache.rs: the cache of disk pages. A frame is its physical address. The map is
-- keyed by the place of a key in the order of (dev, lba). The end of the pool that `push` and `pop`
-- work at is the head of its list; the front of the `lru` deque is the head of its list.
pub mod Pack
pub mod Invariant
pub mod Loads
pub mod Slots
pub mod Settles
pub mod Hits
mod Tests
use orbit.Base.{
  ℕ, suc, ◌+◌, ◌*◌, ◌/◌, ◌%◌, ◌^◌, Bool, true, false, ◌==◌, if◌then◌else◌, List, [], ◌∷◌, ◌++◌,
  Option, none, some, bit_and, bit_or, Run, done, panic, ◌>>=◌,
}
use orbit.Base.Map.{lookup, insert, remove, contains_key, total}

pub record CacheKey : Type 0 where
  pub dev : ℕ
  pub lba : ℕ

-- The order of the keys: by device, then by block (which is below 2 ^ 64).
abbrev pub rank : CacheKey → ℕ
rank k = k.dev * 2 ^ 64 + k.lba

abbrev pub slot_occupied : ℕ
slot_occupied = 2 ^ 63

abbrev pub slot_dev_mask : ℕ
slot_dev_mask = 0xFF

abbrev pub slot_lba_mask : ℕ
slot_lba_mask = 0x7FFFFFFFFFFFFF00

unfoldable pub pack : CacheKey → ℕ
pack key = bit_or (bit_or slot_occupied (bit_and (key.lba * 2 ^ 8 % 2 ^ 64) slot_lba_mask)) key.dev

unfoldable pub unpack : ℕ → Option CacheKey
unpack packed =
    if bit_and packed slot_occupied == 0
    then none
    else some (record {
      dev = bit_and packed slot_dev_mask % 2 ^ 8;
      lba = bit_and packed slot_lba_mask / 2 ^ 8;
    })

pub data Waiter : Type 0 where
  user_waiter : (tid pid intra user_page_pa user_page_off len : ℕ) → Waiter
  kernel_waiter : (tid intra dst_kva len : ℕ) → Waiter

pub data SlotState : Type 0 where
  loading : (frame valid_bytes : ℕ) → List Waiter → SlotState
  ready : (frame valid_bytes : ℕ) → SlotState

abbrev pub frame_of : SlotState → ℕ
frame_of (loading f n ws) = f
frame_of (ready f n) = f

abbrev pub is_loading : SlotState → Bool
is_loading (loading f n ws) = true
is_loading (ready f n) = false

pub record PageCacheStats : Type 0 where
  pub hits : ℕ
  pub misses : ℕ
  pub coalesced : ℕ
  pub evictions : ℕ
  pub pool_exhausted : ℕ
  pub io_errors : ℕ
  pub inflight_pages : ℕ
  pub ready_pages : ℕ

pub data CacheErr : Type 0 where
  not_found wrong_state exhausted already_present : CacheErr

pub data Result (A : Type 0) : Type 0 where
  ok : A → Result A
  err : CacheErr → Result A

pub record PageCache : Type 0 where
  pub entries : List (ℕ × SlotState)
  pub lru : List CacheKey
  pub pool : List ℕ
  pub capacity : ℕ
  pub stats : PageCacheStats

-- A counter is a `u64`, which wraps in a build without overflow checks.
abbrev pub bump : ℕ → ℕ
bump n = (n + 1) % 2 ^ 64

abbrev pub inflight_weight : SlotState → ℕ
inflight_weight s = if is_loading s then 1 else 0

abbrev pub ready_weight : SlotState → ℕ
ready_weight s = if is_loading s then 0 else 1

unfoldable pub stats_of : PageCache → PageCacheStats
stats_of c = record (c.stats) {
  inflight_pages = total inflight_weight c.entries;
  ready_pages = total ready_weight c.entries;
}

unfoldable pub find : PageCache → CacheKey → Option SlotState
find c key = lookup (rank key) c.entries

abbrev pub is_ready : Option SlotState → Bool
is_ready none = false
is_ready (some (loading f n ws)) = false
is_ready (some (ready f n)) = true

-- `position` and `remove` on the deque.
abbrev pub drop_key : CacheKey → List CacheKey → List CacheKey
drop_key key [] = []
drop_key key (k ∷ ks) = if rank k == rank key then ks else k ∷ drop_key key ks

unfoldable pub touch_lru : PageCache → CacheKey → PageCache
touch_lru c key =
    if is_ready (lookup (rank key) c.entries)
    then record c { lru = key ∷ drop_key key c.lru }
    else c

unfoldable pub record_hit : PageCache → PageCache
record_hit c = record c { stats = record (c.stats) { hits = bump c.stats.hits } }

unfoldable pub register_waiter : PageCache → CacheKey → Waiter → Result Unit × PageCache
register_waiter c key w = elim (lookup (rank key) c.entries) [
  | none ↦ (err not_found, c)
  | some (ready f n) ↦ (err wrong_state, c)
  | some (loading f n ws) ↦ (
    ok tt,
    record c {
      entries = insert (rank key) (loading f n (ws ++ (w ∷ []))) c.entries;
      stats = record (c.stats) { coalesced = bump c.stats.coalesced };
    },
  )
]

-- `VecDeque::pop_back`.
abbrev pub pop_back : List CacheKey → Option (CacheKey × List CacheKey)
pop_back [] = none
pop_back (k ∷ ks) = elim (pop_back ks) [ none ↦ some (k, []) | some (l, rest) ↦ some (l, k ∷ rest) ]

abbrev pub without_victim : PageCache → CacheKey → List CacheKey → PageCache
without_victim c key rest = record c {
  entries = remove (rank key) c.entries;
  lru = rest;
  stats = record (c.stats) { evictions = bump c.stats.evictions };
}

abbrev pub count_exhausted : PageCache → PageCache
count_exhausted c = record c {
  stats = record (c.stats) { pool_exhausted = bump c.stats.pool_exhausted };
}

-- The victim's entry is taken out; `expect` and `unreachable!` are the panics.
abbrev pub evict : PageCache → CacheKey → List CacheKey → Run (Result ℕ × PageCache)
evict c key rest = elim (lookup (rank key) c.entries) [
  | none ↦ panic
  | some (loading f n ws) ↦ panic
  | some (ready f n) ↦ done (ok f, without_victim c key rest)
]

-- `pool.pop()`, and with an empty pool `lru.pop_back()`.
abbrev pub acquire_from : PageCache → List ℕ → Run (Result ℕ × PageCache)
acquire_from c (f ∷ pool) = done (ok f, record c { pool = pool })
acquire_from c [] = elim (pop_back c.lru) [
  | none ↦ done (err exhausted, count_exhausted c)
  | some (key, rest) ↦ evict c key rest
]

unfoldable pub acquire_frame : PageCache → Run (Result ℕ × PageCache)
acquire_frame c = acquire_from c c.pool

abbrev pub start_load : CacheKey → ℕ → Waiter → Result ℕ × PageCache → Result ℕ × PageCache
start_load key valid_bytes w (err e, c) = (err e, c)
start_load key valid_bytes w (ok pa, c) = (
  ok pa,
  record c {
    entries = insert (rank key) (loading pa valid_bytes (w ∷ [])) c.entries;
    stats = record (c.stats) { misses = bump c.stats.misses };
  },
)

unfoldable pub begin_load : PageCache → CacheKey → ℕ → Waiter → Run (Result ℕ × PageCache)
unfolding acquire_frame
begin_load c key valid_bytes w =
    if contains_key (rank key) c.entries
    then done (err already_present, c)
    else (acquire_frame c >>= λ r. done (start_load key valid_bytes w r))

unfoldable pub complete_slot : PageCache → CacheKey → ℕ → List Waiter × PageCache
complete_slot c key status = elim (lookup (rank key) c.entries) [
  | none ↦ ([], record c { entries = remove (rank key) c.entries })
  | some (ready f n) ↦
      ([], record c { entries = insert (rank key) (ready f n) (remove (rank key) c.entries) })
  | some (loading f n ws) ↦ (
    ws,
    (if status == 0
        then record c {
          entries = insert (rank key) (ready f n) (remove (rank key) c.entries);
          lru = key ∷ c.lru;
        }
        else record c {
          entries = remove (rank key) c.entries;
          pool = f ∷ c.pool;
          stats = record (c.stats) { io_errors = bump c.stats.io_errors };
        }),
  )
]
