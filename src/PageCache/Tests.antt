-- ===== src/PageCache/Tests.antt =====
-- A cache of kmain/src/kernel/page_cache.rs with an empty pool, one Ready page and one Loading page.
use orbit.Base.{
  mem, ℕ, ◌≡◌, ◌==◌, if◌then◌else◌, refl, [], ◌∷◌, some, arith, done, Bool-cases, inl, inr,
}
use orbit.Base.Map.{lookup}
use orbit.PageCache.{
  CacheKey, Waiter, kernel_waiter, loading, ready, PageCache, PageCacheStats, Result, is_ready,
  find, begin_load, complete_slot,
}
use orbit.PageCache.Invariant.{Inv, ranks}
use orbit.PageCache.Loads.{Keeps, Began, begin_load_lem}
use orbit.PageCache.Settles.{complete_slot_lem}

abbrev old : CacheKey
old = record { dev = 0; lba = 4 }

abbrev fresh : CacheKey
fresh = record { dev = 0; lba = 9 }

abbrev other : CacheKey
other = record { dev = 0; lba = 6 }

abbrev reader : Waiter
reader = kernel_waiter 3 0 4096 512

abbrev no_stats : PageCacheStats
no_stats = record {
  hits = 0;
  misses = 0;
  coalesced = 0;
  evictions = 0;
  pool_exhausted = 0;
  io_errors = 0;
  inflight_pages = 0;
  ready_pages = 0;
}

abbrev cache : PageCache
cache = record {
  entries = (4, ready 100 512) ∷ (6, loading 200 512 (reader ∷ [])) ∷ [];
  lru = old ∷ [];
  pool = [];
  capacity = 2;
  stats = no_stats;
}

cache-Inv : Inv cache
unfolding lookup
cache-Inv = record {
  sorted = (omega arith, (omega arith, tt));
  distinct = (refl, tt);
  exact = exact;
}
  where
    exact : (x : ℕ) → mem x (ranks cache.lru) ≡ is_ready (lookup x cache.entries)
    exact x = elim (Bool-cases (4 == x)) [
      | inl e ↦ rw e refl
      | inr e ↦ rw e (elim (Bool-cases (6 == x)) [ inl f ↦ rw f refl | inr f ↦ rw f refl ])
    ]

begin_load_lem_example :
    (r : Result ℕ) × (c' : PageCache) × (begin_load cache fresh 512 reader ≡ done (r, c'))
    × Keeps cache c'
    × Began cache fresh 512 reader r c'
begin_load_lem_example = begin_load_lem cache fresh 512 reader cache-Inv

complete_slot_lem_example :
    let r = complete_slot cache other 0 in
    Keeps cache (r.1)
    × (r.0 ≡ reader ∷ [])
    × ((j : ℕ)
        → lookup j r.1.entries ≡ (if 6 == j then some (ready 200 512) else lookup j cache.entries))
unfolding find lookup
complete_slot_lem_example = complete_slot_lem cache other 0 cache-Inv
