-- ===== src/Paging/Pages.antt =====
-- PageTableVec and PageAlloc of mmu/src/mmap.rs: where the frames of new page tables come from. The
-- frame allocator of the mem crate is a parameter.
use orbit.Base.{
  ℕ, ◌+◌, ◌-◌, ◌*◌, ◌/◌, ◌%◌, ◌≡◌, Bool, true, false, not, ◌&&◌, Option, none, some, leb, ltb, ◌==◌,
  if◌then◌else◌, arith, inl, inr, Bool-cases,
}
use orbit.Paging.Entry.{page_size}

pub record PageTableVec : Type 0 where
  pub start_addr : ℕ
  pub max_pages : ℕ
  pub current_page : ℕ

unfoldable pub new : ℕ → ℕ → PageTableVec
new start max_size = record {
  start_addr = start;
  max_pages = max_size / page_size;
  current_page = 0;
}

-- `none` is `Err(())`.
unfoldable pub next_frame : PageTableVec → Option ℕ × PageTableVec
next_frame v = if leb v.max_pages v.current_page then (none, v) else (
  some (v.start_addr + v.current_page * page_size),
  record v { current_page = v.current_page + 1 },
)

unfoldable pub table_count : PageTableVec → ℕ × ℕ
table_count v = (v.current_page, v.max_pages)

unfoldable pub current_tables_size : PageTableVec → ℕ
current_tables_size v = v.current_page * page_size

-- The frame allocator: a frame of one page, and the return of one.
pub record Frames (F : Type 0) : Type 0 where
  pub alloc_aligned : F → Option ℕ × F
  pub dealloc_aligned : F → ℕ → F

pub data PageAlloc (F : Type 0) : Type 0 where
  ptv : PageTableVec → PageAlloc F
  fa : F → PageAlloc F

module _ {F : Type 0} (frames : Frames F) where
  unfoldable pub allocate_page_table : PageAlloc F → Option ℕ × PageAlloc F
  unfolding next_frame
  allocate_page_table (ptv v) = let (frame, v') = next_frame v in (frame, ptv v')
  allocate_page_table (fa f) = let (frame, f') = frames.alloc_aligned f in (frame, fa f')

  -- The Boolean is false where the source returns `Err(())`.
  unfoldable pub free_page : PageAlloc F → ℕ → Bool × PageAlloc F
  free_page (ptv v) pa = (false, ptv v)
  free_page (fa f) pa = (true, fa (frames.dealloc_aligned f pa))

-- What an allocation promises, for a set of spare frames: the frame was spare and is no longer, and
-- no frame becomes spare.
module _ {S : Type 0} (spare : S → ℕ → Bool) (s : S) where
  abbrev pub Handed : Option ℕ × S → Type 0
  Handed (none, s') = (q : ℕ) → (spare s' q && not (spare s q)) ≡ false
  Handed (some pa, s') =
      (spare s pa ≡ true)
      × (spare s' pa ≡ false)
      × ((q : ℕ) → (spare s' q && not (spare s q)) ≡ false)

-- The contract of the frame allocator.
pub record FramesLaws {F : Type 0} (frames : Frames F) : Type 0 where
  pub spare : F → ℕ → Bool
  pub alloc_lem : (f : F) → Handed spare f (frames.alloc_aligned f)

-- The frames that a PageTableVec has left.
unfoldable pub left : PageTableVec → ℕ → Bool
left v pa =
    leb (v.start_addr + v.current_page * page_size) pa
    && ltb pa (v.start_addr + v.max_pages * page_size)
    && ((pa - v.start_addr) % page_size == 0)

unfoldable pub spare_frame :
    {F : Type 0} {frames : Frames F} → FramesLaws frames → PageAlloc F → ℕ → Bool
unfolding left
spare_frame laws (ptv v) pa = left v pa
spare_frame laws (fa f) pa = laws.spare f pa

pub next_frame-Handed : (v : PageTableVec) → Handed left v (next_frame v)
unfolding next_frame left
next_frame-Handed v = elim (Bool-cases (leb v.max_pages v.current_page)) [
  | inl full ↦ rw full (λ q. ground arith)
  | inr free ↦ rw free (ground arith, ground arith, λ q. ground arith)
]

-- Either kind of allocator keeps the promise.
module _ {F : Type 0} {frames : Frames F} (laws : FramesLaws frames) where
  from_vec :
      (v : PageTableVec) (r : Option ℕ × PageTableVec)
      → Handed left v r
      → Handed (spare_frame laws) (ptv v) (r.0, ptv r.1)
  unfolding spare_frame
  from_vec v (none, v') h = h
  from_vec v (some pa, v') h = h

  from_frames :
      (f : F) (r : Option ℕ × F)
      → Handed laws.spare f r
      → Handed (spare_frame laws) (fa f) (r.0, fa r.1)
  unfolding spare_frame
  from_frames f (none, f') h = h
  from_frames f (some pa, f') h = h

  pub allocate_page_table-Handed :
      (pages : PageAlloc F) → Handed (spare_frame laws) pages (allocate_page_table frames pages)
  unfolding allocate_page_table
  allocate_page_table-Handed (ptv v) = from_vec v (next_frame v) (next_frame-Handed v)
  allocate_page_table-Handed (fa f) = from_frames f (frames.alloc_aligned f) (laws.alloc_lem f)
