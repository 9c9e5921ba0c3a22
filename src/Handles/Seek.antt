-- ===== src/Handles/Seek.antt =====
-- `run_fs_seek` against plain arithmetic.
use orbit.Base.{
  ℕ, ◌+◌, ◌-◌, ◌^◌, ◌<◌, ◌≤◌, ◌≡◌, true, not, ltb, leb, ◌==◌, if◌then◌else◌, List, Option, none,
  some, arith, ap, ◌∙◌, Bool-cases, inl, inr,
}
use orbit.Base.Map
use orbit.Kernel.Processes.{to_ret, einval, ebadf}
use orbit.Handles.{
  OpenFile, file, Slot, ProcessHandles, get_slot, checked_add_i64, seek, target, seek_slot, seek_to,
  or_einval, offset, run_fs_seek, with_table,
}

-- Where a move from `base` leads: by `d` forwards, or by `2 ^ 64 - d` backwards if `d` is the pattern
-- of a negative number. It stays from 0 on and below `2 ^ 63`.
abbrev pub moved : ℕ → ℕ → Option ℕ
moved base d =
    if ltb d (2 ^ 63)
    then if ltb (base + d) (2 ^ 63) then some (base + d) else none
    else if leb (2 ^ 64 - d) base
    then some (base - (2 ^ 64 - d))
    else none

-- What a seek counts from.
abbrev pub base : ℕ → ℕ → ℕ → ℕ
base whence current size = if whence == 0 then 0 else if whence == 1 then current else size

abbrev pub put_offset : ProcessHandles → ℕ → Slot → OpenFile → Option ℕ → ProcessHandles × ℕ
put_offset h fd slot of none = (h, to_ret einval)
put_offset h fd slot of (some n) = (
  record h {
    table = Map.insert fd (record slot { handle = file (record of { offset = n }) }) h.table;
  },
  n,
)

checked-moved :
    (h : ProcessHandles) (fd : ℕ) (slot : Slot) (of : OpenFile) (b d : ℕ)
    → b < 2 ^ 63
    → d < 2 ^ 64
    → seek_to h fd slot of (or_einval (checked_add_i64 b d)) ≡ put_offset h fd slot of (moved b d)
unfolding checked_add_i64
checked-moved h fd slot of b d bs ds = ground arith

set-moved :
    (h : ProcessHandles) (fd : ℕ) (slot : Slot) (of : OpenFile) (d : ℕ)
    → d < 2 ^ 64
    → seek_to h fd slot of (offset d) ≡ put_offset h fd slot of (moved 0 d)
set-moved h fd slot of d ds = ground arith

target-moved :
    (size : ℕ → Option ℕ) (h : ProcessHandles) (fd : ℕ) (slot : Slot) (of : OpenFile)
    (d whence n : ℕ)
    → size of.inode ≡ some n
    → n < 2 ^ 63
    → of.offset < 2 ^ 63
    → d < 2 ^ 64
    → whence ≤ 2
    → seek_to h fd slot of (target size of d whence)
      ≡ put_offset h fd slot of (moved (base whence of.offset n) d)
target-moved size h fd slot of d whence n sized ns os ds ws = elim (Bool-cases (whence == 0)) [
  | inl e ↦ rw e (set-moved h fd slot of d ds)
  | inr e ↦ elim (Bool-cases (whence == 1)) [
    | inl e' ↦ rw (e, e') (checked-moved h fd slot of of.offset d os ds)
    | inr e' ↦
        let last : (whence == 2) ≡ true = ground arith in
        rw (e, e', last, sized) (checked-moved h fd slot of n d ns ds)
  ]
]

seek-moved :
    (size : ℕ → Option ℕ) (h : ProcessHandles) (fd : ℕ) (slot : Slot) (of : OpenFile)
    (d whence n : ℕ)
    → get_slot h fd ≡ some slot
    → slot.handle ≡ file of
    → of.is_regular ≡ true
    → size of.inode ≡ some n
    → n < 2 ^ 63
    → of.offset < 2 ^ 63
    → d < 2 ^ 64
    → whence ≤ 2
    → seek size h fd d whence ≡ put_offset h fd slot of (moved (base whence of.offset n) d)
unfolding seek
seek-moved size h fd slot of d whence n here held regular sized ns os ds ws =
    let past : seek_slot size h fd d whence slot (file of)
        ≡ seek_to h fd slot of (target size of d whence) =
      ap (λ b. if not b then (h, to_ret ebadf) else seek_to h fd slot of (target size of d whence))
        regular in
    rw here (
      ap (seek_slot size h fd d whence slot) held
      ∙ past
      ∙ target-moved size h fd slot of d whence n sized ns os ds ws)

-- On the descriptor of a regular file, at an offset below 2 ^ 63 and of a size below it, a seek from
-- the start, the offset or the end moves as plain arithmetic says: where the place lies from 0 on and
-- below 2 ^ 63 it becomes the offset and the result, with all else kept; anywhere else the result is
-- EINVAL and the table stays.
pub run_fs_seek-moved :
    (size : ℕ → Option ℕ) (all : List (ℕ × ProcessHandles)) (pid fd d whence n : ℕ)
    (h : ProcessHandles) (slot : Slot) (of : OpenFile)
    → Map.lookup pid all ≡ some h
    → get_slot h fd ≡ some slot
    → slot.handle ≡ file of
    → of.is_regular ≡ true
    → size of.inode ≡ some n
    → n < 2 ^ 63
    → of.offset < 2 ^ 63
    → d < 2 ^ 64
    → whence ≤ 2
    → run_fs_seek size all pid fd d whence
      ≡ with_table all pid (put_offset h fd slot of (moved (base whence of.offset n) d))
unfolding run_fs_seek
run_fs_seek-moved size all pid fd d whence n h slot of mine here held regular sized ns os ds ws =
    rw mine (
      ap (with_table all pid)
        (seek-moved size h fd slot of d whence n here held regular sized ns os ds ws))
