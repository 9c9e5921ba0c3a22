-- ===== src/Handles.antt =====
-- The handle table of a process, kmain/src/kernel/handle.rs, and `run_fs_seek` of
-- kmain/src/kernel/mod.rs. A shared region is a number; the files' sizes are an argument.
pub mod Descriptors
pub mod Seek
mod Tests
use orbit.Base.{
  ℕ, ◌+◌, ◌-◌, ◌%◌, ◌^◌, Bool, true, false, not, ltb, leb, ◌==◌, ◌&&◌, if◌then◌else◌, List, [], ◌∷◌,
  Option, none, some, min,
}
use orbit.Base.Map
use orbit.Kernel.Processes.{to_ret, ebadf, einval}

pub record OpenFile : Type 0 where
  pub inode : ℕ
  pub offset : ℕ
  pub dir_cursor : ℕ
  pub is_regular : Bool

pub data Handle : Type 0 where
  net_channel : (region : ℕ) → Handle
  file : OpenFile → Handle
  stdin stdout stderr : Handle
  event_fd : (region kernel_parked_tid : ℕ) → Handle

pub record Slot : Type 0 where
  pub handle : Handle
  pub cloexec : Bool
  pub nonblock : Bool

unfoldable pub new_slot : Handle → Slot
new_slot handle = record { handle = handle; cloexec = false; nonblock = false }

unfoldable pub with_flags : Handle → Bool → Bool → Slot
with_flags handle cloexec nonblock = record {
  handle = handle;
  cloexec = cloexec;
  nonblock = nonblock;
}

pub record ProcessHandles : Type 0 where
  pub table : List (ℕ × Slot)
  pub next_id : ℕ

-- `i32::MAX`.
abbrev pub fd_max : ℕ
fd_max = 2 ^ 31 - 1

unfoldable pub new : ProcessHandles
new = record { table = []; next_id = 0 }

abbrev pub is_empty : List (ℕ × Slot) → Bool
is_empty [] = true
is_empty (e ∷ es) = false

unfoldable pub seed_stdio : ProcessHandles → ProcessHandles
unfolding new_slot
seed_stdio h =
    if is_empty h.table
    then record {
      table =
          Map.insert 2 (new_slot stderr)
            (Map.insert 1 (new_slot stdout) (Map.insert 0 (new_slot stdin) h.table));
      next_id = if ltb h.next_id 3 then 3 else h.next_id;
    }
    else h

-- `next_id` is at most `fd_max + 1`, so that its `checked_add` does not fail where it is reached.
unfoldable pub insert_with_flags : ProcessHandles → Handle → Bool → Bool → Option ℕ × ProcessHandles
unfolding with_flags
insert_with_flags h handle cloexec nonblock = if ltb fd_max h.next_id then (none, h) else (
  some h.next_id,
  record {
    table = Map.insert h.next_id (with_flags handle cloexec nonblock) h.table;
    next_id = h.next_id + 1;
  },
)

unfoldable pub insert : ProcessHandles → Handle → Option ℕ × ProcessHandles
unfolding insert_with_flags
insert h handle = insert_with_flags h handle false false

-- The old slot comes first. `saturating_add` is on `u32`.
unfoldable pub insert_at : ProcessHandles → ℕ → Slot → Option Slot × ProcessHandles
insert_at h fd slot = if ltb fd_max fd then (none, h) else (
  Map.lookup fd h.table,
  record {
    table = Map.insert fd slot h.table;
    next_id = if leb h.next_id fd then min (fd + 1) (2 ^ 32 - 1) else h.next_id;
  },
)

unfoldable pub get_slot : ProcessHandles → ℕ → Option Slot
get_slot h fd = Map.lookup fd h.table

unfoldable pub get : ProcessHandles → ℕ → Option Handle
unfolding get_slot
get h fd = elim (get_slot h fd) [ none ↦ none | some s ↦ some s.handle ]

unfoldable pub remove_slot : ProcessHandles → ℕ → Option Slot × ProcessHandles
remove_slot h fd = (Map.lookup fd h.table, record h { table = Map.remove fd h.table })

unfoldable pub remove : ProcessHandles → ℕ → Option Handle × ProcessHandles
unfolding remove_slot
remove h fd =
    let (old, h') = remove_slot h fd in (elim old [ none ↦ none | some s ↦ some s.handle ], h')

-- `i64`s are bit patterns in 64 bits.
abbrev pub negative : ℕ → Bool
negative w = leb (2 ^ 63) w

abbrev pub same : Bool → Bool → Bool
same true b = b
same false b = not b

unfoldable pub checked_add_i64 : ℕ → ℕ → Option ℕ
checked_add_i64 a b =
    let sum = (a + b) % 2 ^ 64 in
    if same (negative a) (negative b) && not (same (negative sum) (negative a))
    then none
    else some sum

abbrev pub eio : ℕ
eio = 5

-- The new offset, or the error that is returned.
pub data Target : Type 0 where
  offset : ℕ → Target
  fails : (ret : ℕ) → Target

abbrev pub or_einval : Option ℕ → Target
or_einval none = fails (to_ret einval)
or_einval (some n) = offset n

abbrev pub from_end : Option ℕ → ℕ → Target
from_end none d = fails (to_ret eio)
from_end (some size) d = or_einval (checked_add_i64 size d)

abbrev pub target : (ℕ → Option ℕ) → OpenFile → ℕ → ℕ → Target
target size of d whence =
    if whence == 0
    then offset d
    else if whence == 1
    then or_einval (checked_add_i64 of.offset d)
    else if whence == 2
    then from_end (size of.inode) d
    else fails (to_ret einval)

abbrev pub seek_to : ProcessHandles → ℕ → Slot → OpenFile → Target → ProcessHandles × ℕ
seek_to h fd slot of (fails ret) = (h, ret)
seek_to h fd slot of (offset n) = if negative n then (h, to_ret einval) else (
  record h {
    table = Map.insert fd (record slot { handle = file (record of { offset = n }) }) h.table;
  },
  n,
)

abbrev pub seek_slot :
    (ℕ → Option ℕ) → ProcessHandles → ℕ → ℕ → ℕ → Slot → Handle → ProcessHandles × ℕ
seek_slot size h fd d whence slot (file of) =
    if not of.is_regular then (h, to_ret ebadf) else seek_to h fd slot of (target size of d whence)
seek_slot size h fd d whence slot other = (h, to_ret ebadf)

abbrev pub seek_open :
    (ℕ → Option ℕ) → ProcessHandles → ℕ → ℕ → ℕ → Option Slot → ProcessHandles × ℕ
seek_open size h fd d whence none = (h, to_ret ebadf)
seek_open size h fd d whence (some slot) = seek_slot size h fd d whence slot slot.handle

-- The part of `run_fs_seek` on the table of the caller's process.
unfoldable pub seek : (ℕ → Option ℕ) → ProcessHandles → ℕ → ℕ → ℕ → ProcessHandles × ℕ
unfolding to_ret get_slot checked_add_i64
seek size h fd d whence = seek_open size h fd d whence (get_slot h fd)

abbrev pub with_table :
    List (ℕ × ProcessHandles) → ℕ → ProcessHandles × ℕ → List (ℕ × ProcessHandles) × ℕ
with_table all pid r = (Map.insert pid r.0 all, r.1)

abbrev pub seek_of :
    (ℕ → Option ℕ)
    → List (ℕ × ProcessHandles)
    → ℕ
    → ℕ
    → ℕ
    → ℕ
    → Option ProcessHandles
    → List (ℕ × ProcessHandles) × ℕ
seek_of size all pid fd d whence none = (all, to_ret ebadf)
seek_of size all pid fd d whence (some h) = with_table all pid (seek size h fd d whence)

unfoldable pub run_fs_seek :
    (ℕ → Option ℕ) → List (ℕ × ProcessHandles) → ℕ → ℕ → ℕ → ℕ → List (ℕ × ProcessHandles) × ℕ
unfolding to_ret seek
run_fs_seek size all pid fd d whence = seek_of size all pid fd d whence (Map.lookup pid all)
