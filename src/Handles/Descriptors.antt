-- ===== src/Handles/Descriptors.antt =====
-- The descriptors that the handle table gives out.
use orbit.Base.{
  ℕ, suc, ◌+◌, ◌-◌, ◌^◌, ◌≤◌, ◌<◌, ◌≡◌, refl, Bool, true, false, ltb, leb, if◌then◌else◌, List, [],
  ◌∷◌, Option, none, some, arith, All, min, inl, inr, ◌⊎◌, subst, sym, Bool-cases,
}
use orbit.Base.Map
use orbit.Base.Map.{IsSorted, Rising, insert-Rising, remove-Rising, lookup-insert}
use orbit.Handles.{
  Handle, stdin, stdout, stderr, Slot, new_slot, with_flags, ProcessHandles, fd_max, is_empty,
  seed_stdio, insert_with_flags, insert_at, get_slot, remove_slot,
}

pub data Op : Type 0 where
  seeds : Op
  inserts : Handle → (cloexec nonblock : Bool) → Op
  inserts_at : (fd : ℕ) → Slot → Op
  removes : (fd : ℕ) → Op

-- The table, and the descriptor that an insert gives out.
abbrev pub step : ProcessHandles → Op → ProcessHandles × Option ℕ
step h seeds = (seed_stdio h, none)
step h (inserts handle cloexec nonblock) =
    let (fd, h') = insert_with_flags h handle cloexec nonblock in (h', fd)
step h (inserts_at fd slot) = ((insert_at h fd slot).1, none)
step h (removes fd) = ((remove_slot h fd).1, none)

abbrev or_more : Option ℕ → List ℕ → List ℕ
or_more none fds = fds
or_more (some fd) fds = fd ∷ fds

abbrev pub given_out : ProcessHandles → List Op → List ℕ
given_out h [] = []
given_out h (op ∷ ops) = or_more (step h op).1 (given_out (step h op).0 ops)

-- The descriptors rise from `n` on, and none is above the largest.
abbrev pub Ascending : ℕ → List ℕ → Type 0
Ascending n [] = Unit
Ascending n (fd ∷ fds) = (n ≤ fd) × (fd ≤ fd_max) × Ascending (suc fd) fds

abbrev pub Unused : ProcessHandles → Option ℕ → Type 0
Unused h none = Unit
Unused h (some fd) = get_slot h fd ≡ none

-- No descriptor is open when it is given out.
abbrev pub Fresh : ProcessHandles → List Op → Type 0
Fresh h [] = Unit
Fresh h (op ∷ ops) = Unused h (step h op).1 × Fresh (step h op).0 ops

-- The open descriptors lie below the next one.
abbrev pub Below : ℕ → List (ℕ × Slot) → Type 0
Below n table = All (λ e. e.0 < n) table

pub record IsTable (h : ProcessHandles) : Type 0 where
  pub sorted : IsSorted h.table
  pub below : Below h.next_id h.table
  pub bound : h.next_id ≤ fd_max + 1

Below-weaken : (n k : ℕ) (table : List (ℕ × Slot)) → n ≤ k → Below n table → Below k table
Below-weaken n k [] le b = tt
Below-weaken n k (e ∷ es) le b = (omega arith, Below-weaken n k es le b.1)

Below-insert :
    (n fd : ℕ) (s : Slot) (table : List (ℕ × Slot))
    → fd < n
    → Below n table
    → Below n (Map.insert fd s table)
unfolding Map.insert
Below-insert n fd s [] lt b = (lt, tt)
Below-insert n fd s ((k, w) ∷ es) lt b = ground (arith, Below-insert n fd s es)

Below-remove : (n fd : ℕ) (table : List (ℕ × Slot)) → Below n table → Below n (Map.remove fd table)
unfolding Map.remove
Below-remove n fd [] b = tt
Below-remove n fd ((k, w) ∷ es) b = ground (arith, Below-remove n fd es)

lookup-Below :
    (n fd : ℕ) (table : List (ℕ × Slot)) → n ≤ fd → Below n table → Map.lookup fd table ≡ none
unfolding Map.lookup
lookup-Below n fd [] le b = refl
lookup-Below n fd ((k, w) ∷ es) le b = ground (arith, lookup-Below n fd es)

module _ (h : ProcessHandles) (ok : IsTable h) where
  put-IsTable :
      (fd n : ℕ) (s : Slot)
      → fd < n
      → h.next_id ≤ n
      → n ≤ fd_max + 1
      → IsTable (record { table = Map.insert fd s h.table; next_id = n })
  put-IsTable fd n s lt le bound = record {
    sorted = insert-Rising 0 fd s h.table (omega arith) ok.sorted;
    below = Below-insert n fd s h.table lt (Below-weaken h.next_id n h.table le ok.below);
    bound = bound;
  }

  insert-IsTable :
      (handle : Handle) (cloexec nonblock : Bool)
      → IsTable (insert_with_flags h handle cloexec nonblock).1
  unfolding insert_with_flags
  insert-IsTable handle cloexec nonblock = elim (Bool-cases (ltb fd_max h.next_id)) [
    | inl full ↦ rw full ok
    | inr room ↦
        rw room (put-IsTable h.next_id (h.next_id + 1) _ (omega arith) (omega arith) (ground arith))
  ]

  insert_at-IsTable : (fd : ℕ) (s : Slot) → IsTable (insert_at h fd s).1
  unfolding insert_at
  insert_at-IsTable fd s = elim (Bool-cases (ltb fd_max fd)) [
    | inl over ↦ rw over ok
    | inr fits ↦ elim (Bool-cases (leb h.next_id fd)) [
      | inl past ↦
          rw (fits, past)
            (put-IsTable fd (min (fd + 1) (2 ^ 32 - 1)) s (ground arith) (ground arith)
              (ground arith))
      | inr within ↦
          rw (fits, within) (put-IsTable fd h.next_id s (ground arith) (omega arith) ok.bound)
    ]
  ]

  remove-IsTable : (fd : ℕ) → IsTable (remove_slot h fd).1
  unfolding remove_slot
  remove-IsTable fd = record {
    sorted = remove-Rising 0 fd h.table ok.sorted;
    below = Below-remove h.next_id fd h.table ok.below;
    bound = ok.bound;
  }

  seed-IsTable : IsTable (seed_stdio h)
  unfolding seed_stdio
  seed-IsTable = elim (Bool-cases (is_empty h.table)) [
    | inr used ↦ rw used ok
    | inl empty ↦
        let n = if ltb h.next_id 3 then 3 else h.next_id in
        let le : h.next_id ≤ n = ground arith in
        let room : 3 ≤ n = ground arith in
        let t0 = Map.insert 0 (new_slot stdin) h.table in
        let t1 = Map.insert 1 (new_slot stdout) t0 in
        let below : Below n h.table = Below-weaken h.next_id n h.table le ok.below in
        let b0 : Below n t0 = Below-insert n 0 (new_slot stdin) h.table (omega arith) below in
        let b1 : Below n t1 = Below-insert n 1 (new_slot stdout) t0 (omega arith) b0 in
        let s0 : IsSorted t0 = insert-Rising 0 0 (new_slot stdin) h.table (omega arith) ok.sorted in
        let s1 : IsSorted t1 = insert-Rising 0 1 (new_slot stdout) t0 (omega arith) s0 in
        rw empty (record {
          sorted = insert-Rising 0 2 (new_slot stderr) t1 (omega arith) s1;
          below = Below-insert n 2 (new_slot stderr) t1 (omega arith) b1;
          bound = ground (arith, ok.bound);
        })
  ]

  step-IsTable : (op : Op) → IsTable (step h op).0
  step-IsTable seeds = seed-IsTable
  step-IsTable (inserts handle cloexec nonblock) = insert-IsTable handle cloexec nonblock
  step-IsTable (inserts_at fd slot) = insert_at-IsTable fd slot
  step-IsTable (removes fd) = remove-IsTable fd

  step-Unused : (op : Op) → Unused h (step h op).1
  unfolding insert_with_flags get_slot
  step-Unused (inserts handle cloexec nonblock) = elim (Bool-cases (ltb fd_max h.next_id)) [
    | inl full ↦ rw full tt
    | inr room ↦ rw room (lookup-Below h.next_id h.next_id h.table (omega arith) ok.below)
  ]
  step-Unused seeds = tt
  step-Unused (inserts_at fd slot) = tt
  step-Unused (removes fd) = tt

Ascending-weaken : (n k : ℕ) (fds : List ℕ) → k ≤ n → Ascending n fds → Ascending k fds
Ascending-weaken n k [] le a = tt
Ascending-weaken n k (fd ∷ fds) le a = (omega arith, a.1, a.2)

-- What a step gives out, and how far the next descriptor moves.
step-Ascending :
    (h : ProcessHandles) (op : Op) (fds : List ℕ)
    → Ascending (step h op).0.next_id fds
    → Ascending h.next_id (or_more (step h op).1 fds)
unfolding insert_with_flags insert_at seed_stdio remove_slot
step-Ascending h seeds fds later =
    Ascending-weaken (seed_stdio h).next_id h.next_id fds (ground arith) later
step-Ascending h (inserts handle cloexec nonblock) fds later =
    by_room (Bool-cases (ltb fd_max h.next_id))
  where
    by_room :
        (ltb fd_max h.next_id ≡ true) ⊎ (ltb fd_max h.next_id ≡ false)
        → Ascending h.next_id (or_more (insert_with_flags h handle cloexec nonblock).0 fds)
    by_room (inl full) =
        let same : insert_with_flags h handle cloexec nonblock ≡ (none, h) = rw full refl in
        subst
          (λ (r : Option ℕ × ProcessHandles).
            Ascending r.1.next_id fds → Ascending h.next_id (or_more r.0 fds))
          (sym same) (λ a. a) later
    by_room (inr room) =
        let h' : ProcessHandles = record {
          table = Map.insert h.next_id (with_flags handle cloexec nonblock) h.table;
          next_id = h.next_id + 1;
        } in
        let same : insert_with_flags h handle cloexec nonblock ≡ (some h.next_id, h') =
          rw room refl in
        subst
          (λ (r : Option ℕ × ProcessHandles).
            Ascending r.1.next_id fds → Ascending h.next_id (or_more r.0 fds))
          (sym same)
          (λ a. (
            omega arith,
            ground arith,
            Ascending-weaken (h.next_id + 1) (suc h.next_id) fds (omega arith) a,
          ))
          later
step-Ascending h (inserts_at fd slot) fds later =
    Ascending-weaken (insert_at h fd slot).1.next_id h.next_id fds (ground arith) later
step-Ascending h (removes fd) fds later = later

-- Over a table whose keys lie below its next descriptor: the descriptors that inserts give out in a
-- history of seeds, inserts, `insert_at`s and removals rise, so that none is given out twice, lie
-- between the next descriptor at the start and `fd_max`, and are not open when they are given out.
pub given_out-Fresh :
    (h : ProcessHandles) (ops : List Op)
    → IsTable h
    → Ascending h.next_id (given_out h ops) × Fresh h ops
given_out-Fresh h [] ok = (tt, tt)
given_out-Fresh h (op ∷ ops) ok =
    let later = given_out-Fresh (step h op).0 ops (step-IsTable h ok op) in
    (step-Ascending h op _ later.0, (step-Unused h ok op, later.1))
