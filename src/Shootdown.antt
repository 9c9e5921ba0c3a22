-- ===== src/Shootdown.antt =====
-- The shootdown of translations across harts, orbit-core/src/tlb_shootdown.rs, at the grain of its
-- accesses to shared memory: a sender pushes a request to the ring of each target or gives the
-- target up, and a receiver pops an entry, fences, and then decrements the sender's counter.
pub mod Balance
pub mod Accounts
pub mod Receives
pub mod Safety
pub mod Tests
use orbit.Base.{
  ℕ, zero, suc, ◌+◌, ◌-◌, ◌^◌, Bool, true, false, ◌&&◌, List, [], ◌∷◌, ◌++◌, length, ltb, ◌==◌, min,
  if◌then◌else◌,
}

-- A request is named by a number, which stands for its scope, its range and its counter.
pub data ShootdownEntry : Type 0 where
  empty : ShootdownEntry
  req : ℕ → ShootdownEntry

abbrev pub shootdown_ring_cap : ℕ
shootdown_ring_cap = 16

-- What a receiver holds between two accesses of `drain_shootdown_ring`.
pub data Hand : Type 0 where
  idle : Hand
  taken : ℕ → Hand
  fenced : ℕ → Hand

-- `remaining` are the targets that a call of `tlb_shootdown` has still to reach, `ack` its counter
-- and `failed` its count of full rings. `applied` and `refused` note for a hart and a request that
-- the fence ran, and that the push failed.
pub record System : Type 0 where
  pub remaining : ℕ → List ℕ
  pub ack : ℕ → ℕ
  pub failed : ℕ → ℕ
  pub ring : ℕ → List ShootdownEntry
  pub hand : ℕ → Hand
  pub applied : ℕ → ℕ → Bool
  pub refused : ℕ → ℕ → Bool

abbrev pub at_key : {A : Type 0} → (ℕ → A) → ℕ → A → ℕ → A
at_key f k v j = if j == k then v else f j

abbrev pub at_pair : (ℕ → ℕ → Bool) → ℕ → ℕ → ℕ → ℕ → Bool
at_pair f h r i q = if (i == h) && (q == r) then true else f i q

-- The counter starts at the number of the targets.
unfoldable pub begin : (ℕ → List ℕ) → System
begin targets = record {
  remaining = targets;
  ack = λ r. length (targets r);
  failed = λ r. 0;
  ring = λ h. [];
  hand = λ h. idle;
  applied = λ h r. false;
  refused = λ h r. false;
}

-- `push_ref` and what follows it, for request `r` and its next target `h`.
unfoldable pub push_target : ℕ → ℕ → System → System
push_target r h s =
    if ltb (length (s.ring h)) shootdown_ring_cap
    then record s { ring = at_key s.ring h (s.ring h ++ (req r ∷ [])) }
    else record s {
      ack = at_key s.ack r (s.ack r - 1);
      failed = at_key s.failed r (min (s.failed r + 1) (2 ^ 32 - 1));
      refused = at_pair s.refused h r;
    }

-- One round of the loop over the targets.
unfoldable pub offer : ℕ → List ℕ → System → System
unfolding push_target
offer r [] s = s
offer r (h ∷ hs) s = push_target r h (record s { remaining = at_key s.remaining r hs })

-- `pop_ref`; an empty entry is skipped.
unfoldable pub receive : ℕ → List ShootdownEntry → System → System
receive h [] s = s
receive h (empty ∷ es) s = record s { ring = at_key s.ring h es }
receive h (req r ∷ es) s = record s { ring = at_key s.ring h es; hand = at_key s.hand h (taken r) }

-- What a receiver does next: it pops, applies the fence, or decrements the counter.
unfoldable pub advance : ℕ → Hand → System → System
unfolding receive
advance h idle s = receive h (s.ring h) s
advance h (taken r) s = record s {
  hand = at_key s.hand h (fenced r);
  applied = at_pair s.applied h r;
}
advance h (fenced r) s = record s {
  hand = at_key s.hand h idle;
  ack = at_key s.ack r (s.ack r - 1);
}

pub data Event : Type 0 where
  sender : ℕ → Event
  receiver : ℕ → Event

-- There are `n` harts.
unfoldable pub step : ℕ → Event → System → System
step n (sender r) s = offer r (s.remaining r) s
step n (receiver h) s = if ltb h n then advance h (s.hand h) s else s

unfoldable pub run : ℕ → List Event → System → System
run n [] s = s
run n (e ∷ es) s = run n es (step n e s)

-- `tlb_shootdown` returns when the targets are done and the counter is zero.
unfoldable pub returned : ℕ → System → Bool
returned r s = (length (s.remaining r) == 0) && (s.ack r == 0)
