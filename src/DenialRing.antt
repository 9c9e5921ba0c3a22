-- ===== src/DenialRing.antt =====
-- orbit-core/src/denial_ring.rs: the last denials, the oldest first.
mod Tests
use orbit.Base.{
  ℕ, zero, suc, ◌+◌, ◌-◌, ◌≤◌, ◌<◌, ◌≡◌, refl, sym, ap, ◌∙◌, inl, inr, Bool, true, false, ◌==◌,
  ==_iff, if◌then◌else◌, List, [], ◌∷◌, ◌++◌, append_assoc, append-nil, arith, min, length, take,
  drop, length-append, length-drop, length-take, take-append_of_length, Bool-cases,
}
use orbit.Perms.{DenialEvent}

abbrev pub denial_ring_capacity : ℕ
denial_ring_capacity = 64

abbrev pub DenialRing : Type 0
DenialRing = List DenialEvent

-- `pop_front`.
abbrev pop_front : DenialRing → DenialRing
pop_front [] = []
pop_front (e ∷ es) = es

unfoldable pub push : DenialRing → DenialEvent → DenialRing
push ring event =
    if length ring == denial_ring_capacity
    then pop_front ring ++ (event ∷ [])
    else ring ++ (event ∷ [])

-- What is written into the buffer, and how many events.
unfoldable pub snapshot : DenialRing → List DenialEvent → List DenialEvent × ℕ
snapshot ring buf = let n = min (length ring) (length buf) in (take n ring ++ drop n buf, n)

abbrev pub push_all : DenialRing → List DenialEvent → DenialRing
push_all ring [] = ring
push_all ring (e ∷ es) = push_all (push ring e) es

-- The last `denial_ring_capacity` elements.
abbrev pub latest : List DenialEvent → List DenialEvent
latest es = drop (length es - denial_ring_capacity) es

drop-append :
    (n : ℕ) (xs ys : List DenialEvent) → n ≤ length xs → drop n (xs ++ ys) ≡ drop n xs ++ ys
drop-append zero xs ys h = refl
drop-append (suc n) [] ys h = absurd (omega (arith, h))
drop-append (suc n) (x ∷ xs) ys h = drop-append n xs ys (omega (arith, h))

push-latest :
    (ring : DenialRing) (e : DenialEvent)
    → length ring ≤ 64
    → push ring e ≡ latest (ring ++ (e ∷ []))
unfolding push
push-latest ring e small = elim (Bool-cases (length ring == 64)) [
  | inl full ↦
      let n : length ring ≡ 64 = (==_iff (length ring) 64).0 full in
      let one : length (ring ++ (e ∷ [])) - 64 ≡ 1 =
        omega (arith, n, length-append ring (e ∷ [])) in
      rw (full, one)
        (ap (λ es. es ++ (e ∷ [])) (pop_drop ring)
          ∙ sym (drop-append 1 ring (e ∷ []) (omega (arith, n))))
  | inr room ↦
      let none_over : length (ring ++ (e ∷ [])) - 64 ≡ 0 =
        let below : length ring < 64 = ground (arith, small, room) in
        omega (arith, below, length-append ring (e ∷ [])) in
      rw (room, none_over) refl
]
  where
    pop_drop : (es : List DenialEvent) → pop_front es ≡ drop 1 es
    pop_drop [] = refl
    pop_drop (x ∷ xs) = refl

drop_more : (n m : ℕ) (xs : List DenialEvent) → drop m (drop n xs) ≡ drop (n + m) xs
drop_more zero m xs = ap (λ k. drop k xs) (omega arith)
drop_more (suc n) m [] = drop_nil m ∙ sym (drop_nil (suc n + m))
  where
    drop_nil : (k : ℕ) → drop {A = DenialEvent} k [] ≡ []
    drop_nil zero = refl
    drop_nil (suc k) = refl
drop_more (suc n) m (x ∷ xs) =
    let e : suc n + m ≡ suc (n + m) = omega arith in
    drop_more n m xs ∙ ap (λ k. drop k (x ∷ xs)) (sym e)

drop_all : (n : ℕ) (xs : List DenialEvent) → length xs ≤ n → drop n xs ≡ []
drop_all zero [] h = refl
drop_all zero (x ∷ xs) h = absurd (omega (arith, h))
drop_all (suc n) [] h = refl
drop_all (suc n) (x ∷ xs) h = drop_all n xs (omega (arith, h))

-- From a ring within its capacity, a run of pushes leaves the last 64 of the old events and the new ones
-- together, in their order.
pub push_all-latest :
    (ring : DenialRing) (es : List DenialEvent)
    → length ring ≤ denial_ring_capacity
    → push_all ring es ≡ latest (ring ++ es)
push_all-latest ring [] small =
    let none_over : length ring - 64 ≡ 0 = omega (arith, small) in
    rw (append-nil ring, none_over) refl
push_all-latest ring (e ∷ es) small =
    let whole = ring ++ (e ∷ []) in
    let k = length whole - 64 in
    let pushed : push ring e ≡ drop k whole = push-latest ring e small in
    let size : length whole ≡ length ring + 1 = length-append ring (e ∷ []) in
    let fits : length (push ring e) ≤ 64 = omega (arith, ap length pushed, length-drop k whole) in
    let joined : push ring e ++ es ≡ drop k (whole ++ es) =
      ap (λ xs. xs ++ es) pushed ∙ sym (drop-append k whole es (omega arith)) in
    let over : k + (length (drop k (whole ++ es)) - 64) ≡ length (whole ++ es) - 64 =
      omega (arith, length-drop k (whole ++ es), length-append whole es, size, small) in
    push_all-latest (push ring e) es fits
    ∙ ap latest joined
    ∙ drop_more k (length (drop k (whole ++ es)) - 64) (whole ++ es)
    ∙ ap (λ n. drop n (whole ++ es)) over
    ∙ ap latest (append_assoc ring (e ∷ []) es)

-- A snapshot fills the front of the buffer with the oldest events, as many as fit, and leaves the rest
-- of the buffer and its length.
pub snapshot_lem :
    (ring : DenialRing) (buf : List DenialEvent)
    → let r = snapshot ring buf in
      (length (r.0) ≡ length buf)
      × (take (r.1) (r.0) ≡ take (r.1) ring)
      × (drop (r.1) (r.0) ≡ drop (r.1) buf)
unfolding snapshot
snapshot_lem ring buf =
    let n = min (length ring) (length buf) in
    let front : length (take n ring) ≡ n = length-take n ring ∙ omega arith in
    (
      length-append (take n ring) (drop n buf) ∙ omega (arith, front, length-drop n buf),
      take-append_of_length (take n ring) (drop n buf) n (sym front),
      drop-append n (take n ring) (drop n buf) (omega (arith, front))
          ∙ ap (λ es. es ++ drop n buf) (drop_all n (take n ring) (omega (arith, front))),
    )
