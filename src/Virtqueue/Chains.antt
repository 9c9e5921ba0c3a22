-- ===== src/Virtqueue/Chains.antt =====
-- Lists of descriptors in the memory of virtio/src/queue.rs: the free list, by the `next` fields, and
-- a chain, by the flag that the device reads.
use orbit.Base.{
  ℕ, zero, suc, ◌≤◌, ◌≡◌, refl, ap, ◌∙◌, Bool, true, false, not, List, [], ◌∷◌, length, take, drop,
  arith, ◌==◌, ==_refl, if◌then◌else◌, bit_and, mem,
}
use orbit.Virtqueue.{
  VirtqDesc, Buf, Descs, flag_next, flag_write, set_desc, gather, after, populate, filled,
  desc_flags,
}

-- The descriptors visited from `head` on by `next`.
abbrev pub Follows : Descs → ℕ → List ℕ → Type 0
Follows d head [] = Unit {0}
Follows d head (x ∷ xs) = (head ≡ x) × Follows d (d x).next xs

-- A chain for the device: every descriptor but the last has the flag NEXT and names the one after.
abbrev pub IsChain : Descs → ℕ → List ℕ → Type 0
IsChain d x [] = (bit_and (d x).flags flag_next == 0) ≡ true
IsChain d x (y ∷ ys) =
    ((bit_and (d x).flags flag_next == 0) ≡ false) × ((d x).next ≡ y) × IsChain d y ys

-- The buffers that the device finds from a head on.
unfoldable pub buf_of : VirtqDesc → Buf
buf_of v = record { pa = v.addr; size = v.len; write = not (bit_and v.flags flag_write == 0) }

unfoldable pub read_chain : ℕ → ℕ → Descs → List Buf
unfolding buf_of
read_chain zero x d = []
read_chain (suc n) x d =
    let rest = read_chain n (d x).next d in
    buf_of (d x) ∷ (if bit_and (d x).flags flag_next == 0 then [] else rest)

pub gather-take :
    (n head : ℕ) (d : Descs) (free : List ℕ)
    → Follows d head free
    → n ≤ length free
    → gather n head d ≡ take n free
unfolding gather
gather-take zero head d free f h = refl
gather-take (suc n) head d [] f h = absurd (omega arith)
gather-take (suc n) head d (x ∷ xs) f h =
    rw (f.0) (ap (◌∷◌ x) (gather-take n (d x).next d xs f.1 (omega arith)))

pub after-Follows :
    (n head : ℕ) (d : Descs) (free : List ℕ)
    → Follows d head free
    → n ≤ length free
    → Follows d (after n head d) (drop n free)
unfolding after
after-Follows zero head d free f h = f
after-Follows (suc n) head d [] f h = absurd (omega arith)
after-Follows (suc n) head d (x ∷ xs) f h =
    rw (f.0) (after-Follows n (d x).next d xs f.1 (omega arith))

-- Memory that agrees on a list has the same list.
pub Follows-same :
    (d d' : Descs) (head : ℕ) (xs : List ℕ)
    → ((x : ℕ) → mem x xs ≡ true → d' x ≡ d x)
    → Follows d head xs
    → Follows d' head xs
Follows-same d d' head [] same f = tt
Follows-same d d' head (x ∷ xs) same f =
    let here : d' x ≡ d x = same x (ground (arith, ==_refl x)) in
    (f.0, rw here (Follows-same d d' (d x).next xs (λ y m. same y (ground (arith, m))) f.1))

pub set_desc_self : (d : Descs) (i : ℕ) (v : VirtqDesc) → set_desc d i v i ≡ v
unfolding set_desc
set_desc_self d i v = rw (==_refl i) refl

pub set_desc-ne :
    (d : Descs) (i : ℕ) (v : VirtqDesc) (j : ℕ) → (j == i) ≡ false → set_desc d i v j ≡ d j
unfolding set_desc
set_desc-ne d i v j h = rw h refl

-- Only the descriptors of the chain are written.
pub populate-else :
    (hs : List ℕ) (bufs : List Buf) (d : Descs) (j : ℕ)
    → mem j hs ≡ false
    → populate hs bufs d j ≡ d j
unfolding populate
populate-else [] bufs d j h = refl
populate-else (x ∷ xs) [] d j h = refl
populate-else (x ∷ xs) (b ∷ bs) d j h =
    populate-else xs bs (set_desc d x (filled b xs)) j (ground (arith, h))
    ∙ set_desc-ne d x (filled b xs) j (ground (arith, h))

pub buf_of-filled : (b : Buf) (hs : List ℕ) → buf_of (filled b hs) ≡ b
unfolding buf_of filled desc_flags
buf_of-filled b [] = by_write b.pa b.size b.write
  where
    by_write :
        (pa size : ℕ) (w : Bool)
        → ◌≡◌ {A = Buf}
            (buf_of (filled (record { pa = pa; size = size; write = w }) []))
            (record { pa = pa; size = size; write = w })
    by_write pa size true = refl
    by_write pa size false = refl
buf_of-filled b (h ∷ hs) = by_write b.pa b.size b.write
  where
    by_write :
        (pa size : ℕ) (w : Bool)
        → ◌≡◌ {A = Buf}
            (buf_of (filled (record { pa = pa; size = size; write = w }) (h ∷ hs)))
            (record { pa = pa; size = size; write = w })
    by_write pa size true = refl
    by_write pa size false = refl
