-- ===== src/Spsc/Window.antt =====
-- The entries of a ring from an index on, going round at the end of the buffer.
use native.Mathlib.Nat.{mod-eq_of_lt, mod-eq-sub-mod}
use orbit.Base.{
  ℕ, zero, suc, ◌+◌, ◌-◌, ◌%◌, ◌≤◌, ◌<◌, ◌≡◌, refl, ap, ap₂, ◌≢◌, ◌⊎◌, inl, inr, List, [], ◌∷◌,
  ◌++◌, arith, length, get_or, set, get_or-set_ne, dec_lt,
}

-- The index after `i` in a ring of `n` places, and the number of entries from `head` up to `tail`,
-- as the source computes them.
abbrev pub next : ℕ → ℕ → ℕ
next n i = (i + 1) % n

abbrev pub gap : ℕ → ℕ → ℕ → ℕ
gap n head tail = (tail + n - head) % n

pub next-cases :
    (n i : ℕ) → i < n → ((i + 1 < n) × (next n i ≡ i + 1)) ⊎ ((i + 1 ≡ n) × (next n i ≡ 0))
next-cases n i h = elim (dec_lt (i + 1) n) [
  | yes p ↦ inl (p, mod-eq_of_lt p)
  | no p ↦ inr (
    omega arith,
    omega (
      arith,
      mod-eq-sub-mod {n = i + 1} {m = n} (omega arith),
      ap (λ k. k % n) (let e : i + 1 - n ≡ 0 = omega arith in e),
      mod-eq_of_lt {n = 0} {m = n} (omega arith),
    ),
  )
]

pub gap-cases :
    (n head tail : ℕ)
    → head < n
    → tail < n
    → ((head ≤ tail) × (gap n head tail ≡ tail - head))
      ⊎ ((tail < head) × (gap n head tail ≡ tail + n - head))
gap-cases n head tail h t = elim (dec_lt tail head) [
  | yes p ↦ inr (p, mod-eq_of_lt (omega arith))
  | no p ↦ inl (
    omega arith,
    omega (
      arith,
      mod-eq-sub-mod {n = tail + n - head} {m = n} (omega arith),
      ap (λ k. k % n) (let e : tail + n - head - n ≡ tail - head = omega arith in e),
      mod-eq_of_lt {n = tail - head} {m = n} (omega arith),
    ),
  )
]

pub next-lt : (n i : ℕ) → i < n → next n i < n
next-lt n i h = omega (arith, next-cases n i h)

module _ (n head tail : ℕ) (h : head < n) (t : tail < n) where
  pub gap-lt : gap n head tail < n
  gap-lt = omega (arith, gap-cases n head tail h t)

  -- The ring is full exactly when one place is left.
  pub next-eq-head : next n tail ≡ head → gap n head tail + 1 ≡ n
  next-eq-head e = omega (arith, gap-cases n head tail h t, next-cases n tail t)

  pub next-ne-head : next n tail ≢ head → gap n head tail + 1 < n
  next-ne-head e = omega (arith, gap-cases n head tail h t, next-cases n tail t)

  pub gap-pos : head ≢ tail → 0 < gap n head tail
  gap-pos e = omega (arith, gap-cases n head tail h t)

  pub gap_self : head ≡ tail → gap n head tail ≡ 0
  gap_self e = omega (arith, gap-cases n head tail h t)

  pub gap-zero : gap n head tail ≡ 0 → head ≡ tail
  gap-zero e = omega (arith, gap-cases n head tail h t)

  pub next_of_full : gap n head tail + 1 ≡ n → next n tail ≡ head
  next_of_full e = omega (arith, gap-cases n head tail h t, next-cases n tail t)

  -- Storing the next tail adds an entry; storing the next head takes one away.
  pub gap-next_tail : gap n head tail + 1 < n → gap n head (next n tail) ≡ gap n head tail + 1
  gap-next_tail room = omega (
    arith,
    gap-cases n head tail h t,
    next-cases n tail t,
    gap-cases n head (next n tail) h (next-lt n tail t),
  )

  pub gap-next_head : 0 < gap n head tail → gap n (next n head) tail + 1 ≡ gap n head tail
  gap-next_head some_left = omega (
    arith,
    gap-cases n head tail h t,
    next-cases n head h,
    gap-cases n (next n head) tail (next-lt n head h) t,
  )

module _ {ℓ} {A : Type ℓ} (n : ℕ) (d : A) where
  -- `k` entries from `h` on; `d` stands for a place outside the buffer.
  abbrev pub window : List A → ℕ → ℕ → List A
  window buf h zero = []
  window buf h (suc k) = get_or buf h d ∷ window buf (next n h) k

  pub length-window : (buf : List A) (h k : ℕ) → length (window buf h k) ≡ k
  length-window buf h zero = refl
  length-window buf h (suc k) = ap suc (length-window buf (next n h) k)

  -- A write at `tail` changes no entry of the window that ends there.
  pub window-set :
      (buf : List A) (v : A) (h tail k : ℕ)
      → h < n
      → tail < n
      → k ≡ gap n h tail
      → window (set buf tail v) h k ≡ window buf h k
  window-set buf v h tail zero hh ht e = refl
  window-set buf v h tail (suc k) hh ht e =
      ap₂ ◌∷◌ (get_or-set_ne buf tail h v d (omega (arith, gap-cases n h tail hh ht))) (
        window-set buf v (next n h) tail k (next-lt n h hh) ht
          (omega (arith, gap-next_head n h tail hh ht (omega arith))))

  -- A window that reaches one place further ends in the entry at `tail`.
  pub window-snoc :
      (buf : List A) (h tail k : ℕ)
      → h < n
      → tail < n
      → k ≡ gap n h tail
      → window buf h (suc k) ≡ window buf h k ++ (get_or buf tail d ∷ [])
  window-snoc buf h tail zero hh ht e =
      let same : h ≡ tail = omega (arith, gap-cases n h tail hh ht) in rw same refl
  window-snoc buf h tail (suc k) hh ht e = ap (◌∷◌ (get_or buf h d)) (
      window-snoc buf (next n h) tail k (next-lt n h hh) ht
        (omega (arith, gap-next_head n h tail hh ht (omega arith))))
