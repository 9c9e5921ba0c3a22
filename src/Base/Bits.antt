-- ===== src/Base/Bits.antt =====
-- Laws of `bit_and` and `bit_or` at variables, digit by digit: what a mask and a shift select, and
-- how disjoint fields pack.
use Prim.Native.Nat.{
  ℕ, zero, suc, ◌+◌, ◌-◌, ◌*◌, ◌/◌, ◌%◌, ◌^◌, ◌≤◌, ◌<◌, min, max, bit_and, bit_or, digits,
  bit_and-bitwise, bit_or-bitwise,
}
use mathlib.Core.Path.{◌≡◌, refl, sym, ap, ◌∙◌}
use native.Mathlib.Nat.{
  pow-suc, one-le-pow, div-one, div-div-eq-div-mul, mod-eq-sub-mul-div, mul-div-le,
}
use native.Mathlib.Omega.{arith}

-- One digit of each operation. The recursion of `digits` is on a count that may be too large.
and_count :
    (n m a b : ℕ) → a ≤ n → a ≤ m → digits (λ c. zero) min n a b ≡ digits (λ c. zero) min m a b
and_count zero zero a b p q = refl
and_count zero (suc m) zero b p q = refl
and_count zero (suc m) (suc a) b p q = absurd (omega arith)
and_count (suc n) zero zero b p q = refl
and_count (suc n) zero (suc a) b p q = absurd (omega arith)
and_count (suc n) (suc m) zero b p q = refl
and_count (suc n) (suc m) (suc a) b p q =
    omega (arith, and_count n m (suc a / 2) (b / 2) (omega arith) (omega arith))

or_count : (n m a b : ℕ) → a ≤ n → a ≤ m → digits (λ c. c) max n a b ≡ digits (λ c. c) max m a b
or_count zero zero a b p q = refl
or_count zero (suc m) zero b p q = refl
or_count zero (suc m) (suc a) b p q = absurd (omega arith)
or_count (suc n) zero zero b p q = refl
or_count (suc n) zero (suc a) b p q = absurd (omega arith)
or_count (suc n) (suc m) zero b p q = refl
or_count (suc n) (suc m) (suc a) b p q =
    omega (arith, or_count n m (suc a / 2) (b / 2) (omega arith) (omega arith))

pub zero-bit_and : (b : ℕ) → bit_and 0 b ≡ 0
zero-bit_and b = bit_and-bitwise 0 b

pub zero-bit_or : (b : ℕ) → bit_or 0 b ≡ b
zero-bit_or b = bit_or-bitwise 0 b

pub bit_and_digit : (m n : ℕ) → bit_and m n ≡ bit_and (m / 2) (n / 2) * 2 + min (m % 2) (n % 2)
bit_and_digit zero n = omega (arith, zero-bit_and n, zero-bit_and (n / 2))
bit_and_digit (suc m) n = omega (
  arith,
  bit_and-bitwise (suc m) n,
  bit_and-bitwise (suc m / 2) (n / 2),
  and_count m (suc m / 2) (suc m / 2) (n / 2) (omega arith) (omega arith),
)

pub bit_or_digit : (m n : ℕ) → bit_or m n ≡ bit_or (m / 2) (n / 2) * 2 + max (m % 2) (n % 2)
bit_or_digit zero n = omega (arith, zero-bit_or n, zero-bit_or (n / 2))
bit_or_digit (suc m) n = omega (
  arith,
  bit_or-bitwise (suc m) n,
  bit_or-bitwise (suc m / 2) (n / 2),
  or_count m (suc m / 2) (suc m / 2) (n / 2) (omega arith) (omega arith),
)

-- The laws, by induction on m bound of the first number.
self_below : (n m : ℕ) → m ≤ n → bit_and m m ≡ m
self_below n zero h = zero-bit_and 0
self_below zero (suc m) h = absurd (omega arith)
self_below (suc n) (suc m) h =
    omega (arith, bit_and_digit (suc m) (suc m), self_below n (suc m / 2) (omega arith))

pub bit_and_self : (a : ℕ) → bit_and a a ≡ a
bit_and_self a = self_below a a (omega arith)

pub bit_and-div_two : (a b : ℕ) → bit_and a b / 2 ≡ bit_and (a / 2) (b / 2)
bit_and-div_two a b = omega (arith, bit_and_digit a b)

pub bit_and-mod_two : (a b : ℕ) → bit_and a b % 2 ≡ min (a % 2) (b % 2)
bit_and-mod_two a b = omega (arith, bit_and_digit a b)

comm_below : (n a b : ℕ) → a + b ≤ n → bit_and a b ≡ bit_and b a
comm_below n zero zero h = refl
comm_below zero zero (suc b) h = absurd (omega arith)
comm_below zero (suc a) b h = absurd (omega arith)
comm_below (suc n) zero (suc b) h = omega (
  arith,
  bit_and_digit zero (suc b),
  bit_and_digit (suc b) zero,
  comm_below n zero (suc b / 2) (omega arith),
)
comm_below (suc n) (suc a) b h = omega (
  arith,
  bit_and_digit (suc a) b,
  bit_and_digit b (suc a),
  comm_below n (suc a / 2) (b / 2) (omega arith),
)

pub bit_and_comm : (a b : ℕ) → bit_and a b ≡ bit_and b a
bit_and_comm a b = comm_below (a + b) a b (omega arith)

pub bit_and-zero : (a : ℕ) → bit_and a 0 ≡ 0
bit_and-zero a = bit_and_comm a 0 ∙ zero-bit_and a

assoc_below : (n a b c : ℕ) → a ≤ n → bit_and (bit_and a b) c ≡ bit_and a (bit_and b c)
assoc_below n zero b c h = rw (zero-bit_and b) (zero-bit_and c ∙ sym (zero-bit_and (bit_and b c)))
assoc_below zero (suc a) b c h = absurd (omega arith)
assoc_below (suc n) (suc a) b c h =
    bit_and_digit (bit_and (suc a) b) c
    ∙ rw (bit_and-div_two, bit_and-mod_two, assoc_below n (suc a / 2) (b / 2) (c / 2) (omega arith))
        (sym (
          bit_and_digit (suc a) (bit_and b c)
          ∙ rw (bit_and-div_two b c, bit_and-mod_two b c) (omega arith)))

pub bit_and_assoc : (a b c : ℕ) → bit_and (bit_and a b) c ≡ bit_and a (bit_and b c)
bit_and_assoc a b c = assoc_below a a b c (omega arith)

le_below : (n a b : ℕ) → a ≤ n → bit_and a b ≤ a
le_below n zero b h = omega (arith, zero-bit_and b)
le_below zero (suc a) b h = absurd (omega arith)
le_below (suc n) (suc a) b h =
    omega (arith, bit_and_digit (suc a) b, le_below n (suc a / 2) (b / 2) (omega arith))

pub bit_and-le_left : (a b : ℕ) → bit_and a b ≤ a
bit_and-le_left a b = le_below a a b (omega arith)

or_zero_below : (n a : ℕ) → a ≤ n → bit_or a 0 ≡ a
or_zero_below n zero h = refl
or_zero_below zero (suc a) h = absurd (omega arith)
or_zero_below (suc n) (suc a) h =
    omega (arith, bit_or_digit (suc a) 0, or_zero_below n (suc a / 2) (omega arith))

pub bit_or-zero : (a : ℕ) → bit_or a 0 ≡ a
bit_or-zero a = or_zero_below a a (omega arith)

-- A shifted mask selects the digits from `k` on.
pub bit_and-shift : (k a m : ℕ) → bit_and a (m * 2 ^ k) ≡ bit_and (a / 2 ^ k) m * 2 ^ k
bit_and-shift zero a m = let e : m * 2 ^ 0 ≡ m = omega arith in rw (e, div-one a) (omega arith)
bit_and-shift (suc k) a m =
    let pow : 2 ^ suc k ≡ 2 * 2 ^ k = omega (arith, pow-suc 2 k) in
    let twice : m * 2 ^ suc k ≡ 2 * (m * 2 ^ k) = rw pow (omega arith) in
    let half : m * 2 ^ suc k / 2 ≡ m * 2 ^ k = omega arith in
    let even : m * 2 ^ suc k % 2 ≡ 0 = omega arith in
    let ih : bit_and (a / 2) (m * 2 ^ k) ≡ bit_and (a / 2 ^ suc k) m * 2 ^ k =
      bit_and-shift k (a / 2) m ∙ rw (div-div-eq-div-mul a 2 (2 ^ k), ← pow) refl in
    omega (
      arith,
      bit_and_digit a (m * 2 ^ suc k),
      ap (λ t. bit_and (a / 2) t) half,
      ih,
      even,
      ap (λ t. bit_and (a / 2 ^ suc k) m * t) pow,
    )

-- A mask of `k` ones is the remainder modulo `2 ^ k`.
pub bit_and-ones : (k a : ℕ) → bit_and a (2 ^ k - 1) ≡ a % 2 ^ k
bit_and-ones zero a = bit_and-zero a ∙ omega arith
bit_and-ones (suc k) a =
    let pow : 2 ^ suc k ≡ 2 * 2 ^ k = omega (arith, pow-suc 2 k) in
    let pos : 0 < 2 ^ k = one-le-pow k 2 (omega arith) in
    let half : (2 ^ suc k - 1) / 2 ≡ 2 ^ k - 1 = omega arith in
    let odd : (2 ^ suc k - 1) % 2 ≡ 1 = omega arith in
    let quot : a / 2 ^ suc k ≡ a / 2 / 2 ^ k = rw pow (sym (div-div-eq-div-mul a 2 (2 ^ k))) in
    omega (
      arith,
      bit_and_digit a (2 ^ suc k - 1),
      ap (λ t. bit_and (a / 2) t) half,
      bit_and-ones k (a / 2),
      odd,
      mod-eq-sub-mul-div a (2 ^ suc k),
      mod-eq-sub-mul-div (a / 2) (2 ^ k),
      mul-div-le (a / 2) (2 ^ k),
      ap (λ t. 2 ^ suc k * t) quot,
      ap (λ t. t * (a / 2 / 2 ^ k)) pow,
    )

-- A number below `2 ^ k` fills the digits that a shift by `k` left free.
pub bit_or-shift : (k a b : ℕ) → b < 2 ^ k → bit_or (a * 2 ^ k) b ≡ a * 2 ^ k + b
bit_or-shift zero a b h = let e : b ≡ 0 = omega arith in rw e (bit_or-zero (a * 1) ∙ omega arith)
bit_or-shift (suc k) a b h =
    let pow : 2 ^ suc k ≡ 2 * 2 ^ k = omega (arith, pow-suc 2 k) in
    let twice : a * 2 ^ suc k ≡ 2 * (a * 2 ^ k) = rw pow (omega arith) in
    let half : a * 2 ^ suc k / 2 ≡ a * 2 ^ k = omega arith in
    let even : a * 2 ^ suc k % 2 ≡ 0 = omega arith in
    bit_or_digit (a * 2 ^ suc k) b
    ∙ rw (half, even, bit_or-shift k a (b / 2) (omega arith)) (omega arith)

or_comm_below : (n a b : ℕ) → a + b ≤ n → bit_or a b ≡ bit_or b a
or_comm_below n zero zero h = refl
or_comm_below zero zero (suc b) h = absurd (omega arith)
or_comm_below zero (suc a) b h = absurd (omega arith)
or_comm_below (suc n) zero (suc b) h = omega (
  arith,
  bit_or_digit zero (suc b),
  bit_or_digit (suc b) zero,
  or_comm_below n zero (suc b / 2) (omega arith),
)
or_comm_below (suc n) (suc a) b h = omega (
  arith,
  bit_or_digit (suc a) b,
  bit_or_digit b (suc a),
  or_comm_below n (suc a / 2) (b / 2) (omega arith),
)

pub bit_or_comm : (a b : ℕ) → bit_or a b ≡ bit_or b a
bit_or_comm a b = or_comm_below (a + b) a b (omega arith)
