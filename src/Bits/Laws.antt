-- ===== src/Bits/Laws.antt =====
-- The bits of the results, and of the masks that the code builds.
use sat_symmetry.Prelude.{
  ℕ, zero, suc, ◌+◌, ◌-◌, ◌*◌, ◌/◌, ◌%◌, ◌^◌, ◌≤◌, ◌<◌, ◌≡◌, refl, sym, ap, ◌∙◌, arith, bit_and,
  bit_or, bit_xor, min, max, ◌==◌, if◌then◌else◌, ◌||◌,
}
use native.Mathlib.Decide.{dec_lt}
use native.Mathlib.Nat.{pow-suc}
use sat_symmetry.Bits.{bit}
use sat_symmetry.Bits.Step.{bit_and_digit, bit_or_digit, bit_xor_digit, zero-bit_and, zero-bit_or}

pub bit-lt : (a k : ℕ) → bit a k < 2
bit-lt a zero = omega arith
bit-lt a (suc k) = bit-lt (a / 2) k

-- `&`, `|` and `^` go bit by bit.
pub bit-bit_and : (a b k : ℕ) → bit (bit_and a b) k ≡ min (bit a k) (bit b k)
bit-bit_and a b zero = omega (arith, bit_and_digit a b)
bit-bit_and a b (suc k) =
    let half : bit_and a b / 2 ≡ bit_and (a / 2) (b / 2) = omega (arith, bit_and_digit a b) in
    rw half (bit-bit_and (a / 2) (b / 2) k)

pub bit-bit_or : (a b k : ℕ) → bit (bit_or a b) k ≡ max (bit a k) (bit b k)
bit-bit_or a b zero = omega (arith, bit_or_digit a b)
bit-bit_or a b (suc k) =
    let half : bit_or a b / 2 ≡ bit_or (a / 2) (b / 2) = omega (arith, bit_or_digit a b) in
    rw half (bit-bit_or (a / 2) (b / 2) k)

pub bit-bit_xor : (a b k : ℕ) → bit (bit_xor a b) k ≡ (bit a k + bit b k) % 2
bit-bit_xor a b zero = omega (arith, bit_xor_digit a b)
bit-bit_xor a b (suc k) =
    let half : bit_xor a b / 2 ≡ bit_xor (a / 2) (b / 2) = omega (arith, bit_xor_digit a b) in
    rw half (bit-bit_xor (a / 2) (b / 2) k)

pub bit-zero : (k : ℕ) → bit 0 k ≡ 0
bit-zero zero = refl
bit-zero (suc k) = bit-zero k

-- The complement in a word of `w` bits.
pub bit-complement : (w a k : ℕ) → a < 2 ^ w → k < w → bit (2 ^ w - 1 - a) k ≡ 1 - bit a k
bit-complement zero a k h lt = absurd (omega arith)
bit-complement (suc w) a zero h lt = omega (arith, pow-suc 2 w)
bit-complement (suc w) a (suc k) h lt =
    let half : (2 ^ suc w - 1 - a) / 2 ≡ 2 ^ w - 1 - a / 2 = omega (arith, pow-suc 2 w) in
    rw half (bit-complement w (a / 2) k (omega (arith, pow-suc 2 w)) (omega arith))

-- `m << p`.
pub bit-shift_low : (m p k : ℕ) → k < p → bit (m * 2 ^ p) k ≡ 0
bit-shift_low m zero k h = absurd (omega arith)
bit-shift_low m (suc p) zero h = omega (arith, ap (λ (t : ℕ). m * t) (pow-suc 2 p))
bit-shift_low m (suc p) (suc k) h =
    let half : m * 2 ^ suc p / 2 ≡ m * 2 ^ p = omega (arith, ap (λ (t : ℕ). m * t) (pow-suc 2 p)) in
    rw half (bit-shift_low m p k (omega arith))

pub bit-shift_high : (m p k q : ℕ) → q ≡ p + k → bit (m * 2 ^ p) q ≡ bit m k
bit-shift_high m zero k q e =
    let same : q ≡ k = omega arith in let once : m * 2 ^ 0 ≡ m = omega arith in rw (same, once)
bit-shift_high m (suc p) k zero e = absurd (omega arith)
bit-shift_high m (suc p) k (suc q) e =
    let half : m * 2 ^ suc p / 2 ≡ m * 2 ^ p = omega (arith, ap (λ (t : ℕ). m * t) (pow-suc 2 p)) in
    rw half (bit-shift_high m p k q (omega arith))

-- The bits below `w` are those of the remainder by `2 ^ w`.
bit-add_high : (m w r k : ℕ) → k < w → bit (m * 2 ^ w + r) k ≡ bit r k
bit-add_high m zero r k h = absurd (omega arith)
bit-add_high m (suc w) r zero h = omega (arith, ap (λ (t : ℕ). m * t) (pow-suc 2 w))
bit-add_high m (suc w) r (suc k) h =
    let half : (m * 2 ^ suc w + r) / 2 ≡ m * 2 ^ w + r / 2 =
      omega (arith, ap (λ (t : ℕ). m * t) (pow-suc 2 w)) in
    rw half (bit-add_high m w (r / 2) k (omega arith))

pub bit-mod : (a w k : ℕ) → k < w → bit (a % 2 ^ w) k ≡ bit a k
bit-mod a w k h =
    let split : a ≡ a / 2 ^ w * 2 ^ w + a % 2 ^ w = grind arith in
    sym (ap (λ (t : ℕ). bit t k) split ∙ bit-add_high (a / 2 ^ w) w (a % 2 ^ w) k h)

-- The bits of `1 << p`, and of `3 << p`.
pub bit-one_shifted : (p k : ℕ) → bit (1 * 2 ^ p) k ≡ (if p == k then 1 else 0)
bit-one_shifted p k = elim (dec_lt k p) [
  | yes below ↦ rw (bit-shift_low 1 p k below) (ground arith)
  | no above ↦ high (k - p) (omega arith)
]
  where
    high : (j : ℕ) → k ≡ p + j → bit (1 * 2 ^ p) k ≡ (if p == k then 1 else 0)
    high zero e = rw (bit-shift_high 1 p 0 k e) (ground arith)
    high (suc j) e = rw (bit-shift_high 1 p (suc j) k e) (ground (arith, bit-zero j))

pub bit-three_shifted : (p k : ℕ) → bit (3 * 2 ^ p) k ≡ (if p == k || p + 1 == k then 1 else 0)
bit-three_shifted p k = elim (dec_lt k p) [
  | yes below ↦ rw (bit-shift_low 3 p k below) (ground arith)
  | no above ↦ high (k - p) (omega arith)
]
  where
    high : (j : ℕ) → k ≡ p + j → bit (3 * 2 ^ p) k ≡ (if p == k || p + 1 == k then 1 else 0)
    high zero e = rw (bit-shift_high 3 p 0 k e) (ground arith)
    high (suc zero) e = rw (bit-shift_high 3 p 1 k e) (ground arith)
    high (suc (suc j)) e = rw (bit-shift_high 3 p (suc (suc j)) k e) (ground (arith, bit-zero j))

-- A word with no bit set is 0.
pub eq-zero_of_bits : (w a : ℕ) → a < 2 ^ w → ((k : ℕ) → k < w → bit a k ≡ 0) → a ≡ 0
eq-zero_of_bits zero a h none_set = omega arith
eq-zero_of_bits (suc w) a h none_set =
    let half =
      eq-zero_of_bits w (a / 2) (omega (arith, pow-suc 2 w))
        (λ k lt. none_set (suc k) (omega arith)) in
    omega (arith, none_set 0 (omega arith))

-- Words are equal when their bits are.
pub eq_of_bits : (w a b : ℕ) → a < 2 ^ w → b < 2 ^ w → ((k : ℕ) → k < w → bit a k ≡ bit b k) → a ≡ b
eq_of_bits zero a b h i same = omega arith
eq_of_bits (suc w) a b h i same =
    let half =
      eq_of_bits w (a / 2) (b / 2) (omega (arith, pow-suc 2 w)) (omega (arith, pow-suc 2 w))
        (λ k lt. same (suc k) (omega arith)) in
    omega (arith, same 0 (omega arith))

-- `&` and `|` stay within the width.
pub bit_and-lt : (w a b : ℕ) → a < 2 ^ w → bit_and a b < 2 ^ w
bit_and-lt zero a b h = let e : a ≡ 0 = omega arith in rw (e, zero-bit_and b) (omega arith)
bit_and-lt (suc w) a b h = omega (
  arith,
  bit_and_digit a b,
  pow-suc 2 w,
  bit_and-lt w (a / 2) (b / 2) (omega (arith, pow-suc 2 w)),
)

pub bit_or-lt : (w a b : ℕ) → a < 2 ^ w → b < 2 ^ w → bit_or a b < 2 ^ w
bit_or-lt zero a b h i = let e : a ≡ 0 = omega arith in rw (e, zero-bit_or b) i
bit_or-lt (suc w) a b h i = omega (
  arith,
  bit_or_digit a b,
  pow-suc 2 w,
  bit_or-lt w (a / 2) (b / 2) (omega (arith, pow-suc 2 w)) (omega (arith, pow-suc 2 w)),
)

-- What holds of 0, and of each number of whose half it holds, holds of every number.
by_halving {ℓ} : (P : ℕ → Type ℓ) → P 0 → ((n : ℕ) → P (n / 2) → P n) → (a : ℕ) → P a
by_halving P start grow a = below a a (omega arith)
  where
    below : (bound a : ℕ) → a ≤ bound → P a
    below bound zero le = start
    below zero (suc a) le = absurd (omega arith)
    below (suc bound) (suc a) le = grow (suc a) (below bound (suc a / 2) (omega arith))

-- `a ^ 1` flips the lowest bit.
pub bit_xor-zero : (a : ℕ) → bit_xor a 0 ≡ a
bit_xor-zero =
    by_halving (λ a. bit_xor a 0 ≡ a) refl (λ a half. omega (arith, bit_xor_digit a 0, half))

pub bit_xor-one : (a : ℕ) → bit_xor a 1 ≡ a / 2 * 2 + (1 - a % 2)
bit_xor-one a = omega (arith, bit_xor_digit a 1, bit_xor-zero (a / 2))

pub bit_and-zero : (a : ℕ) → bit_and a 0 ≡ 0
bit_and-zero =
    by_halving (λ a. bit_and a 0 ≡ 0) refl (λ a half. omega (arith, bit_and_digit a 0, half))

pub bit_and-one : (a : ℕ) → bit_and a 1 ≡ a % 2
bit_and-one a = omega (arith, bit_and_digit a 1, bit_and-zero (a / 2))

-- `a & 63` and `a & 62`, the masks of a position in a word.
pub bit_and_63 : (a : ℕ) → bit_and a 63 ≡ a % 64
bit_and_63 a = omega (
  arith,
  bit_and_digit a 63,
  bit_and_digit (a / 2) 31,
  bit_and_digit (a / 2 / 2) 15,
  bit_and_digit (a / 2 / 2 / 2) 7,
  bit_and_digit (a / 2 / 2 / 2 / 2) 3,
  bit_and-one (a / 2 / 2 / 2 / 2 / 2),
)

pub bit_and_62 : (a : ℕ) → bit_and a 62 ≡ a % 64 / 2 * 2
bit_and_62 a = omega (
  arith,
  bit_and_digit a 62,
  bit_and_digit (a / 2) 31,
  bit_and_digit (a / 2 / 2) 15,
  bit_and_digit (a / 2 / 2 / 2) 7,
  bit_and_digit (a / 2 / 2 / 2 / 2) 3,
  bit_and-one (a / 2 / 2 / 2 / 2 / 2),
)
