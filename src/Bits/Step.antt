-- ===== src/Bits/Step.antt =====
-- One equation for the lowest digit of each native bit operation.
-- The library defines them by a recursion on digits with fuel, which is dropped here.
use Prim.Native.Nat.{digits, bitwise, differ, bit_and-bitwise, bit_or-bitwise, bit_xor-bitwise}
use sat_symmetry.Prelude.{
  ℕ, zero, suc, ◌+◌, ◌*◌, ◌/◌, ◌%◌, ◌≤◌, ◌<◌, ◌≡◌, refl, ap, arith, bit_and, bit_or, bit_xor, min,
  max,
}

-- Any fuel that is not below the first number gives the same digits.
module _ (last : ℕ → ℕ) (digit : ℕ → ℕ → ℕ) where
  same_digits :
      (more fuel x y : ℕ)
      → x ≤ fuel
      → fuel ≤ more
      → digits last digit more x y ≡ digits last digit fuel x y
  same_digits (suc more) (suc fuel) (suc x) y enough larger =
      ap (λ (high : ℕ). high * 2 + digit (suc x % 2) (y % 2))
        (same_digits more fuel (suc x / 2) (y / 2) (omega arith) (omega arith))
  same_digits (suc more) (suc fuel) zero y enough larger = refl
  same_digits (suc more) zero zero y enough larger = refl
  same_digits zero zero zero y enough larger = refl
  same_digits more zero (suc x) y enough larger = absurd (omega arith)
  same_digits zero (suc fuel) x y enough larger = absurd (omega arith)

  -- The digits of a number above 0, from those of its half.
  first_digit :
      (x y : ℕ)
      → bitwise last digit (suc x) y
        ≡ bitwise last digit (suc x / 2) (y / 2) * 2 + digit (suc x % 2) (y % 2)
  first_digit x y =
      ap (λ (high : ℕ). high * 2 + digit (suc x % 2) (y % 2))
        (same_digits x (suc x / 2) (suc x / 2) (y / 2) (omega arith) (omega arith))

differ_parity : (x y : ℕ) → x < 2 → y < 2 → differ x y ≡ (x + y) % 2
differ_parity zero y h k = omega arith
differ_parity (suc zero) zero h k = refl
differ_parity (suc zero) (suc zero) h k = refl
differ_parity (suc zero) (suc (suc y)) h k = absurd (omega arith)
differ_parity (suc (suc x)) y h k = absurd (omega arith)

pub bit_and_digit : (x y : ℕ) → bit_and x y ≡ bit_and (x / 2) (y / 2) * 2 + min (x % 2) (y % 2)
bit_and_digit (suc x) y = simp bit_and-bitwise (first_digit (λ n. 0) min x y)
bit_and_digit zero y = simp bit_and-bitwise (omega arith)

pub bit_or_digit : (x y : ℕ) → bit_or x y ≡ bit_or (x / 2) (y / 2) * 2 + max (x % 2) (y % 2)
bit_or_digit (suc x) y = simp bit_or-bitwise (first_digit (λ n. n) max x y)
bit_or_digit zero y = simp bit_or-bitwise (omega arith)

pub bit_xor_digit : (a b : ℕ) → bit_xor a b ≡ bit_xor (a / 2) (b / 2) * 2 + (a % 2 + b % 2) % 2
bit_xor_digit zero b = simp bit_xor-bitwise (omega arith)
bit_xor_digit (suc a) b = simp bit_xor-bitwise (
    omega (
      arith,
      first_digit (λ y. y) differ a b,
      differ_parity (suc a % 2) (b % 2) (omega arith) (omega arith),
    ))

pub zero-bit_and : (b : ℕ) → bit_and 0 b ≡ 0
zero-bit_and b = bit_and-bitwise 0 b

pub zero-bit_or : (b : ℕ) → bit_or 0 b ≡ b
zero-bit_or b = bit_or-bitwise 0 b
