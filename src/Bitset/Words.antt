-- ===== src/Bitset/Words.antt =====
-- Bitset.h, basic bit operations: what each mask holds.
use sat_symmetry.Prelude.{
  ℕ, ◌+◌, ◌-◌, ◌*◌, ◌/◌, ◌%◌, ◌^◌, ◌<◌, ◌≡◌, ◌≢◌, ap, arith, ◌∙◌, false, not, bit_and, ◌==◌, ◌||◌,
  if◌then◌else◌, Bool-cases, inl, inr, min, ==_eq,
}
use sat_symmetry.Bits.{bit}
use sat_symmetry.Bits.Laws.{
  bit-lt, bit-bit_and, bit-complement, bit-mod, bit-one_shifted, bit-three_shifted, bit-zero,
  eq-zero_of_bits, bit_and-lt, bit_and_63, bit_and_62,
}
use sat_symmetry.Bitset.{shl64, not64, one_bit64, bit_pos64, two_bits_from_pos64}

pub bit_pos64_lem : (i : ℕ) → bit_pos64 i ≡ i % 64
unfolding bit_pos64
bit_pos64_lem i = bit_and_63 i

pub bit-one_bit64 : (p k : ℕ) → k < 64 → bit (one_bit64 p) k ≡ (if p == k then 1 else 0)
unfolding one_bit64
bit-one_bit64 p k h = bit-mod (1 * 2 ^ p) 64 k h ∙ bit-one_shifted p k

pub bit-two_bits_from_pos64 :
    (i k : ℕ) → k < 64 → bit (two_bits_from_pos64 i) k ≡ (if i % 64 / 2 == k / 2 then 1 else 0)
unfolding two_bits_from_pos64
bit-two_bits_from_pos64 i k h =
    ground (
      arith,
      bit_and_62 i,
      bit-mod (3 * 2 ^ bit_and i 62) 64 k h,
      bit-three_shifted (bit_and i 62) k,
    )

shl64-lt : (w k : ℕ) → shl64 w k < 2 ^ 64
unfolding shl64
shl64-lt w k = omega arith

pub one_bit64-lt : (p : ℕ) → one_bit64 p < 2 ^ 64
unfolding one_bit64
one_bit64-lt p = omega arith

pub two_bits_from_pos64-lt : (i : ℕ) → two_bits_from_pos64 i < 2 ^ 64
unfolding two_bits_from_pos64
two_bits_from_pos64-lt i = omega arith

pub bit-not64 : (w k : ℕ) → w < 2 ^ 64 → k < 64 → bit (not64 w) k ≡ 1 - bit w k
unfolding not64
bit-not64 w k h lt = bit-complement 64 w k h lt

-- A test of a word against a mask is false exactly when they share no bit.
pub bit_and-eq-zero :
    (w m : ℕ) → w < 2 ^ 64 → ((k : ℕ) → k < 64 → min (bit w k) (bit m k) ≡ 0) → bit_and w m ≡ 0
bit_and-eq-zero w m h apart =
    eq-zero_of_bits 64 (bit_and w m) (bit_and-lt 64 w m h) λ k lt. bit-bit_and w m k ∙ apart k lt

pub bit_and-ne-zero : (w m k : ℕ) → bit w k ≡ 1 → bit m k ≡ 1 → bit_and w m ≢ 0
bit_and-ne-zero w m k hw hm e =
    omega (arith, bit-bit_and w m k, bit-zero k, ap (λ (t : ℕ). bit t k) e)

-- `w & OneBit64(p)` tests the bit at `p`.
pub test_one_bit64 :
    (w p : ℕ) → w < 2 ^ 64 → p < 64 → not (bit_and w (one_bit64 p) == 0) ≡ (bit w p == 1)
test_one_bit64 w p h lt = elim (Bool-cases (bit w p == 1)) [
  | inl on ↦ ground (arith, bit_and-ne-zero w (one_bit64 p) p (==_eq _ 1 on), bit-one_bit64 p p lt)
  | inr off ↦
      let empty : bit_and w (one_bit64 p) ≡ 0 =
        bit_and-eq-zero w (one_bit64 p) h
          λ k k<64. ground (arith, bit-one_bit64 p k k<64, bit-lt w p) in
      rw (empty, off)
]

-- `w & TwoBitsFromPos64(i)` tests the bit at `i` and its neighbour.
pub test_two_bits64 :
    (w i : ℕ)
    → w < 2 ^ 64
    → not (bit_and w (two_bits_from_pos64 i) == 0)
      ≡ (bit w (i % 64 / 2 * 2) == 1 || bit w (i % 64 / 2 * 2 + 1) == 1)
test_two_bits64 w i h = elim (Bool-cases (bit w even == 1 || bit w odd == 1)) [
  | inl on ↦ ground (
    arith,
    bit_and-ne-zero w (two_bits_from_pos64 i) even,
    bit_and-ne-zero w (two_bits_from_pos64 i) odd,
    bit-two_bits_from_pos64 i even,
    bit-two_bits_from_pos64 i odd,
  )
  | inr off ↦
      let empty : bit_and w (two_bits_from_pos64 i) ≡ 0 =
        bit_and-eq-zero w (two_bits_from_pos64 i) h
          λ k k<64. apart k k<64 off (bit-two_bits_from_pos64 i k k<64) in
      rw (empty, off)
]
  where
    even : ℕ
    even = i % 64 / 2 * 2

    odd : ℕ
    odd = i % 64 / 2 * 2 + 1

    apart :
        (k : ℕ)
        → k < 64
        → (bit w even == 1 || bit w odd == 1) ≡ false
        → bit (two_bits_from_pos64 i) k ≡ (if i % 64 / 2 == k / 2 then 1 else 0)
        → min (bit w k) (bit (two_bits_from_pos64 i) k) ≡ 0
    apart k lt off e = ground (arith, bit-lt w even, bit-lt w odd)
