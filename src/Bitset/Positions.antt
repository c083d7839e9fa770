-- ===== src/Bitset/Positions.antt =====
-- include/cosy/Bitset.h: the functions that search a word for its lowest and its highest bit
-- without compiler intrinsics. `w` is the width of the word, 32 or 64.
use sat_symmetry.Prelude.{
  ℕ, ◌-◌, ◌*◌, ◌/◌, ◌%◌, ◌^◌, ◌≡◌, refl, bit_and, bit_or, ◌==◌, if◌then◌else◌,
}

-- if (n & mask) pos -= k; else n >>= k; for the mask of the `k` lowest bits
abbrev lsb_step : ℕ → ℕ × ℕ → ℕ × ℕ
lsb_step k (pos, n) = if bit_and n (2 ^ k - 1) == 0 then (pos, n / 2 ^ k) else (pos - k, n)

abbrev lsb_last : ℕ × ℕ → ℕ
lsb_last (pos, n) = if bit_and n 1 == 0 then pos else pos - 1

unfoldable least_significant_bit_position64_default : ℕ → ℕ
least_significant_bit_position64_default n =
    if n == 0
    then 0
    else lsb_last (lsb_step 2 (lsb_step 4 (lsb_step 8 (lsb_step 16 (lsb_step 32 (63, n))))))

unfoldable least_significant_bit_position32_default : ℕ → ℕ
least_significant_bit_position32_default n =
    if n == 0 then 0 else lsb_last (lsb_step 2 (lsb_step 4 (lsb_step 8 (lsb_step 16 (31, n)))))

-- if (0 != (n & (kAllBits << k))) { b |= k; n >>= k; }
abbrev msb_step : ℕ → ℕ → ℕ × ℕ → ℕ × ℕ
msb_step w k (b, n) =
    if bit_and n ((2 ^ w - 1) * 2 ^ k % 2 ^ w) == 0 then (b, n) else (bit_or b k, n / 2 ^ k)

abbrev msb_last : ℕ → ℕ × ℕ → ℕ
msb_last w (b, n) = if bit_and n ((2 ^ w - 1) * 2 % 2 ^ w) == 0 then b else bit_or b 1

unfoldable most_significant_bit_position64_default : ℕ → ℕ
most_significant_bit_position64_default n =
    msb_last 64
      (msb_step 64 2 (msb_step 64 4 (msb_step 64 8 (msb_step 64 16 (msb_step 64 32 (0, n))))))

unfoldable most_significant_bit_position32_default : ℕ → ℕ
most_significant_bit_position32_default n =
    msb_last 32 (msb_step 32 2 (msb_step 32 4 (msb_step 32 8 (msb_step 32 16 (0, n)))))

lowest_of_forty : least_significant_bit_position64_default 40 ≡ 3
unfolding least_significant_bit_position64_default
lowest_of_forty = refl

lowest_of_top : least_significant_bit_position32_default (2 ^ 31) ≡ 31
unfolding least_significant_bit_position32_default
lowest_of_top = refl

highest_of_forty : most_significant_bit_position64_default 40 ≡ 5
unfolding most_significant_bit_position64_default
highest_of_forty = refl

highest_of_word : most_significant_bit_position32_default (2 ^ 32 - 1) ≡ 31
unfolding most_significant_bit_position32_default
highest_of_word = refl
