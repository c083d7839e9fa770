-- ===== src/Bitset/Access.antt =====
-- Bitset.h: reading and writing one word of a Bitset64.
use sat_symmetry.Prelude.{
  ℕ, zero, suc, ◌+◌, ◌*◌, ◌/◌, ◌%◌, ◌^◌, ◌<◌, ◌≡◌, ap, arith, ◌∙◌, List, [], ◌∷◌, ◌==◌, ◌||◌,
  if◌then◌else◌, All, get_or, length, length-set, All-set, get_or-set,
}
use sat_symmetry.Bits.{bit}
use sat_symmetry.Bitset.{Bitset64, IsBitset64, word_at, set_word, is_set, are_one_of_two_bits_set}
use sat_symmetry.Bitset.Words.{bit_pos64_lem, test_one_bit64, test_two_bits64}

word-lt : (ws : List ℕ) (j : ℕ) → All (λ w. w < 2 ^ 64) ws → get_or ws j 0 < 2 ^ 64
word-lt [] j h = omega arith
word-lt (w ∷ ws) zero h = h.0
word-lt (w ∷ ws) (suc j) h = word-lt ws j h.1

pub word_at-lt : (s : Bitset64) (i : ℕ) → IsBitset64 s → word_at s i < 2 ^ 64
unfolding word_at
word_at-lt s i h = word-lt s.words (i / 64) h.fits

-- A position in range lies in a word that is there.
pub offset-lt : (s : Bitset64) (i : ℕ) → IsBitset64 s → i < s.size → i / 64 < length s.words
offset-lt s i h lt = omega (arith, h.enough)

pub set_word-IsBitset64 :
    (s : Bitset64) (i w : ℕ) → w < 2 ^ 64 → IsBitset64 s → IsBitset64 (set_word s i w)
unfolding set_word
set_word-IsBitset64 s i w fits h = record {
  fits = All-set (λ w. w < 2 ^ 64) s.words (i / 64) w fits h.fits;
  enough = length-set s.words (i / 64) w ∙ h.enough;
}

pub word_at-set_word :
    (s : Bitset64) (i j w : ℕ)
    → IsBitset64 s
    → i < s.size
    → word_at (set_word s i w) j ≡ (if i / 64 == j / 64 then w else word_at s j)
unfolding word_at set_word
word_at-set_word s i j w h lt = get_or-set s.words (i / 64) (j / 64) w 0 (offset-lt s i h lt)

pub is_set_lem :
    (s : Bitset64) (i : ℕ) → IsBitset64 s → is_set s i ≡ (bit (word_at s i) (i % 64) == 1)
unfolding is_set
is_set_lem s i h =
    rw (bit_pos64_lem i) (test_one_bit64 (word_at s i) (i % 64) (word_at-lt s i h) (omega arith))

pub word_at-same_word : (s : Bitset64) (i j : ℕ) → i / 64 ≡ j / 64 → word_at s i ≡ word_at s j
unfolding word_at
word_at-same_word s i j e = ap (λ (k : ℕ). get_or s.words k 0) e

-- The test of a pair of positions is the disjunction of the two tests.
pub are_one_of_two_bits_set_lem :
    (s : Bitset64) (i : ℕ)
    → IsBitset64 s
    → are_one_of_two_bits_set s i ≡ (is_set s (i / 2 * 2) || is_set s (i / 2 * 2 + 1))
unfolding are_one_of_two_bits_set
are_one_of_two_bits_set_lem s i h =
    let low : i / 2 * 2 % 64 ≡ i % 64 / 2 * 2 = omega arith in
    let high : (i / 2 * 2 + 1) % 64 ≡ i % 64 / 2 * 2 + 1 = omega arith in
    test_two_bits64 (word_at s i) i (word_at-lt s i h)
    ∙ rw (
      is_set_lem s (i / 2 * 2) h,
      is_set_lem s (i / 2 * 2 + 1) h,
      word_at-same_word s (i / 2 * 2) i (omega arith),
      word_at-same_word s (i / 2 * 2 + 1) i (omega arith),
      low,
      high,
    )
