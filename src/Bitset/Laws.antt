-- ===== src/Bitset/Laws.antt =====
-- Bitset.h: the operations on single bits, against the view of a set as a function of positions.
use sat_symmetry.Prelude.{
  ℕ, zero, suc, refl, List, [], ◌∷◌, length, get_or, ltb, resize, Bool-cases, inl, inr, ◌+◌, ◌/◌,
  ◌%◌, ◌^◌, ◌≤◌, ◌<◌, ◌≡◌, arith, ◌∙◌, Bool, true, false, not, ◌&&◌, ◌||◌, bit_and, bit_or, ◌==◌,
  if◌then◌else◌, length-resize, get_or-resize, length-replicate, get_or-replicate, All-resize,
  All-replicate,
}
use sat_symmetry.Bits.{bit}
use sat_symmetry.Bits.Laws.{bit-lt, bit-bit_and, bit-bit_or, bit-zero, bit_and-lt, bit_or-lt}
use sat_symmetry.Bitset.{
  Bitset64, IsBitset64, word_at, set_word, is_set, one_bit64, bit_pos64, two_bits_from_pos64, not64,
  set_bit, clear, clear_two_bits, clear_bucket, set_to, of_size, resize_to, push_back,
}
use sat_symmetry.Bitset.Words.{
  bit_pos64_lem, bit-one_bit64, bit-two_bits_from_pos64, bit-not64, one_bit64-lt,
  two_bits_from_pos64-lt,
}
use sat_symmetry.Bitset.Access.{
  word_at-lt, set_word-IsBitset64, word_at-set_word, word_at-same_word, is_set_lem,
}

-- After one word is written, the bits of that word are those of the value.
is_set-set_word :
    (s : Bitset64) (i j w : ℕ)
    → IsBitset64 s
    → i < s.size
    → w < 2 ^ 64
    → is_set (set_word s i w) j ≡ (if i / 64 == j / 64 then bit w (j % 64) == 1 else is_set s j)
is_set-set_word s i j w h lt fits =
    is_set_lem (set_word s i w) j (set_word-IsBitset64 s i w fits h)
    ∙ ground (arith, word_at-set_word s i j w h lt, is_set_lem s j h)

module _ (s : Bitset64) (h : IsBitset64 s) (i : ℕ) where
  pub set_bit-IsBitset64 : IsBitset64 (set_bit s i)
  unfolding set_bit
  set_bit-IsBitset64 =
      set_word-IsBitset64 s i _ (bit_or-lt 64 _ _ (word_at-lt s i h) (one_bit64-lt _)) h

  pub clear-IsBitset64 : IsBitset64 (clear s i)
  unfolding clear
  clear-IsBitset64 = set_word-IsBitset64 s i _ (bit_and-lt 64 _ _ (word_at-lt s i h)) h

  pub clear_two_bits-IsBitset64 : IsBitset64 (clear_two_bits s i)
  unfolding clear_two_bits
  clear_two_bits-IsBitset64 = set_word-IsBitset64 s i _ (bit_and-lt 64 _ _ (word_at-lt s i h)) h

  pub clear_bucket-IsBitset64 : IsBitset64 (clear_bucket s i)
  unfolding clear_bucket
  clear_bucket-IsBitset64 = set_word-IsBitset64 s i 0 (omega arith) h

  -- Setting a position in range of a well-formed set makes it true, and leaves every other
  -- position.
  pub is_set-set_bit : (j : ℕ) → i < s.size → is_set (set_bit s i) j ≡ (is_set s j || i == j)
  unfolding set_bit
  is_set-set_bit j lt =
      let value = bit_or (word_at s i) (one_bit64 (bit_pos64 i)) in
      ground (
        arith,
        is_set-set_word s i j value h lt
            (bit_or-lt 64 _ _ (word_at-lt s i h) (one_bit64-lt (bit_pos64 i))),
        bit-bit_or (word_at s i) (one_bit64 (bit_pos64 i)) (j % 64),
        bit-one_bit64 (bit_pos64 i) (j % 64) (omega arith),
        bit_pos64_lem i,
        is_set_lem s j h,
        word_at-same_word s i j,
        bit-lt (word_at s i) (j % 64),
      )

  pub is_set-clear : (j : ℕ) → i < s.size → is_set (clear s i) j ≡ (is_set s j && not (i == j))
  unfolding clear
  is_set-clear j lt =
      let value = bit_and (word_at s i) (not64 (one_bit64 (bit_pos64 i))) in
      ground (
        arith,
        is_set-set_word s i j value h lt (bit_and-lt 64 _ _ (word_at-lt s i h)),
        bit-bit_and (word_at s i) (not64 (one_bit64 (bit_pos64 i))) (j % 64),
        bit-not64 (one_bit64 (bit_pos64 i)) (j % 64) (one_bit64-lt _) (omega arith),
        bit-one_bit64 (bit_pos64 i) (j % 64) (omega arith),
        bit_pos64_lem i,
        is_set_lem s j h,
        word_at-same_word s i j,
        bit-lt (word_at s i) (j % 64),
      )

  -- Clearing the pair of a position in range of a well-formed set makes both of its positions
  -- false, and leaves every other position.
  pub is_set-clear_two_bits :
      (j : ℕ) → i < s.size → is_set (clear_two_bits s i) j ≡ (is_set s j && not (i / 2 == j / 2))
  unfolding clear_two_bits
  is_set-clear_two_bits j lt =
      let value = bit_and (word_at s i) (not64 (two_bits_from_pos64 i)) in
      ground (
        arith,
        is_set-set_word s i j value h lt (bit_and-lt 64 _ _ (word_at-lt s i h)),
        bit-bit_and (word_at s i) (not64 (two_bits_from_pos64 i)) (j % 64),
        bit-not64 (two_bits_from_pos64 i) (j % 64) (two_bits_from_pos64-lt i) (omega arith),
        bit-two_bits_from_pos64 i (j % 64) (omega arith),
        is_set_lem s j h,
        word_at-same_word s i j,
        bit-lt (word_at s i) (j % 64),
      )

  pub is_set-clear_bucket :
      (j : ℕ) → i < s.size → is_set (clear_bucket s i) j ≡ (is_set s j && not (i / 64 == j / 64))
  unfolding clear_bucket
  is_set-clear_bucket j lt =
      ground (arith, is_set-set_word s i j 0 h lt (omega arith), bit-zero (j % 64))

  pub is_set-set_to :
      (value : Bool) (j : ℕ)
      → i < s.size
      → is_set (set_to s i value) j ≡ (if i == j then value else is_set s j)
  unfolding set_to
  is_set-set_to true j lt = ground (arith, is_set-set_bit j lt)
  is_set-set_to false j lt = ground (arith, is_set-clear j lt)

pub of_size-IsBitset64 : (n : ℕ) → IsBitset64 (of_size n)
unfolding of_size
of_size-IsBitset64 n = record {
  fits = All-replicate (λ w. w < 2 ^ 64) ((n + 63) / 64) 0 (omega arith);
  enough = length-replicate ((n + 63) / 64) 0;
}

-- A new set is empty.
pub is_set-of_size : (n j : ℕ) → is_set (of_size n) j ≡ false
is_set-of_size n j =
    is_set_lem (of_size n) j (of_size-IsBitset64 n) ∙ ground (arith, none_there, bit-zero (j % 64))
  where
    none_there : word_at (of_size n) j ≡ 0
    none_there = unfold word_at of_size in get_or-replicate ((n + 63) / 64) (j / 64) 0

pub resize_to-IsBitset64 : (s : Bitset64) (n : ℕ) → IsBitset64 s → IsBitset64 (resize_to s n)
unfolding resize_to
resize_to-IsBitset64 s n h = record {
  fits = All-resize (λ w. w < 2 ^ 64) ((n + 63) / 64) 0 s.words (omega arith) h.fits;
  enough = length-resize ((n + 63) / 64) 0 s.words;
}

-- After a well-formed set is resized, the bit at a position below the new size is as before; beyond
-- the old size it is the one that the last word had there.
pub is_set-resize_to :
    (s : Bitset64) (n j : ℕ) → IsBitset64 s → j < n → is_set (resize_to s n) j ≡ is_set s j
is_set-resize_to s n j h lt =
    ground
      (arith, is_set_lem (resize_to s n) j (resize_to-IsBitset64 s n h), is_set_lem s j h, kept)
  where
    kept : word_at (resize_to s n) j ≡ word_at s j
    kept =
        unfold word_at resize_to in get_or-resize ((n + 63) / 64) 0 s.words (j / 64) (omega arith)

get_or-outside : (xs : List ℕ) (i : ℕ) → length xs ≤ i → get_or xs i 0 ≡ 0
get_or-outside [] i h = refl
get_or-outside (x ∷ xs) zero h = absurd (omega arith)
get_or-outside (x ∷ xs) (suc i) h = get_or-outside xs i (omega arith)

-- A well-formed set is resized, and resized again. A position that is below its first size and
-- below its last one reads as at first where its word was kept by the size in between, also if
-- that size does not reach the position, and as false where the word was cut off.
pub is_set-resize_twice :
    (s : Bitset64) (m n j : ℕ)
    → IsBitset64 s
    → j < s.size
    → j < n
    → is_set (resize_to (resize_to s m) n) j
      ≡ (if ltb (j / 64) ((m + 63) / 64) then is_set s j else false)
is_set-resize_twice s m n j h inside lt =
    let h' = resize_to-IsBitset64 s m h in
    is_set-resize_to (resize_to s m) n j h' lt ∙ elim (Bool-cases (ltb (j / 64) ((m + 63) / 64))) [
      | inl kept ↦
          let same : word_at (resize_to s m) j ≡ word_at s j =
            unfold word_at resize_to in
            get_or-resize ((m + 63) / 64) 0 s.words (j / 64) (ground arith) in
          ground (arith, is_set_lem (resize_to s m) j h', is_set_lem s j h, same)
      | inr cut ↦
          let gone : word_at (resize_to s m) j ≡ 0 =
            unfold word_at resize_to in
            get_or-outside (resize ((m + 63) / 64) 0 s.words) (j / 64)
              (ground (arith, length-resize ((m + 63) / 64) 0 s.words)) in
          ground (arith, is_set_lem (resize_to s m) j h', gone, bit-zero (j % 64))
    ]

-- Appending to a well-formed set keeps the positions below the old size, and the new last position
-- has the value.
pub is_set-push_back :
    (s : Bitset64) (value : Bool) (j : ℕ)
    → IsBitset64 s
    → j ≤ s.size
    → is_set (push_back s value) j ≡ (if s.size == j then value else is_set s j)
unfolding push_back
is_set-push_back s value j h le =
    let grown = resize_to s (s.size + 1) in
    let ready = resize_to-IsBitset64 s (s.size + 1) h in
    is_set-set_to grown ready s.size value j (unfold resize_to in omega arith)
    ∙ ground (arith, is_set-resize_to s (s.size + 1) j h (omega arith))
