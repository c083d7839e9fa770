-- ===== src/Bitset.antt =====
-- include/cosy/Bitset.h: 64-bit words, and the class Bitset64.
-- A word is a number below 2 ^ 64. A position outside the set is undefined in C++, where a debug
-- build stops at a DCHECK; here such a read finds 0 and such a write does nothing, and the theorems
-- assume the position in range. `_data` is `words`.
pub mod Words
pub mod Positions
pub mod Access
pub mod Laws
pub mod Tests
use sat_symmetry.Prelude.{
  ℕ, zero, suc, ◌+◌, ◌-◌, ◌*◌, ◌/◌, ◌%◌, ◌^◌, ◌<◌, ◌≡◌, Bool, true, false, not, List, [], ◌∷◌, ◌++◌,
  bit_and, bit_or, min, ◌==◌, if◌then◌else◌, length, get_or, set, resize, replicate, All,
}

-- `uint64`: shifts wrap, and `~` is the complement.
unfoldable pub shl64 : ℕ → ℕ → ℕ
shl64 w k = w * 2 ^ k % 2 ^ 64

unfoldable pub not64 : ℕ → ℕ
not64 w = 2 ^ 64 - 1 - w

unfoldable pub one_bit64 : ℕ → ℕ
unfolding shl64
one_bit64 pos = shl64 1 pos

unfoldable pub bit_pos64 : ℕ → ℕ
bit_pos64 pos = bit_and pos 63

unfoldable pub bit_offset64 : ℕ → ℕ
bit_offset64 pos = pos / 2 ^ 6

unfoldable pub bit_length64 : ℕ → ℕ
bit_length64 size = (size + 63) / 2 ^ 6

unfoldable pub bit_shift64 : ℕ → ℕ
bit_shift64 v = v * 2 ^ 6

-- A mask with the bits `pos % 64` and `(pos ^ 1) % 64`.
unfoldable pub two_bits_from_pos64 : ℕ → ℕ
unfolding shl64
two_bits_from_pos64 pos = shl64 3 (bit_and pos 62)

pub record Bitset64 : Type 0 where
  pub size : ℕ
  pub words : List ℕ

-- Every word is a `uint64`, and there are as many as the size needs.
pub record IsBitset64 (s : Bitset64) : Type 0 where
  pub fits : All (λ w. w < 2 ^ 64) s.words
  pub enough : length s.words ≡ (s.size + 63) / 64

unfoldable pub empty : Bitset64
empty = record { size = 0; words = [] }

-- `Bitset64(IndexType size)`
unfoldable pub of_size : ℕ → Bitset64
unfolding bit_length64
of_size n = record { size = n; words = replicate (bit_length64 n) 0 }

-- The word that holds the bit at position `i`.
unfoldable pub word_at : Bitset64 → ℕ → ℕ
unfolding bit_offset64
word_at s i = get_or s.words (bit_offset64 i) 0

unfoldable pub set_word : Bitset64 → ℕ → ℕ → Bitset64
unfolding bit_offset64
set_word s i w = record s { words = set s.words (bit_offset64 i) w }

unfoldable pub is_set : Bitset64 → ℕ → Bool
is_set s i = not (bit_and (word_at s i) (one_bit64 (bit_pos64 i)) == 0)

unfoldable pub are_one_of_two_bits_set : Bitset64 → ℕ → Bool
are_one_of_two_bits_set s i = not (bit_and (word_at s i) (two_bits_from_pos64 i) == 0)

unfoldable pub set_bit : Bitset64 → ℕ → Bitset64
set_bit s i = set_word s i (bit_or (word_at s i) (one_bit64 (bit_pos64 i)))

unfoldable pub clear : Bitset64 → ℕ → Bitset64
clear s i = set_word s i (bit_and (word_at s i) (not64 (one_bit64 (bit_pos64 i))))

unfoldable pub clear_two_bits : Bitset64 → ℕ → Bitset64
clear_two_bits s i = set_word s i (bit_and (word_at s i) (not64 (two_bits_from_pos64 i)))

unfoldable pub clear_bucket : Bitset64 → ℕ → Bitset64
clear_bucket s i = set_word s i 0

-- `Set(IndexType i, bool value)`
unfoldable pub set_to : Bitset64 → ℕ → Bool → Bitset64
set_to s i value = if value then set_bit s i else clear s i

unfoldable pub resize_to : Bitset64 → ℕ → Bitset64
unfolding bit_length64
resize_to s n = record { size = n; words = resize (bit_length64 n) 0 s.words }

unfoldable pub push_back : Bitset64 → Bool → Bitset64
push_back s value = set_to (resize_to s (s.size + 1)) s.size value

-- `memset(data, 0, …)` over the first `n` words.
abbrev pub zero_words : ℕ → List ℕ → List ℕ
zero_words zero ws = ws
zero_words (suc n) [] = []
zero_words (suc n) (w ∷ ws) = 0 ∷ zero_words n ws

unfoldable pub clear_all : Bitset64 → Bitset64
clear_all s = record s { words = zero_words (length s.words) s.words }

unfoldable pub clear_and_resize : Bitset64 → ℕ → Bitset64
unfolding bit_length64
clear_and_resize s n = record {
  size = n;
  words = zero_words (min (length s.words) (bit_length64 n)) (resize (bit_length64 n) 0 s.words);
}

unfoldable pub copy_bucket : Bitset64 → Bitset64 → ℕ → Bitset64
copy_bucket s other i = set_word s i (word_at other i)

-- The loops over the common words; the rest is set to 0, or kept.
abbrev pub and_words : List ℕ → List ℕ → List ℕ
and_words [] _ = []
and_words (v ∷ vs) [] = 0 ∷ and_words vs []
and_words (v ∷ vs) (w ∷ ws) = bit_and v w ∷ and_words vs ws

abbrev pub or_words : List ℕ → List ℕ → List ℕ
or_words [] _ = []
or_words (v ∷ vs) [] = v ∷ vs
or_words (v ∷ vs) (w ∷ ws) = bit_or v w ∷ or_words vs ws

unfoldable pub intersection : Bitset64 → Bitset64 → Bitset64
intersection s other = record s { words = and_words s.words other.words }

unfoldable pub union : Bitset64 → Bitset64 → Bitset64
union s other = record s { words = or_words s.words other.words }
