-- ===== src/Bitset/Tests.antt =====
-- A set of 70 positions, which takes two words, and the theorems applied to it.
use sat_symmetry.Prelude.{◌≡◌, ◌+◌, ◌/◌, arith, false, if◌then◌else◌, ltb}
use sat_symmetry.Bitset.{Bitset64, of_size, set_bit, set_word, is_set, resize_to}
use sat_symmetry.Bitset.Laws.{of_size-IsBitset64, set_bit-IsBitset64, is_set-resize_twice}

abbrev with_last : Bitset64
with_last = set_bit (of_size 70) 69

is_set-resize_twice_example :
    is_set (resize_to (resize_to with_last 66) 70) 69
    ≡ (if ltb (69 / 64) ((66 + 63) / 64) then is_set with_last 69 else false)
unfolding set_bit set_word of_size
is_set-resize_twice_example =
    is_set-resize_twice with_last 66 70 69
      (set_bit-IsBitset64 (of_size 70) (of_size-IsBitset64 70) 69) (omega arith) (omega arith)
