-- ===== src/StreamBuffer.antt =====
-- include/cosy/StreamBuffer.h and src/StreamBuffer.cc: the characters of a file, read through a
-- buffer. `gzread` of zlib and `isspace` of the C library are parameters; a result `none` of
-- `gzread` is its -1, which becomes the largest `unsigned int`. Opening and closing the file are
-- left out: `open_stream` begins with an open file. A result `none` is a read outside of the
-- buffer, or fuel that runs out; a fuel above the number of characters left is enough. The `int`
-- that is read is unbounded: its overflow is not modelled, so the theorems on the value of a
-- number assume that it is an `int` (`IsInt` of Decimal), or below 2 ^ 31.
pub mod Characters
pub mod Input
pub mod Laws
pub mod Reading
pub mod Decimal
pub mod Error
pub mod Tests
use sat_symmetry.Prelude.{
  ℕ, zero, suc, ◌+◌, ◌-◌, ◌*◌, ◌^◌, Bool, true, false, not, ◌&&◌, Option, none, some, List, [], ◌∷◌,
  ◌++◌, ◌==◌, leb, if◌then◌else◌, length, get_elem?, drop, ◌>>=◌,
}
use sat_symmetry.Prelude.Int.{ℤ, pos, negsuc}

pub record StreamBuffer {ℓ} (F : Type ℓ) : Type ℓ where
  pub file : F
  pub buffer : List ℕ
  pub index : ℕ
  pub size : ℕ

abbrev pub buffer_size : ℕ
buffer_size = 4096

abbrev pub newline : ℕ
newline = 10

abbrev pub is_digit : ℕ → Bool
is_digit c = leb 48 c && leb c 57

-- `negative ? -value : value`
abbrev pub with_sign : Bool → ℕ → ℤ
with_sign true zero = pos 0
with_sign true (suc n) = negsuc n
with_sign false n = pos n

module _ {ℓ} {F : Type ℓ} where
  -- The state after a result of `gzread`.
  abbrev pub fill : Option (List ℕ) × F → StreamBuffer F → StreamBuffer F
  fill (none, file) s = record { file = file; buffer = s.buffer; index = 0; size = 2 ^ 32 - 1 }
  fill (some bs, file) s = record {
    file = file;
    buffer = bs ++ drop (length bs) s.buffer;
    index = 0;
    size = length bs;
  }

  -- `(_index >= _size) ? '\0' : _buffer[_index]`
  abbrev pub current : StreamBuffer F → Option (ℕ × StreamBuffer F)
  current s =
      if leb s.size s.index then some (0, s) else do c ← get_elem? s.buffer s.index; some (c, s)

  abbrev pub step : StreamBuffer F → StreamBuffer F
  step s = record s { index = s.index + 1 }

module _ {ℓ} {F : Type ℓ} (gzread : F → ℕ → Option (List ℕ) × F) (is_space : ℕ → Bool) where
  -- `_size = gzread(_in, _buffer, sizeof(_buffer)); _index = 0;`
  unfoldable pub refill : StreamBuffer F → StreamBuffer F
  refill s = fill (gzread s.file buffer_size) s

  -- The method `read`, which `operator*` calls.
  unfoldable pub read : StreamBuffer F → Option (ℕ × StreamBuffer F)
  read s = current (if leb s.size s.index then refill s else s)

  -- The constructor, once the file is open: `buffer` is what stands in the memory of the buffer.
  unfoldable pub open_stream : List ℕ → F → Option (StreamBuffer F)
  unfolding read
  open_stream buffer file = do
    (_, s) ← read (record { file = file; buffer = buffer; index = 0; size = 0 })
    some s

  -- `operator++`
  unfoldable pub next : StreamBuffer F → Option (StreamBuffer F)
  unfolding read
  next s = do (_, s') ← read (step s); some s'

  unfoldable pub skip_while : ℕ → (ℕ → Bool) → StreamBuffer F → Option (StreamBuffer F)
  unfolding read
  skip_while zero goes_on s = none
  skip_while (suc fuel) goes_on s = do
    (c, s') ← read s
    elim (not (c == 0) && goes_on c) [ true ↦ skip_while fuel goes_on (step s') | false ↦ some s' ]

  unfoldable pub skip_white_spaces : ℕ → StreamBuffer F → Option (StreamBuffer F)
  unfolding skip_while
  skip_white_spaces fuel s = skip_while fuel is_space s

  unfoldable pub skip_line : ℕ → StreamBuffer F → Option (StreamBuffer F)
  unfolding skip_while next
  skip_line fuel s = do s' ← skip_while fuel (λ c. not (c == newline)) s; next s'

  -- The loop over the digits; `c` is the character at the index.
  unfoldable pub read_digits : ℕ → ℕ → StreamBuffer F → Option (ℕ × StreamBuffer F)
  unfolding read next
  read_digits zero value s = none
  read_digits (suc fuel) value s = do
    (c, s') ← read s
    elim (not (c == 0) && is_digit c) [
      | true ↦ next s' >>= λ s''. read_digits fuel (value * 10 + (c - 48)) s''
      | false ↦ some (value, s')
    ]

  -- A sign is passed over.
  unfoldable pub read_sign : StreamBuffer F → Option (Bool × StreamBuffer F)
  unfolding read next
  read_sign s = do
    (c, s') ← read s
    if c == 45
        then (next s' >>= λ s''. some (true, s''))
        else if c == 43
        then (next s' >>= λ s''. some (false, s''))
        else some (false, s')

  unfoldable pub read_int : ℕ → StreamBuffer F → Option (ℤ × StreamBuffer F)
  unfolding skip_white_spaces read_sign read_digits
  read_int fuel s = do
    s' ← skip_white_spaces fuel s
    (negative, s'') ← read_sign s'
    (value, s''') ← read_digits fuel 0 s''
    some (with_sign negative value, s''')
