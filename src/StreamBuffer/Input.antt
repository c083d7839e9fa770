-- ===== src/StreamBuffer/Input.antt =====
-- StreamBuffer.h: the operations of a stream that the readers call, `operator*`, `operator++`,
-- `skipLine`, `skipWhiteSpaces` and `readInt`, as an interface. One implementation is a
-- StreamBuffer, whose loops take `fuel`; the other a list of characters.
pub mod Follows
pub mod Stream
use sat_symmetry.Prelude.{ℕ, Bool, Option, some, List}
use sat_symmetry.Prelude.Int.{ℤ}
use sat_symmetry.StreamBuffer.{StreamBuffer, read, next, skip_line, skip_white_spaces, read_int}
use sat_symmetry.StreamBuffer.Characters.{front, rest_of, without, without_line, int_of}

pub record Input {ℓ} (S : Type ℓ) : Type ℓ where
  pub peek : S → Option (ℕ × S)
  pub advance : S → Option S
  pub pass_line : S → Option S
  pub pass_spaces : S → Option S
  pub take_int : S → Option (ℤ × S)

abbrev pub stream_input {ℓ} :
    {F : Type ℓ} (gzread : F → ℕ → Option (List ℕ) × F) (is_space : ℕ → Bool)
    → ℕ
    → Input (StreamBuffer F)
stream_input gzread is_space fuel = record {
  peek = read gzread is_space;
  advance = next gzread is_space;
  pass_line = skip_line gzread is_space fuel;
  pass_spaces = skip_white_spaces gzread is_space fuel;
  take_int = read_int gzread is_space fuel;
}

abbrev pub list_input : (ℕ → Bool) → Input (List ℕ)
list_input is_space = record {
  peek = λ cs. some (front cs, cs);
  advance = λ cs. some (rest_of cs);
  pass_line = λ cs. some (without_line cs);
  pass_spaces = λ cs. some (without is_space cs);
  take_int = λ cs. some (int_of is_space cs);
}
