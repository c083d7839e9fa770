-- ===== src/StreamBuffer/Input/Stream.antt =====
-- StreamBuffer.cc: a stream gives the answers of the list of the characters that are left.
use sat_symmetry.Prelude.{
  ℕ, ◌≤◌, ◌<◌, ◌≡◌, refl, ◌+◌, ◌-◌, ◌*◌, arith, Bool, not, Option, some, List, [], ◌∷◌, ◌==◌,
  length,
}
use sat_symmetry.StreamBuffer.{StreamBuffer, buffer_size, newline, open_stream}
use sat_symmetry.StreamBuffer.Characters.{front, without, without_line, sign_of, digits_of, int_of}
use sat_symmetry.StreamBuffer.Laws.{IsFile, IsAt, read-front, next-IsAt}
use sat_symmetry.StreamBuffer.Reading.{
  length-without, length-rest_of, length-sign_of, skip_line-IsAt, skip_white_spaces-IsAt,
  read_int_lem,
}
use sat_symmetry.StreamBuffer.Input.{stream_input, list_input}
use sat_symmetry.StreamBuffer.Input.Follows.{IsFollower}

pub length-without_line : (cs : List ℕ) → length (without_line cs) ≤ length cs
length-without_line cs = omega (
  arith,
  length-rest_of (without (λ c. not (c == newline)) cs),
  length-without (λ c. not (c == newline)) cs,
)

pub length-digits_of : (value : ℕ) (cs : List ℕ) → length (digits_of value cs).1 ≤ length cs
length-digits_of value [] = omega arith
length-digits_of value (c ∷ cs) = ground (arith, length-digits_of (value * 10 + (c - 48)) cs)

pub length-int_of : (is_space : ℕ → Bool) (cs : List ℕ) → length (int_of is_space cs).1 ≤ length cs
length-int_of is_space cs = omega (
  arith,
  length-without is_space cs,
  length-sign_of (without is_space cs),
  length-digits_of 0 (sign_of (without is_space cs)).1,
)

module _ {F : Type 0} (gzread : F → ℕ → Option (List ℕ) × F) (is_space : ℕ → Bool)
    (content : F → List ℕ) (fuel : ℕ) where
  -- The characters that are left are `cs`, the first of them was read, and the fuel is enough.
  pub record Left (s : StreamBuffer F) (cs : List ℕ) : Type 0 where
    pub at : IsAt gzread is_space content cs s
    pub enough : length cs < fuel

  pub stream-IsFollower :
      IsFile gzread content
      → IsFollower (stream_input gzread is_space fuel) (list_input is_space) Left
  stream-IsFollower file = record {
    peek = λ s cs h.
        let (s', e, at) = read-front gzread is_space content file s cs h.at.stream h.at.here in
        ((front cs, s'), rw e, (refl, record { at = at; enough = h.enough }));
    advance = λ s cs h.
        let (s', e, at) = next-IsAt gzread is_space content file s cs h.at in
        (s', rw e, record { at = at; enough = omega (arith, h.enough, length-rest_of cs) });
    pass_line = λ s cs h.
        let (s', e, at) =
          skip_line-IsAt gzread is_space content file fuel s cs h.at.stream h.at.here h.enough in
        (s', rw e, record { at = at; enough = omega (arith, h.enough, length-without_line cs) });
    pass_spaces = λ s cs h.
        let (s', e, at) =
          skip_white_spaces-IsAt gzread is_space content file fuel s cs h.at.stream h.at.here
            h.enough in
        (
          s',
          rw e,
          record { at = at; enough = omega (arith, h.enough, length-without is_space cs) },
        );
    take_int = λ s cs h.
        let (s', e, at) =
          read_int_lem gzread is_space content file fuel s cs h.at.stream h.at.here h.enough in
        (
          ((int_of is_space cs).0, s'),
          rw e,
          (refl, record { at = at; enough = omega (arith, h.enough, length-int_of is_space cs) }),
        );
  }

  -- A stream that is opened stands at the first character.
  pub open_stream-Left :
      (buffer : List ℕ) (f : F)
      → IsFile gzread content
      → length buffer ≡ buffer_size
      → length (content f) < fuel
      → (s : StreamBuffer F) × (open_stream gzread is_space buffer f ≡ some s) × Left s (content f)
  unfolding open_stream
  open_stream-Left buffer f file room enough =
      let start : StreamBuffer F = record { file = f; buffer = buffer; index = 0; size = 0 } in
      let (s, e, at) =
        read-front gzread is_space content file start (content f)
          record { room = room; filled = omega arith } refl in
      (s, rw e, record { at = at; enough = enough })
