-- ===== src/StreamBuffer/Reading.antt =====
-- StreamBuffer.cc: skipLine, skipWhiteSpaces and readInt on the characters that are left.
use sat_symmetry.Prelude.{
  suc, ◌^◌, ℕ, ◌≤◌, ◌<◌, ◌≡◌, arith, Bool, not, Option, some, List, [], ◌∷◌, ◌==◌, length,
  Bool-cases, inl, inr, ◌>>=◌,
}
use sat_symmetry.Prelude.Int.{ℤ, pos, negsuc}
use sat_symmetry.StreamBuffer.{
  StreamBuffer, newline, skip_white_spaces, skip_line, read_sign, read_int,
}
use sat_symmetry.StreamBuffer.Laws.{
  IsFile, remaining, IsStream, IsAt, read-front, next-IsAt, skip_while-IsAt, read_digits-IsAt,
}
use sat_symmetry.StreamBuffer.Characters.{front, rest_of, without, without_line, sign_of, int_of}

pub length-without : (goes_on : ℕ → Bool) (cs : List ℕ) → length (without goes_on cs) ≤ length cs
length-without goes_on [] = omega arith
length-without goes_on (c ∷ cs) = ground (arith, length-without goes_on cs)

pub length-rest_of : (cs : List ℕ) → length (rest_of cs) ≤ length cs
length-rest_of [] = omega arith
length-rest_of (c ∷ cs) = omega arith

pub length-sign_of : (cs : List ℕ) → length (sign_of cs).1 ≤ length cs
length-sign_of cs = ground (arith, length-rest_of cs)

-- A number that the source's `int value` reaches without overflow, and its negation.
abbrev pub IsInt : ℤ → Type 0
IsInt (pos n) = n < 2 ^ 31
IsInt (negsuc n) = suc n < 2 ^ 31

module _ {ℓ} {F : Type ℓ} (gzread : F → ℕ → Option (List ℕ) × F) (is_space : ℕ → Bool)
    (content : F → List ℕ) (file : IsFile gzread content) where
  abbrev pub At : List ℕ → StreamBuffer F → Type ℓ
  At = IsAt gzread is_space content

  pub skip_white_spaces-IsAt :
      (fuel : ℕ) (s : StreamBuffer F) (cs : List ℕ)
      → IsStream gzread is_space content s
      → remaining gzread is_space content s ≡ cs
      → length cs < fuel
      → (s' : StreamBuffer F) × (skip_white_spaces gzread is_space fuel s ≡ some s')
        × At (without is_space cs) s'
  unfolding skip_white_spaces
  skip_white_spaces-IsAt fuel s cs = skip_while-IsAt gzread is_space content file fuel is_space s cs

  -- Where gzread gives the characters of the file in pieces, without an error and no empty piece
  -- before the end, and with fuel above the number of characters left, skip_line leaves the stream
  -- behind the next newline or null character, or at the end.
  pub skip_line-IsAt :
      (fuel : ℕ) (s : StreamBuffer F) (cs : List ℕ)
      → IsStream gzread is_space content s
      → remaining gzread is_space content s ≡ cs
      → length cs < fuel
      → (s' : StreamBuffer F) × (skip_line gzread is_space fuel s ≡ some s')
        × At (without_line cs) s'
  unfolding skip_line
  skip_line-IsAt fuel s cs h e enough =
      let to_end = λ (c : ℕ). not (c == newline) in
      let (s1, made1, at1) =
        skip_while-IsAt gzread is_space content file fuel (λ c. not (c == newline)) s cs h e
          enough in
      let (s2, made2, at2) =
        next-IsAt gzread is_space content file s1 (without (λ c. not (c == newline)) cs) at1 in
      (s2, rw (made1, made2), at2)

  read_sign-IsAt :
      (s : StreamBuffer F) (cs : List ℕ)
      → IsStream gzread is_space content s
      → remaining gzread is_space content s ≡ cs
      → (s' : StreamBuffer F) × (read_sign gzread is_space s ≡ some ((sign_of cs).0, s'))
        × At (sign_of cs).1 s'
  unfolding read_sign
  read_sign-IsAt s cs h e =
      let (s1, got, at1) = read-front gzread is_space content file s cs h e in
      let (s2, passed, at2) = next-IsAt gzread is_space content file s1 cs at1 in
      elim (Bool-cases (front cs == 45)) [
        | inl minus ↦ (s2, rw (got, ◌>>=◌, minus, passed), rw minus at2)
        | inr no_minus ↦ elim (Bool-cases (front cs == 43)) [
          | inl plus ↦ (s2, rw (got, ◌>>=◌, no_minus, plus, passed), rw (no_minus, plus) at2)
          | inr digits ↦ (s1, rw (got, ◌>>=◌, no_minus, digits), rw (no_minus, digits) at1)
        ]
      ]

  -- The number without the bound of an `int`.
  pub read_int_lem :
      (fuel : ℕ) (s : StreamBuffer F) (cs : List ℕ)
      → IsStream gzread is_space content s
      → remaining gzread is_space content s ≡ cs
      → length cs < fuel
      → (s' : StreamBuffer F) × (read_int gzread is_space fuel s
          ≡ some ((int_of is_space cs).0, s'))
        × At (int_of is_space cs).1 s'
  unfolding read_int
  read_int_lem fuel s cs h e enough =
      let cs1 = without is_space cs in
      let le1 = length-without is_space cs in
      let (s1, made1, at1) = skip_white_spaces-IsAt fuel s cs h e enough in
      let (s2, made2, at2) = read_sign-IsAt s1 cs1 at1.stream at1.here in
      let (s3, made3, at3) =
        read_digits-IsAt gzread is_space content file fuel 0 s2 (sign_of cs1).1 at2.stream at2.here
          (omega (arith, length-sign_of cs1, le1)) in
      (s3, rw (made1, made2, made3), at3)

  -- Where gzread gives the characters of the file in pieces, without an error and no empty piece
  -- before the end, with fuel above the number of characters left, and where the number that these
  -- characters begin with has a magnitude below 2 ^ 31, read_int gives this number (after white
  -- space, with an optional sign), and leaves the stream at the character behind it: the pieces do
  -- not matter.
  pub read_int-IsAt :
      (fuel : ℕ) (s : StreamBuffer F) (cs : List ℕ)
      → IsStream gzread is_space content s
      → remaining gzread is_space content s ≡ cs
      → length cs < fuel
      → IsInt (int_of is_space cs).0
      → (s' : StreamBuffer F) × (read_int gzread is_space fuel s
          ≡ some ((int_of is_space cs).0, s'))
        × At (int_of is_space cs).1 s'
  read_int-IsAt fuel s cs h e enough small = read_int_lem fuel s cs h e enough
