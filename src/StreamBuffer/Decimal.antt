-- ===== src/StreamBuffer/Decimal.antt =====
-- StreamBuffer.cc, readInt: the digits of a number, which is read back.
use sat_symmetry.Prelude.{
  ℕ, zero, suc, ◌+◌, ◌-◌, ◌*◌, ◌/◌, ◌%◌, ◌≤◌, ◌<◌, ◌≡◌, ◌≢◌, sym, ap, ◌∙◌, arith, Bool, true, false,
  not, ◌&&◌, ◌||◌, List, [], ◌∷◌, ◌++◌, ◌==◌, ltb, leb, if◌then◌else◌, Bool-cases, inl, inr,
}
use mathlib.Core.List.{append_assoc}
use sat_symmetry.Prelude.Int.{ℤ, pos, negsuc}
use sat_symmetry.StreamBuffer.{is_digit, with_sign}
use sat_symmetry.StreamBuffer.Characters.{without, sign_of, digits_of, int_of}

-- What the C library says of `isspace`.
abbrev pub IsBlank : (ℕ → Bool) → Type 0
IsBlank is_space = (c : ℕ) → is_space c ≡ (c == 32 || leb 9 c && leb c 13)

-- The last digit of n stands last; the fuel is above n.
unfoldable pub decimal_digits : ℕ → ℕ → List ℕ
decimal_digits zero n = []
decimal_digits (suc fuel) n =
    let before = decimal_digits fuel (n / 10) ++ (48 + n % 10) ∷ [] in
    if ltb n 10 then (48 + n) ∷ [] else before

abbrev pub decimal : ℕ → List ℕ
decimal n = decimal_digits (suc n) n

abbrev pub number : ℤ → List ℕ
number (pos n) = decimal n
number (negsuc n) = 45 ∷ decimal (suc n)

digits_of-decimal_digits :
    (fuel n : ℕ) (rest : List ℕ)
    → n < fuel
    → digits_of 0 (decimal_digits fuel n ++ rest) ≡ digits_of n rest
unfolding decimal_digits
digits_of-decimal_digits zero n rest lt = absurd (omega arith)
digits_of-decimal_digits (suc fuel) n rest lt = elim (Bool-cases (ltb n 10)) [
  | inl small ↦
      let digit : (not (48 + n == 0) && is_digit (48 + n)) ≡ true = ground arith in
      let same : 0 * 10 + (48 + n - 48) ≡ n = omega arith in rw (small, digit, same)
  | inr large ↦
      let digit : (not (48 + n % 10 == 0) && is_digit (48 + n % 10)) ≡ true = ground arith in
      let same : n / 10 * 10 + (48 + n % 10 - 48) ≡ n = omega arith in
      rw (
        large,
        append_assoc (decimal_digits fuel (n / 10)) ((48 + n % 10) ∷ []) rest,
        digits_of-decimal_digits fuel (n / 10) ((48 + n % 10) ∷ rest) (ground arith),
        digit,
        same,
      )
]

-- A number begins with a digit.
decimal_digits-front :
    (fuel n : ℕ)
    → n < fuel
    → (d : ℕ) × (ds : List ℕ) × (decimal_digits fuel n ≡ d ∷ ds) × (48 ≤ d) × (d ≤ 57)
unfolding decimal_digits
decimal_digits-front zero n lt = absurd (omega arith)
decimal_digits-front (suc fuel) n lt = elim (Bool-cases (ltb n 10)) [
  | inl small ↦ (48 + n, [], rw small, omega arith, ground arith)
  | inr large ↦
      let (d, ds, e, low, high) = decimal_digits-front fuel (n / 10) (ground arith) in
      (d, ds ++ (48 + n % 10) ∷ [], rw (large, e), low, high)
]

pub decimal-front : (n : ℕ) → (d : ℕ) × (ds : List ℕ) × (decimal n ≡ d ∷ ds) × (48 ≤ d) × (d ≤ 57)
decimal-front n = decimal_digits-front (suc n) n (omega arith)

-- A sign before, and the digits behind.
signed_digits : Bool × List ℕ → ℤ × List ℕ
signed_digits (negative, after_sign) =
    let (value, left) = digits_of 0 after_sign in (with_sign negative value, left)

digits_of-decimal :
    (n c : ℕ) (rest : List ℕ) → c < 48 → digits_of 0 (decimal n ++ c ∷ rest) ≡ (n, c ∷ rest)
digits_of-decimal n c rest lt =
    let stop : (not (c == 0) && is_digit c) ≡ false = ground arith in
    digits_of-decimal_digits (suc n) n (c ∷ rest) (omega arith) ∙ rw stop

sign_of-front : (c : ℕ) (cs : List ℕ) → 45 < c → sign_of (c ∷ cs) ≡ (false, c ∷ cs)
sign_of-front c cs high =
    let no_minus : (c == 45) ≡ false = ground arith in
    let no_plus : (c == 43) ≡ false = ground arith in rw (no_minus, no_plus)

module _ (is_space : ℕ → Bool) (blank : IsBlank is_space) where
  -- A character that is not white space ends the skipping.
  pub without-front : (c : ℕ) (cs : List ℕ) → 13 < c → c ≢ 32 → without is_space (c ∷ cs) ≡ c ∷ cs
  without-front c cs high ne =
      let no_space : is_space c ≡ false = ground (arith, blank c) in
      let stop : (not (c == 0) && is_space c) ≡ false = ground (arith, no_space) in rw stop

  pub int_of-space : (cs : List ℕ) → int_of is_space (32 ∷ cs) ≡ int_of is_space cs
  int_of-space cs =
      let space : is_space 32 ≡ true = blank 32 in
      let skip : (not (32 == 0) && is_space 32) ≡ true = rw space in rw skip

  -- What follows is no digit.
  pub int_of-decimal :
      (n c : ℕ) (rest : List ℕ)
      → c < 48
      → int_of is_space (decimal n ++ c ∷ rest) ≡ (pos n, c ∷ rest)
  unfolding signed_digits
  int_of-decimal n c rest lt =
      let (d, ds, e, low, high) = decimal-front n in
      let first = without-front d (ds ++ c ∷ rest) (omega arith) (omega arith) in
      let unsigned = sign_of-front d (ds ++ c ∷ rest) (omega arith) in
      let same : decimal n ++ c ∷ rest ≡ d ∷ (ds ++ c ∷ rest) = rw e in
      ap (λ w. signed_digits (sign_of (without is_space w))) same
      ∙ ap (λ w. signed_digits (sign_of w)) first
      ∙ ap signed_digits unsigned
      ∙ ap (λ w. signed_digits (false, w)) (sym same)
      ∙ ap (λ (p : ℕ × List ℕ). (with_sign false p.0, p.1)) (digits_of-decimal n c rest lt)

  pub int_of-number :
      (v : ℤ) (c : ℕ) (rest : List ℕ)
      → c < 48
      → int_of is_space (number v ++ c ∷ rest) ≡ (v, c ∷ rest)
  unfolding signed_digits
  int_of-number (pos n) c rest lt = int_of-decimal n c rest lt
  int_of-number (negsuc n) c rest lt =
      ap (λ w. signed_digits (sign_of w))
        (without-front 45 (decimal (suc n) ++ c ∷ rest) (omega arith) (omega arith))
      ∙ ap (λ (p : ℕ × List ℕ). (with_sign true p.0, p.1)) (digits_of-decimal (suc n) c rest lt)
