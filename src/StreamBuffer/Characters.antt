-- ===== src/StreamBuffer/Characters.antt =====
-- StreamBuffer.cc: what the operations do to the list of the characters that are left.
use sat_symmetry.Prelude.{
  ℕ, zero, suc, ◌+◌, ◌-◌, ◌*◌, ◌≤◌, ◌<◌, ◌≡◌, refl, ap, arith, Bool, true, false, not, ◌&&◌, some,
  List, [], ◌∷◌, ◌++◌, ◌==◌, if◌then◌else◌, length, get_elem?, drop, take,
}
use sat_symmetry.Prelude.Int.{ℤ}
use sat_symmetry.StreamBuffer.{newline, is_digit, with_sign}

-- The character at the front of a list, and what follows it; a null character stands for the end.
abbrev pub front : List ℕ → ℕ
front [] = 0
front (c ∷ cs) = c

abbrev pub rest_of : List ℕ → List ℕ
rest_of [] = []
rest_of (c ∷ cs) = cs

-- The operations on lists of characters.
abbrev pub without : (ℕ → Bool) → List ℕ → List ℕ
without goes_on [] = []
without goes_on (c ∷ cs) = if not (c == 0) && goes_on c then without goes_on cs else c ∷ cs

abbrev pub without_line : List ℕ → List ℕ
without_line cs = rest_of (without (λ c. not (c == newline)) cs)

abbrev pub digits_of : ℕ → List ℕ → ℕ × List ℕ
digits_of value [] = (value, [])
digits_of value (c ∷ cs) =
    let later = digits_of (value * 10 + (c - 48)) cs in
    if not (c == 0) && is_digit c then later else (value, c ∷ cs)

abbrev pub sign_of : List ℕ → Bool × List ℕ
sign_of cs =
    if front cs == 45
    then (true, rest_of cs)
    else if front cs == 43
    then (false, rest_of cs)
    else (false, cs)

abbrev pub int_of : (ℕ → Bool) → List ℕ → ℤ × List ℕ
int_of is_space cs =
    let (negative, after_sign) = sign_of (without is_space cs) in
    let (value, left) = digits_of 0 after_sign in (with_sign negative value, left)

pub take-get :
    (xs : List ℕ) (i n : ℕ)
    → i < n
    → n ≤ length xs
    → (c : ℕ) × (get_elem? xs i ≡ some c) × (drop i (take n xs) ≡ c ∷ drop (suc i) (take n xs))
take-get [] i n lt le = absurd (omega arith)
take-get (x ∷ xs) i zero lt le = absurd (omega arith)
take-get (x ∷ xs) zero (suc n) lt le = (x, refl, refl)
take-get (x ∷ xs) (suc i) (suc n) lt le =
    let (c, found, e) = take-get xs i n (omega arith) (omega arith) in (c, found, e)

drop_nil : (i : ℕ) → drop {A = ℕ} i [] ≡ []
drop_nil zero = refl
drop_nil (suc i) = refl

pub drop_all : (xs : List ℕ) (i n : ℕ) → n ≤ i → drop i (take n xs) ≡ []
drop_all xs i zero le = drop_nil i
drop_all [] i (suc n) le = drop_nil i
drop_all (x ∷ xs) zero (suc n) le = absurd (omega arith)
drop_all (x ∷ xs) (suc i) (suc n) le = drop_all xs i n (omega arith)

pub take-append : (xs ys : List ℕ) → take (length xs) (xs ++ ys) ≡ xs
take-append [] ys = refl
take-append (x ∷ xs) ys = ap (◌∷◌ x) (take-append xs ys)

pub length-drop : (n : ℕ) (xs : List ℕ) → length (drop n xs) ≡ length xs - n
length-drop zero xs = omega arith
length-drop (suc n) [] = omega arith
length-drop (suc n) (x ∷ xs) = omega (arith, length-drop n xs)
