-- ===== src/Literal/Laws.antt =====
-- Literal.h: the two ways to write a literal agree, and negation flips the sign alone.
use sat_symmetry.Prelude.{
  ℕ, zero, suc, ◌+◌, ◌-◌, ◌*◌, ◌/◌, ◌%◌, ◌^◌, ◌≤◌, ◌<◌, ◌≡◌, ◌≢◌, refl, arith, ◌↔◌, Bool, true,
  false, not, some, ◌==◌, if◌then◌else◌, Bool-cases, inl, inr,
}
use sat_symmetry.Prelude.Int.{ℤ, pos, negsuc, ==ℤ}
use sat_symmetry.Bits.Laws.{bit_xor-one, bit_and-one}
use sat_symmetry.Literal.{
  Literal, BooleanVariable, from_signed, literal, variable, is_positive, is_negative, negated,
  signed_value,
}

-- What each function is in arithmetic.
pub negated_lem : (l : Literal) → negated l ≡ l / 2 * 2 + (1 - l % 2)
unfolding negated
negated_lem l = bit_xor-one l

pub variable_lem : (l : Literal) → variable l ≡ l / 2
unfolding variable
variable_lem l = refl

pub is_positive_lem : (l : Literal) → is_positive l ≡ (l % 2 == 0)
unfolding is_positive
is_positive_lem l = rw (bit_and-one l)

pub is_negative-is_positive : (l : Literal) → is_negative l ≡ not (is_positive l)
unfolding is_negative is_positive
is_negative-is_positive l = refl

pub literal_lem : (v : BooleanVariable) (b : Bool) → literal v b ≡ v * 2 + (if b then 0 else 1)
unfolding literal
literal_lem v true = omega arith
literal_lem v false = omega (arith, bit_xor-one (v * 2))

pub signed_value_lem :
    (l : Literal) → signed_value l ≡ (if l % 2 == 0 then pos (l / 2 + 1) else negsuc (l / 2))
unfolding signed_value
signed_value_lem l = rw (bit_and-one l)

pub variable-negated : (l : Literal) → variable (negated l) ≡ variable l
variable-negated l = omega (arith, variable_lem l, variable_lem (negated l), negated_lem l)

pub negated-negated : (l : Literal) → negated (negated l) ≡ l
negated-negated l = omega (arith, negated_lem l, negated_lem (negated l))

pub negated-ne : (l : Literal) → negated l ≢ l
negated-ne l = omega (arith, negated_lem l)

pub is_positive-negated : (l : Literal) → is_positive (negated l) ≡ not (is_positive l)
is_positive-negated l =
    ground (arith, is_positive_lem l, is_positive_lem (negated l), negated_lem l)

pub variable-literal : (v : BooleanVariable) (b : Bool) → variable (literal v b) ≡ v
variable-literal v b = ground (arith, variable_lem (literal v b), literal_lem v b)

pub is_positive-literal : (v : BooleanVariable) (b : Bool) → is_positive (literal v b) ≡ b
is_positive-literal v b = ground (arith, is_positive_lem (literal v b), literal_lem v b)

pub literal-variable : (l : Literal) → literal (variable l) (is_positive l) ≡ l
literal-variable l =
    ground (arith, variable_lem l, is_positive_lem l, literal_lem (variable l) (is_positive l))

pub negated-literal : (v : BooleanVariable) (b : Bool) → negated (literal v b) ≡ literal v (not b)
negated-literal v b =
    ground (arith, negated_lem (literal v b), literal_lem v b, literal_lem v (not b))

-- The two literals of a variable.
pub same_variable_cases : (l m : Literal) → variable l ≡ variable m → m ≢ l → m ≡ negated l
same_variable_cases l m e ne = omega (arith, variable_lem l, variable_lem m, negated_lem l)

-- The constructor gives a literal back from its signed value.
pub from_signed-signed_value : (l : Literal) → from_signed (signed_value l) ≡ some l
unfolding from_signed
from_signed-signed_value l = elim (Bool-cases (l % 2 == 0)) [
  | inl even ↦ rw (signed_value_lem l, even) (ground arith)
  | inr odd ↦ rw (signed_value_lem l, odd) (ground (arith, bit_xor-one (l / 2 * 2)))
]

pub signed_value-ne-zero : (l : Literal) → ==ℤ (signed_value l) (pos 0) ≡ false
unfolding signed_value
signed_value-ne-zero l = ground arith

-- The constructor yields a literal from a number exactly when the number is the signed value of
-- the literal.
pub signed_value-from_signed :
    (v : ℤ) (l : Literal) → (from_signed v ≡ some l) ↔ (signed_value l ≡ v)
unfolding from_signed
signed_value-from_signed (pos zero) l = (λ h. cc, λ h. ground (arith, signed_value_lem l))
signed_value-from_signed (pos (suc n)) l =
    (λ h. ground (arith, signed_value_lem l), λ h. ground (arith, signed_value_lem l))
signed_value-from_signed (negsuc n) l = (
  λ h. ground (arith, signed_value_lem l, bit_xor-one (n * 2)),
  λ h. ground (arith, signed_value_lem l, bit_xor-one (n * 2)),
)

abbrev pub magnitude : ℤ → ℕ
magnitude (pos n) = n
magnitude (negsuc n) = suc n

-- The constructor takes a number of magnitude at most 2 ^ 30 to an index below 2 ^ 31.
pub from_signed_bounds :
    (v : ℤ) (l : Literal) → from_signed v ≡ some l → magnitude v ≤ 2 ^ 30 → l < 2 ^ 31
unfolding from_signed
from_signed_bounds (pos zero) l h b = cc
from_signed_bounds (pos (suc n)) l h b = ground arith
from_signed_bounds (negsuc n) l h b = ground (arith, bit_xor-one (n * 2))
