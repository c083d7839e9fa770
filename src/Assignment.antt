-- ===== src/Assignment.antt =====
-- include/cosy/Assignment.h: the partial assignment of a solver, as a set of true literals.
-- The asserts of the source are hypotheses of the theorems.
pub mod Laws
pub mod Tests
use mathlib.Core.Bool.{xor}
use sat_symmetry.Prelude.{
  ℕ, ◌+◌, ◌*◌, ◌/◌, ◌<◌, ◌≡◌, Bool, true, false, not, ◌&&◌, Option, none, some, if◌then◌else◌,
}
use sat_symmetry.Literal.{Literal, BooleanVariable, literal, variable, is_positive, negated}
use sat_symmetry.Bitset.{
  Bitset64, IsBitset64, empty, resize_to, set_bit, clear_two_bits, is_set, are_one_of_two_bits_set,
}

pub record Assignment : Type 0 where
  pub assignment : Bitset64

unfoldable pub empty_assignment : Assignment
empty_assignment = record { assignment = empty }

unfoldable pub resize : ℕ → Assignment → Assignment
resize num_variables a = record { assignment = resize_to a.assignment (num_variables * 2) }

-- `Assignment(unsigned int num_variables)`
unfoldable pub assignment_of_size : ℕ → Assignment
unfolding empty_assignment resize
assignment_of_size num_variables = resize num_variables empty_assignment

unfoldable pub assign_from_true_literal : Literal → Assignment → Assignment
assign_from_true_literal l a = record { assignment = set_bit a.assignment l }

unfoldable pub unassign_literal : Literal → Assignment → Assignment
unassign_literal l a = record { assignment = clear_two_bits a.assignment l }

unfoldable pub literal_is_true : Assignment → Literal → Bool
literal_is_true a l = is_set a.assignment l

unfoldable pub literal_is_false : Assignment → Literal → Bool
literal_is_false a l = is_set a.assignment (negated l)

unfoldable pub literal_is_assigned : Assignment → Literal → Bool
literal_is_assigned a l = are_one_of_two_bits_set a.assignment l

unfoldable pub variable_is_assigned : Assignment → BooleanVariable → Bool
variable_is_assigned a v = are_one_of_two_bits_set a.assignment (v * 2)

unfoldable pub has_same_assignment_value : Assignment → Literal → Literal → Bool
has_same_assignment_value a x y =
    (literal_is_assigned a x && literal_is_assigned a y)
    && not (xor (literal_is_true a x) (literal_is_true a y))

unfoldable pub both_literals_are_assigned : Assignment → Literal → Literal → Bool
both_literals_are_assigned a x y = literal_is_assigned a x && literal_is_assigned a y

unfoldable pub get_true_literal_for_assigned_variable : Assignment → BooleanVariable → Literal
get_true_literal_for_assigned_variable a v = literal v (is_set a.assignment (v * 2))

unfoldable pub get_false_literal_for_assigned_variable : Assignment → BooleanVariable → Literal
get_false_literal_for_assigned_variable a v = literal v (not (is_set a.assignment (v * 2)))

unfoldable pub number_of_variables : Assignment → ℕ
number_of_variables a = a.assignment.size / 2

-- The abstract view: the value of each variable.
abbrev pub Valuation : Type 0
Valuation = BooleanVariable → Option Bool

unfoldable pub valuation : Assignment → Valuation
valuation a v =
    if is_set a.assignment (v * 2)
    then some true
    else if is_set a.assignment (v * 2 + 1)
    then some false
    else none

-- A value that is there, and agrees with a sign.
abbrev pub is_assigned : Option Bool → Bool
is_assigned none = false
is_assigned (some b) = true

abbrev pub holds : Option Bool → Bool → Bool
holds none sign = false
holds (some b) sign = not (xor b sign)

-- The value of a literal of that sign.
abbrev pub signed : Bool → Option Bool → Option Bool
signed sign none = none
signed sign (some b) = some (not (xor b sign))

abbrev pub literal_value : Valuation → Literal → Option Bool
literal_value val l = signed (is_positive l) (val (variable l))

-- Two values that are there and equal.
abbrev pub same_value : Option Bool → Option Bool → Bool
same_value none _ = false
same_value (some b) none = false
same_value (some b) (some c) = not (xor b c)

-- No variable is both true and false.
pub record IsAssignment (a : Assignment) : Type 0 where
  pub bitset : IsBitset64 a.assignment
  pub even_size : a.assignment.size ≡ a.assignment.size / 2 * 2
  pub consistent :
      (v : BooleanVariable)
      → is_set a.assignment (v * 2) ≡ true
      → is_set a.assignment (v * 2 + 1) ≡ false
