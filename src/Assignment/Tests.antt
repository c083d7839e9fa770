-- ===== src/Assignment/Tests.antt =====
-- Assignments of two variables, and the theorems applied to them.
use sat_symmetry.Prelude.{◌≡◌, arith, some, ◌==◌, if◌then◌else◌}
use sat_symmetry.Bitset.{resize_to}
use sat_symmetry.Literal.{variable, is_positive}
use sat_symmetry.Assignment.{
  IsAssignment, valuation, assignment_of_size, resize, assign_from_true_literal,
}
use sat_symmetry.Assignment.Laws.{assignment_of_size_lem, valuation-assign}
use sat_symmetry.Examples.{no_values}

no_values-IsAssignment : IsAssignment no_values
no_values-IsAssignment = (assignment_of_size_lem 2).0

valuation-assign_example :
    valuation (assign_from_true_literal 1 no_values) 0
    ≡ (if variable 1 == 0 then some (is_positive 1) else valuation no_values 0)
unfolding assignment_of_size resize resize_to variable
valuation-assign_example =
    valuation-assign no_values no_values-IsAssignment 1 0 (omega arith)
      ((assignment_of_size_lem 2).2 0)
