-- ===== src/Assignment/Laws.antt =====
-- Assignment.h refines a partial function from variables to truth values.
use mathlib.Core.Bool.{xor}
use sat_symmetry.Prelude.{
  ℕ, ◌+◌, ◌*◌, ◌/◌, ◌%◌, ◌<◌, ◌≡◌, arith, ◌∙◌, Bool, false, not, ◌==◌, if◌then◌else◌,
  get_or-resize_nil, none, some,
}
use sat_symmetry.Literal.{Literal, BooleanVariable, literal, variable, is_positive, negated}
use sat_symmetry.Literal.Laws.{variable_lem, is_positive_lem, negated_lem}
use sat_symmetry.Bitset.{
  IsBitset64, is_set, set_bit, set_word, clear_two_bits, resize_to, empty, word_at,
}
use sat_symmetry.Bitset.Access.{are_one_of_two_bits_set_lem, is_set_lem}
use sat_symmetry.Bitset.Laws.{
  set_bit-IsBitset64, clear_two_bits-IsBitset64, is_set-set_bit, is_set-clear_two_bits,
  resize_to-IsBitset64,
}
use sat_symmetry.Bits.Laws.{bit-zero}
use sat_symmetry.Assignment.{
  Assignment, IsAssignment, valuation, assignment_of_size, assign_from_true_literal,
  unassign_literal, literal_is_true, literal_is_false, literal_is_assigned, variable_is_assigned,
  has_same_assignment_value, get_true_literal_for_assigned_variable,
  get_false_literal_for_assigned_variable, number_of_variables, is_assigned, holds, literal_value,
  same_value,
}

-- The two bits of the variable of `l`, as the functions find them.
literal_bits :
    (l : Literal)
    → (l ≡ variable l * 2 + (if is_positive l then 0 else 1))
      × (negated l ≡ variable l * 2 + (if is_positive l then 1 else 0))
literal_bits l = ground (arith, variable_lem l, is_positive_lem l, negated_lem l)

module _ (a : Assignment) (h : IsAssignment a) where
  -- Each query is a question about the view.
  pub literal_is_true_lem :
      (l : Literal) → literal_is_true a l ≡ holds (valuation a (variable l)) (is_positive l)
  unfolding literal_is_true valuation xor
  literal_is_true_lem l = ground (arith, literal_bits l, h.consistent (variable l))

  pub literal_is_false_lem :
      (l : Literal) → literal_is_false a l ≡ holds (valuation a (variable l)) (not (is_positive l))
  unfolding literal_is_false valuation xor
  literal_is_false_lem l = ground (arith, literal_bits l, h.consistent (variable l))

  pub variable_is_assigned_lem :
      (v : BooleanVariable) → variable_is_assigned a v ≡ is_assigned (valuation a v)
  unfolding variable_is_assigned valuation
  variable_is_assigned_lem v =
      let half : v * 2 / 2 ≡ v = omega arith in
      ground (arith, are_one_of_two_bits_set_lem a.assignment (v * 2) h.bitset)

  pub literal_is_assigned_lem :
      (l : Literal) → literal_is_assigned a l ≡ is_assigned (valuation a (variable l))
  unfolding literal_is_assigned valuation
  literal_is_assigned_lem l =
      ground (arith, variable_lem l, are_one_of_two_bits_set_lem a.assignment l h.bitset)

  -- In a well-formed assignment has_same_assignment_value is true exactly when both literals have
  -- a value and the values are equal.
  pub has_same_assignment_value_lem :
      (x y : Literal)
      → has_same_assignment_value a x y
        ≡ same_value (literal_value (valuation a) x) (literal_value (valuation a) y)
  unfolding has_same_assignment_value xor
  has_same_assignment_value_lem x y = ground (
    arith,
    literal_is_assigned_lem x,
    literal_is_assigned_lem y,
    literal_is_true_lem x,
    literal_is_true_lem y,
  )

  -- A variable that is assigned has the value of the literal that is returned for it.
  pub get_true_literal_lem :
      (v : BooleanVariable) (b : Bool)
      → valuation a v ≡ some b
      → get_true_literal_for_assigned_variable a v ≡ literal v b
  unfolding get_true_literal_for_assigned_variable valuation
  get_true_literal_lem v b e = ground arith

  pub get_false_literal_lem :
      (v : BooleanVariable) (b : Bool)
      → valuation a v ≡ some b
      → get_false_literal_for_assigned_variable a v ≡ literal v (not b)
  unfolding get_false_literal_for_assigned_variable valuation
  get_false_literal_lem v b e = ground arith

  -- Assigning a literal in range of an unassigned variable sets its variable to its sign, and
  -- leaves every other variable.
  pub valuation-assign :
      (l : Literal) (v : BooleanVariable)
      → l < a.assignment.size
      → valuation a (variable l) ≡ none
      → valuation (assign_from_true_literal l a) v
        ≡ (if variable l == v then some (is_positive l) else valuation a v)
  unfolding valuation assign_from_true_literal
  valuation-assign l v lt free = ground (
    arith,
    literal_bits l,
    is_set-set_bit a.assignment h.bitset l (v * 2) lt,
    is_set-set_bit a.assignment h.bitset l (v * 2 + 1) lt,
  )

  -- Assigning a literal in range of an unassigned variable keeps the assignment well formed: no
  -- variable is both true and false.
  pub assign-IsAssignment :
      (l : Literal)
      → l < a.assignment.size
      → valuation a (variable l) ≡ none
      → IsAssignment (assign_from_true_literal l a)
  unfolding valuation assign_from_true_literal
  assign-IsAssignment l lt free = record {
    bitset = set_bit-IsBitset64 a.assignment h.bitset l;
    even_size = unfold set_bit set_word in h.even_size;
    consistent = λ v on. ground (
      arith,
      literal_bits l,
      h.consistent v,
      is_set-set_bit a.assignment h.bitset l (v * 2) lt,
      is_set-set_bit a.assignment h.bitset l (v * 2 + 1) lt,
    );
  }

  -- Unassigning a literal in range takes the value of its variable away, and leaves every other
  -- variable.
  pub valuation-unassign :
      (l : Literal) (v : BooleanVariable)
      → l < a.assignment.size
      → valuation (unassign_literal l a) v ≡ (if variable l == v then none else valuation a v)
  unfolding valuation unassign_literal
  valuation-unassign l v lt = ground (
    arith,
    variable_lem l,
    is_set-clear_two_bits a.assignment h.bitset l (v * 2) lt,
    is_set-clear_two_bits a.assignment h.bitset l (v * 2 + 1) lt,
  )

  pub unassign-IsAssignment :
      (l : Literal) → l < a.assignment.size → IsAssignment (unassign_literal l a)
  unfolding unassign_literal
  unassign-IsAssignment l lt = record {
    bitset = clear_two_bits-IsBitset64 a.assignment h.bitset l;
    even_size = unfold clear_two_bits set_word in h.even_size;
    consistent = λ v on. ground (
      arith,
      variable_lem l,
      h.consistent v,
      is_set-clear_two_bits a.assignment h.bitset l (v * 2) lt,
      is_set-clear_two_bits a.assignment h.bitset l (v * 2 + 1) lt,
    );
  }

empty-IsBitset64 : IsBitset64 empty
unfolding empty
empty-IsBitset64 = record { fits = tt; enough = omega arith }

is_set-fresh : (n j : ℕ) → is_set (resize_to empty n) j ≡ false
is_set-fresh n j =
    is_set_lem (resize_to empty n) j (resize_to-IsBitset64 empty n empty-IsBitset64)
    ∙ rw (no_word, bit-zero (j % 64))
  where
    no_word : word_at (resize_to empty n) j ≡ 0
    no_word = unfold word_at resize_to empty in get_or-resize_nil ((n + 63) / 64) 0 (j / 64)

-- A new assignment is well formed, has the number of variables that was asked for, and no value
-- for any variable.
pub assignment_of_size_lem :
    (n : ℕ)
    → IsAssignment (assignment_of_size n)
      × (number_of_variables (assignment_of_size n) ≡ n)
      × ((v : BooleanVariable) → valuation (assignment_of_size n) v ≡ none)
unfolding assignment_of_size number_of_variables valuation
assignment_of_size_lem n = (
  record {
    bitset = resize_to-IsBitset64 empty (n * 2) empty-IsBitset64;
    even_size = unfold resize_to in omega arith;
    consistent = λ v on. is_set-fresh (n * 2) (v * 2 + 1);
  },
  unfold resize_to in omega arith,
  λ v. rw (is_set-fresh (n * 2) (v * 2), is_set-fresh (n * 2) (v * 2 + 1)),
)
