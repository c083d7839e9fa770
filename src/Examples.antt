-- ===== src/Examples.antt =====
-- Concrete data for the tests: two variables, a permutation that swaps them and one that negates
-- the first, the increasing order, and an assignment of both variables. The literals 0, 1 are
-- those of variable 0, the literals 2, 3 those of variable 1; the even ones are positive.
use sat_symmetry.Prelude.{List, [], ◌∷◌, some}
use sat_symmetry.Literal.{Literal}
use sat_symmetry.Assignment.{
  unassign_literal, Assignment, assignment_of_size, assign_from_true_literal,
}
use sat_symmetry.Permutation.{Permutation, new_permutation}
use sat_symmetry.Permutation.Cycles.{add_cycles}
use sat_symmetry.Order.{Order, increase_order, true_less_false}
use sat_symmetry.ClauseInjector.{
  remove_clause, ClauseInjector, new_clause_injector, esbp, add_clause,
}
use sat_symmetry.Group.{Group}
use sat_symmetry.CosyStatus.{CosyStatus, active, reducer, force_lex_leader}
use sat_symmetry.SymmetryController.{SymmetryController}
use sat_symmetry.CosyManager.{CosyManager}

abbrev pub swap_cycles : List (List Literal)
swap_cycles = (0 ∷ 2 ∷ []) ∷ (1 ∷ 3 ∷ []) ∷ []

abbrev pub swapping : Permutation
swapping = add_cycles swap_cycles (new_permutation 2)

abbrev pub negating : Permutation
negating = add_cycles ((0 ∷ 1 ∷ []) ∷ []) (new_permutation 2)

abbrev pub increasing : Order
increasing = increase_order 2 true_less_false

abbrev pub no_values : Assignment
no_values = assignment_of_size 2

-- Variable 0 is false.
abbrev pub first_false : Assignment
first_false = assign_from_true_literal 1 no_values

-- Variable 0 is false, and variable 1 is true.
abbrev pub false_true : Assignment
false_true = assign_from_true_literal 2 first_false

abbrev pub at_start : CosyStatus
at_start = record { lookup_index = 0; lookup_order = 0 ∷ 2 ∷ []; lookup_infos = []; state = active }

abbrev pub at_reducer : CosyStatus
at_reducer = record at_start { state = reducer }

abbrev pub only_negated : CosyStatus
only_negated = record at_start { lookup_order = 0 ∷ [] }

abbrev pub swap_group : Group
swap_group = record {
  permutations = swapping ∷ [];
  symmetric = 0 ∷ 1 ∷ [];
  inverting = [];
  watchers = (0 ∷ []) ∷ (0 ∷ []) ∷ [];
}

abbrev pub managing : CosyManager
managing = record { order = some increasing; statuses = at_start ∷ [] }

abbrev pub one_waiting : ClauseInjector
one_waiting = add_clause esbp (some 1) (3 ∷ 0 ∷ []) new_clause_injector

-- A cycle of three variables; variables 0 and 2 are false, and variable 1 is true.
abbrev pub rotating : Permutation
rotating = add_cycles ((0 ∷ 2 ∷ 4 ∷ []) ∷ (1 ∷ 3 ∷ 5 ∷ []) ∷ []) (new_permutation 3)

abbrev pub increasing_three : Order
increasing_three = increase_order 3 true_less_false

abbrev pub outer_false : Assignment
outer_false = assign_from_true_literal 5 (assign_from_true_literal 1 (assignment_of_size 3))

abbrev pub false_true_false : Assignment
false_true_false = assign_from_true_literal 2 outer_false

abbrev pub after_first : CosyStatus
after_first = record {
  lookup_index = 1;
  lookup_order = 0 ∷ 2 ∷ 4 ∷ [];
  lookup_infos = [];
  state = active;
}

abbrev pub after_first_reducer : CosyStatus
after_first_reducer = record after_first { state = reducer }

-- The manager after the notification that variable 0 is false.
abbrev pub managing_first : CosyManager
managing_first = record {
  order = some increasing;
  statuses = record at_start { state = force_lex_leader } ∷ [];
}

-- The manager after the notification that variable 1 is true as well.
abbrev pub managing_reducer : CosyManager
managing_reducer = record { order = some increasing; statuses = at_reducer ∷ [] }

abbrev pub controlling : SymmetryController
controlling = record {
  num_vars = 2;
  group = swap_group;
  occurences = 1 ∷ 1 ∷ [];
  assignment = no_values;
  injector = new_clause_injector;
  cosy_manager = some managing;
}

abbrev pub controlling_first : SymmetryController
controlling_first = record controlling {
  assignment = first_false;
  cosy_manager = some managing_first;
}

abbrev pub controlling_waiting : SymmetryController
controlling_waiting = record controlling { injector = one_waiting }

abbrev pub same : Literal → Literal
same l = l

-- Both variables have values, and the pair differs: a clause waits for variable 1.
abbrev pub controlling_conflict : SymmetryController
controlling_conflict = record controlling {
  assignment = false_true;
  cosy_manager = some managing_reducer;
  injector = add_clause esbp (some 1) (0 ∷ 3 ∷ []) new_clause_injector;
}

-- The first literal is notified and cancelled.
abbrev pub controlling_back : SymmetryController
controlling_back = record controlling_first {
  assignment = unassign_literal 1 first_false;
  injector = remove_clause (some 0) new_clause_injector;
}
