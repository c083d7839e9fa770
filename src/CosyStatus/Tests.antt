-- ===== src/CosyStatus/Tests.antt =====
-- CosyStatus on two variables: runs, and the theorems applied to them.
use mathlib.Core.Bool.{xor}
use sat_symmetry.Prelude.{
  inr, none, zero, suc, ◌≤◌, ◌≡◌, ◌⊎◌, refl, arith, true, false, some, List, [], ◌∷◌, All,
  if◌then◌else◌, ◌==◌, insert,
}
use sat_symmetry.Bitset.{
  shl64, one_bit64, bit_pos64, bit_offset64, bit_length64, two_bits_from_pos64, empty, word_at,
  set_word, is_set, are_one_of_two_bits_set, set_bit, resize_to,
}
use sat_symmetry.Literal.{Literal, literal, variable, negated, is_positive}
use sat_symmetry.Assignment.{
  IsAssignment, valuation, empty_assignment, resize, assignment_of_size, assign_from_true_literal,
  literal_is_true, literal_is_false, literal_is_assigned, is_assigned, has_same_assignment_value,
  both_literals_are_assigned, get_false_literal_for_assigned_variable,
}
use sat_symmetry.Assignment.Laws.{assignment_of_size_lem, assign-IsAssignment}
use sat_symmetry.Permutation.{
  new_permutation, add_to_current_cycle, add_all, close_current_cycle, last_element_in_cycle,
  cycle_begin, inverse_of,
}
use sat_symmetry.Order.{new_order, increase_order, add, leq, is_minimal_value, true_less_false}
use sat_symmetry.Order.Laws.{IsOrder, increase_order_lem, minimal_truth}
use sat_symmetry.CosyStatus.{
  CosyStatus, is_lookup_end, state_of_pair, update_state, update_notify, notify_loop, push_pairs,
  esbp_clause,
}
use sat_symmetry.CosyStatus.Lookup.{agree_at, Agreed, IsStatus, Total, truth, permuted, LexLess}
use sat_symmetry.CosyStatus.Notify.{update_notify_moves}
use sat_symmetry.ClauseInjector.{ClauseInjector, units, new_clause_injector}
use sat_symmetry.ClauseInjector.Laws.{waiting}
use sat_symmetry.CosyStatus.{active, generate_unit_clause_on_inverting}
use sat_symmetry.CosyStatus.Esbp.{HasOther}
use sat_symmetry.CosyStatus.Sound.{
  reducer_conflict, esbp_clause_sound, esbp_clause_late, unit_clause_sound,
}
use sat_symmetry.Examples.{
  swapping, negating, increasing, no_values, first_false, false_true, at_start, at_reducer,
  only_negated, rotating, increasing_three, outer_false, false_true_false, after_first,
  after_first_reducer,
}

increasing-IsOrder : IsOrder increasing
increasing-IsOrder = (increase_order_lem 2 true_less_false).0

no_values-IsAssignment : IsAssignment no_values
no_values-IsAssignment = (assignment_of_size_lem 2).0

first_false-IsAssignment : IsAssignment first_false
unfolding assignment_of_size resize resize_to variable
first_false-IsAssignment =
    assign-IsAssignment no_values no_values-IsAssignment 1 (omega arith)
      ((assignment_of_size_lem 2).2 0)

false_true-IsAssignment : IsAssignment false_true
unfolding assignment_of_size resize resize_to variable assign_from_true_literal set_bit set_word
    valuation is_set word_at one_bit64 bit_pos64 shl64 empty_assignment empty bit_offset64
    bit_length64
false_true-IsAssignment =
    assign-IsAssignment first_false first_false-IsAssignment 2 (omega arith) refl

at_start-IsStatus : IsStatus swapping increasing at_start
unfolding new_permutation add_all add_to_current_cycle close_current_cycle last_element_in_cycle
    cycle_begin inverse_of insert increase_order new_order add variable literal negated
at_start-IsStatus = record {
  within = omega arith;
  lookups = (
    record { paired = refl; placed = refl; twin_placed = refl },
    (record { paired = refl; placed = refl; twin_placed = refl }, tt),
  );
}

at_start-Agreed : Agreed swapping false_true at_start
at_start-Agreed i lt = absurd (omega arith)

differs_at_start : agree_at swapping false_true at_start 0 ≡ false
unfolding new_permutation add_all add_to_current_cycle close_current_cycle last_element_in_cycle
    cycle_begin inverse_of insert has_same_assignment_value literal_is_assigned literal_is_true
    are_one_of_two_bits_set two_bits_from_pos64 assignment_of_size resize resize_to
    assign_from_true_literal set_bit set_word is_set word_at one_bit64 bit_pos64 shl64
    empty_assignment empty bit_offset64 bit_length64 xor
differs_at_start = refl

reducer_at_start : update_state swapping increasing false_true at_start ≡ some at_reducer
unfolding new_permutation add_all add_to_current_cycle close_current_cycle last_element_in_cycle
    cycle_begin inverse_of insert has_same_assignment_value literal_is_assigned literal_is_true
    are_one_of_two_bits_set two_bits_from_pos64 assignment_of_size resize resize_to
    assign_from_true_literal set_bit set_word is_set word_at one_bit64 bit_pos64 shl64
    empty_assignment empty bit_offset64 bit_length64 xor update_state state_of_pair is_lookup_end
    both_literals_are_assigned leq increase_order new_order add literal negated is_minimal_value
    literal_is_false
reducer_at_start = refl

clause_at_start : esbp_clause swapping false_true 0 at_start ≡ some (3 ∷ 0 ∷ [])
unfolding new_permutation add_all add_to_current_cycle close_current_cycle last_element_in_cycle
    cycle_begin inverse_of insert assignment_of_size resize resize_to assign_from_true_literal
    set_bit set_word is_set word_at one_bit64 bit_pos64 shl64 empty_assignment empty bit_offset64
    bit_length64 literal variable esbp_clause push_pairs get_false_literal_for_assigned_variable
clause_at_start = refl

-- The assert that there are two literals fails.
one_literal : esbp_clause negating first_false 0 only_negated ≡ none
unfolding new_permutation add_all add_to_current_cycle close_current_cycle last_element_in_cycle
    cycle_begin inverse_of insert assignment_of_size resize resize_to assign_from_true_literal
    set_bit set_word is_set word_at one_bit64 bit_pos64 shl64 empty_assignment empty bit_offset64
    bit_length64 literal variable negated esbp_clause push_pairs
    get_false_literal_for_assigned_variable
one_literal = refl

first_is_assigned : is_assigned (valuation false_true 0) ≡ true
unfolding assignment_of_size resize resize_to valuation assign_from_true_literal set_bit set_word
    is_set word_at one_bit64 bit_pos64 shl64 empty_assignment empty bit_offset64 bit_length64
first_is_assigned = refl

only_second : Total
only_second v = if v == 1 then true else false

falsified_at_start : All (λ m. truth only_second m ≡ false) (3 ∷ 0 ∷ [])
unfolding xor variable is_positive only_second
falsified_at_start = (refl, (refl, tt))

-- The first pair is that of the variables 0 and 1.
second_differs : HasOther swapping at_start 0 0
unfolding new_permutation add_all add_to_current_cycle close_current_cycle last_element_in_cycle
    cycle_begin inverse_of insert variable
second_differs = inr (omega arith)

reducer_conflict_example :
    (clause : List Literal) × (esbp_clause swapping false_true 0 at_start ≡ some clause)
    × All (λ m. literal_is_false false_true m ≡ true) clause
reducer_conflict_example =
    reducer_conflict swapping increasing false_true at_start at_reducer 0 increasing-IsOrder
      false_true-IsAssignment at_start-IsStatus at_start-Agreed reducer_at_start refl
      first_is_assigned 0 (omega arith) second_differs

esbp_clause_sound_example :
    LexLess
      (minimal_truth increasing.value_mode)
      (0 ∷ 2 ∷ [])
      (permuted swapping only_second)
      (truth only_second)
unfolding increase_order new_order add literal new_permutation add_all add_to_current_cycle
    close_current_cycle last_element_in_cycle cycle_begin inverse_of insert variable negated
esbp_clause_sound_example =
    esbp_clause_sound swapping increasing false_true at_start at_reducer 0 (3 ∷ 0 ∷ []) only_second
      increasing-IsOrder false_true-IsAssignment at_start-IsStatus at_start-Agreed differs_at_start
      reducer_at_start refl refl clause_at_start falsified_at_start

-- The status of a permutation that maps a variable to its negation.
abbrev at_inverting : CosyStatus
at_inverting = record { lookup_index = 0; lookup_order = 0 ∷ []; lookup_infos = []; state = active }

unit_clause_sound_example :
    (injector : ClauseInjector) × (clause : List Literal) × (generate_unit_clause_on_inverting
        negating increasing at_inverting new_clause_injector
      ≡ some injector)
    × (waiting injector units none ≡ clause ∷ waiting new_clause_injector units none)
    × ((β : Total)
        → All (λ m. truth β m ≡ false) clause
        → LexLess
            (minimal_truth increasing.value_mode)
            at_inverting.lookup_order
            (permuted negating β)
            (truth β))
unfolding new_permutation add_all add_to_current_cycle is_positive close_current_cycle
    last_element_in_cycle cycle_begin inverse_of insert negated
unit_clause_sound_example =
    unit_clause_sound negating increasing at_inverting 0 [] new_clause_injector refl refl refl refl

update_notify_moves_example :
    (s' : CosyStatus) × (update_notify swapping increasing false_true 2 at_start ≡ some s')
    × IsStatus swapping increasing s'
    × Agreed swapping false_true s'
    × (0 ≤ s'.lookup_index)
    × (s'.lookup_order ≡ 0 ∷ 2 ∷ [])
    × ((is_lookup_end s' ≡ true) ⊎ (agree_at swapping false_true s' s'.lookup_index ≡ false))
update_notify_moves_example =
    update_notify_moves swapping increasing false_true 2 at_start increasing-IsOrder
      at_start-IsStatus at_start-Agreed

notified_at_start : update_notify swapping increasing false_true 2 at_start ≡ some at_reducer
unfolding new_permutation add_all add_to_current_cycle close_current_cycle last_element_in_cycle
    cycle_begin inverse_of insert has_same_assignment_value literal_is_assigned literal_is_true
    are_one_of_two_bits_set two_bits_from_pos64 assignment_of_size resize resize_to
    assign_from_true_literal set_bit set_word is_set word_at one_bit64 bit_pos64 shl64
    empty_assignment empty bit_offset64 bit_length64 xor update_state state_of_pair is_lookup_end
    both_literals_are_assigned leq increase_order new_order add literal negated is_minimal_value
    literal_is_false update_notify notify_loop
notified_at_start = refl

increasing_three-IsOrder : IsOrder increasing_three
increasing_three-IsOrder = (increase_order_lem 3 true_less_false).0

false_true_false-IsAssignment : IsAssignment false_true_false
unfolding assignment_of_size resize resize_to variable assign_from_true_literal set_bit set_word
    valuation is_set word_at one_bit64 bit_pos64 shl64 empty_assignment empty bit_offset64
    bit_length64
false_true_false-IsAssignment =
    assign-IsAssignment outer_false
      (assign-IsAssignment (assign_from_true_literal 1 (assignment_of_size 3))
        (assign-IsAssignment (assignment_of_size 3) (assignment_of_size_lem 3).0 1 (omega arith)
          ((assignment_of_size_lem 3).2 0))
        5 (omega arith) refl)
      2 (omega arith) refl

after_first-IsStatus : IsStatus rotating increasing_three after_first
unfolding new_permutation add_all add_to_current_cycle close_current_cycle last_element_in_cycle
    cycle_begin inverse_of insert increase_order new_order add variable literal negated
after_first-IsStatus = record {
  within = omega arith;
  lookups = (
    record { paired = refl; placed = refl; twin_placed = refl },
    (
      record { paired = refl; placed = refl; twin_placed = refl },
      (record { paired = refl; placed = refl; twin_placed = refl }, tt),
    ),
  );
}

after_first-Agreed : Agreed rotating false_true_false after_first
unfolding new_permutation add_all add_to_current_cycle close_current_cycle last_element_in_cycle
    cycle_begin inverse_of insert has_same_assignment_value literal_is_assigned literal_is_true
    are_one_of_two_bits_set two_bits_from_pos64 assignment_of_size resize resize_to
    assign_from_true_literal set_bit set_word is_set word_at one_bit64 bit_pos64 shl64
    empty_assignment empty bit_offset64 bit_length64 xor update_state state_of_pair is_lookup_end
    both_literals_are_assigned leq increase_order new_order add literal negated is_minimal_value
    literal_is_false
after_first-Agreed zero lt = refl
after_first-Agreed (suc i) lt = absurd (omega arith)

differs_after_first : agree_at rotating false_true_false after_first 1 ≡ false
unfolding new_permutation add_all add_to_current_cycle close_current_cycle last_element_in_cycle
    cycle_begin inverse_of insert has_same_assignment_value literal_is_assigned literal_is_true
    are_one_of_two_bits_set two_bits_from_pos64 assignment_of_size resize resize_to
    assign_from_true_literal set_bit set_word is_set word_at one_bit64 bit_pos64 shl64
    empty_assignment empty bit_offset64 bit_length64 xor update_state state_of_pair is_lookup_end
    both_literals_are_assigned leq increase_order new_order add literal negated is_minimal_value
    literal_is_false
differs_after_first = refl

reducer_after_first :
    update_state rotating increasing_three false_true_false after_first ≡ some after_first_reducer
unfolding new_permutation add_all add_to_current_cycle close_current_cycle last_element_in_cycle
    cycle_begin inverse_of insert has_same_assignment_value literal_is_assigned literal_is_true
    are_one_of_two_bits_set two_bits_from_pos64 assignment_of_size resize resize_to
    assign_from_true_literal set_bit set_word is_set word_at one_bit64 bit_pos64 shl64
    empty_assignment empty bit_offset64 bit_length64 xor update_state state_of_pair is_lookup_end
    both_literals_are_assigned leq increase_order new_order add literal negated is_minimal_value
    literal_is_false
reducer_after_first = refl

clause_after_first : esbp_clause rotating false_true_false 1 after_first ≡ some (0 ∷ 3 ∷ 4 ∷ [])
unfolding new_permutation add_all add_to_current_cycle close_current_cycle last_element_in_cycle
    cycle_begin inverse_of insert has_same_assignment_value literal_is_assigned literal_is_true
    are_one_of_two_bits_set two_bits_from_pos64 assignment_of_size resize resize_to
    assign_from_true_literal set_bit set_word is_set word_at one_bit64 bit_pos64 shl64
    empty_assignment empty bit_offset64 bit_length64 xor update_state state_of_pair is_lookup_end
    both_literals_are_assigned leq increase_order new_order add literal negated is_minimal_value
    literal_is_false variable esbp_clause push_pairs get_false_literal_for_assigned_variable
clause_after_first = refl

falsified_after_first : All (λ m. truth only_second m ≡ false) (0 ∷ 3 ∷ 4 ∷ [])
unfolding xor variable is_positive only_second
falsified_after_first = (refl, (refl, (refl, tt)))

esbp_clause_late_example :
    LexLess
      (minimal_truth increasing_three.value_mode)
      (0 ∷ 2 ∷ 4 ∷ [])
      (truth only_second)
      (permuted rotating only_second)
unfolding increase_order new_order add literal new_permutation add_all add_to_current_cycle
    close_current_cycle last_element_in_cycle cycle_begin inverse_of insert variable negated
esbp_clause_late_example =
    esbp_clause_late rotating increasing_three false_true_false after_first after_first_reducer 1
      (0 ∷ 3 ∷ 4 ∷ []) only_second increasing_three-IsOrder false_true_false-IsAssignment
      after_first-IsStatus after_first-Agreed differs_after_first reducer_after_first refl refl
      clause_after_first falsified_after_first
