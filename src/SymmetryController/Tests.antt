-- ===== src/SymmetryController/Tests.antt =====
-- A controller of one permutation, and the theorems applied to it. The solver's literals are the
-- same numbers.
use mathlib.Core.Bool.{xor}
use sat_symmetry.Prelude.{
  map, ℕ, zero, suc, ◌≡◌, refl, arith, true, ◌&&◌, some, [], ◌∷◌, contains, insert, if◌then◌else◌,
}
use sat_symmetry.Bitset.{
  shl64, one_bit64, bit_pos64, bit_offset64, bit_length64, two_bits_from_pos64, empty, word_at,
  set_word, is_set, are_one_of_two_bits_set, set_bit, resize_to,
}
use sat_symmetry.Literal.{variable, literal, negated}
use sat_symmetry.Assignment.{
  empty_assignment, resize, assignment_of_size, assign_from_true_literal, literal_is_true,
  literal_is_assigned, has_same_assignment_value, both_literals_are_assigned, literal_is_false,
}
use sat_symmetry.Assignment.Laws.{assignment_of_size_lem}
use sat_symmetry.Permutation.{
  new_permutation, add_to_current_cycle, add_all, close_current_cycle, last_element_in_cycle,
  cycle_begin, inverse_of,
}
use sat_symmetry.Order.{
  new_order, increase_order, add, leq, is_minimal_value, is_maximal_value, true_less_false,
}
use sat_symmetry.Order.Laws.{increase_order_lem}
use sat_symmetry.Injector.{Cause, same_cause, new_injector, clauses_of, store}
use sat_symmetry.Injector
use sat_symmetry.ClauseInjector.{
  InjectorType, esbp, new_clause_injector, injector_of, set_injector, add_clause,
}
use sat_symmetry.ClauseInjector.Laws.{waiting, same_type}
use sat_symmetry.Group.{watch}
use sat_symmetry.CosyStatus.{CosyStatus, is_lookup_end, state_of_pair, update_state, notify_loop}
use sat_symmetry.CosyStatus.Lookup.{IsStatus}
use sat_symmetry.CosyStatus
use sat_symmetry.CosyManager.{notify_statuses, inject_after_notify}
use sat_symmetry.CosyManager
use sat_symmetry.CosyManager.Laws.{Ready}
use sat_symmetry.SymmetryController.{
  SymmetryController, update_notify, update_cancel, notify_manager, clause_to_inject,
}
use sat_symmetry.SymmetryController.Laws.{
  CanNotify, Restored, notify_cancel_restores, clause_to_inject_lem,
}
use sat_symmetry.Examples.{
  controlling, controlling_first, controlling_waiting, same, swapping, increasing, at_start,
  swap_group, managing, one_waiting,
}

pub at_start-IsStatus : IsStatus swapping increasing at_start
unfolding new_permutation add_all add_to_current_cycle close_current_cycle last_element_in_cycle
    cycle_begin inverse_of insert increase_order new_order add variable literal negated
at_start-IsStatus = record {
  within = omega arith;
  lookups = (
    record { paired = refl; placed = refl; twin_placed = refl },
    (record { paired = refl; placed = refl; twin_placed = refl }, tt),
  );
}

controlling-Ready :
    (i : ℕ)
    → contains (0 ∷ []) i ≡ true
    → Ready swap_group.permutations increasing 1 managing.statuses i
controlling-Ready zero on = (omega arith, swapping, refl, at_start-IsStatus, tt)
controlling-Ready (suc i) on = absurd (ground arith)

controlling-CanNotify : CanNotify increasing 1 controlling managing (0 ∷ [])
unfolding watch variable assignment_of_size resize resize_to
controlling-CanNotify = record {
  assignment = (assignment_of_size_lem 2).0;
  in_range = omega arith;
  free = (assignment_of_size_lem 2).2 0;
  manager = refl;
  order = (increase_order_lem 2 true_less_false).0;
  placed = refl;
  watched = refl;
  apart = (refl, tt);
  ready = controlling-Ready;
}

pub controlled_first : update_notify same same 1 controlling ≡ some controlling_first
unfolding new_permutation add_all add_to_current_cycle close_current_cycle last_element_in_cycle
    cycle_begin inverse_of insert has_same_assignment_value literal_is_assigned literal_is_true
    are_one_of_two_bits_set two_bits_from_pos64 assignment_of_size resize resize_to
    assign_from_true_literal set_bit set_word is_set word_at one_bit64 bit_pos64 shl64
    empty_assignment empty bit_offset64 bit_length64 xor update_state state_of_pair is_lookup_end
    both_literals_are_assigned leq increase_order new_order add literal negated is_minimal_value
    is_maximal_value literal_is_false CosyStatus.update_notify notify_loop CosyManager.update_notify
    notify_statuses inject_after_notify watch variable update_notify notify_manager
controlled_first = refl

notify_cancel_restores_example :
    (c'' : SymmetryController) × (update_cancel same same 1 controlling_first ≡ some c'')
    × Restored 1 controlling c'' managing
notify_cancel_restores_example =
    notify_cancel_restores same same 1 increasing controlling controlling_first managing (0 ∷ [])
      controlling-CanNotify controlled_first

clause_to_inject_example :
    (c' : SymmetryController) × (clause_to_inject same same esbp 2 controlling_waiting
      ≡ some (map same (3 ∷ 0 ∷ []), c'))
    × ((u : InjectorType) (other : Cause)
        → waiting c'.injector u other ≡ (
            if same_type esbp u && same_cause (some (variable 2)) other
            then []
            else waiting one_waiting u other))
unfolding add_clause set_injector injector_of new_clause_injector new_injector clauses_of store
    variable Injector.add_clause
clause_to_inject_example =
    clause_to_inject_lem same same 2 esbp controlling_waiting (3 ∷ 0 ∷ []) [] refl
