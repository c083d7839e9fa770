-- ===== src/SymmetryController/Run/Tests.antt =====
-- A run of two notifications that ends in a conflict, and the theorems applied to it.
use mathlib.Core.Bool.{xor}
use sat_symmetry.Prelude.{
  none, ◌<◌, All, length, ℕ, zero, suc, ◌≡◌, refl, arith, some, [], ◌∷◌, insert, get_elem?, inl,
}
use sat_symmetry.Bitset.{
  shl64, one_bit64, bit_pos64, bit_offset64, bit_length64, two_bits_from_pos64, empty, word_at,
  set_word, is_set, are_one_of_two_bits_set, set_bit, resize_to,
}
use sat_symmetry.Literal.{BooleanVariable, Literal, variable, literal, negated}
use sat_symmetry.Assignment.{
  valuation, get_false_literal_for_assigned_variable, empty_assignment, resize, assignment_of_size,
  assign_from_true_literal, literal_is_true, literal_is_assigned, has_same_assignment_value,
  both_literals_are_assigned, literal_is_false,
}
use sat_symmetry.Assignment.Laws.{assignment_of_size_lem}
use sat_symmetry.Permutation.{
  new_permutation, add_to_current_cycle, add_all, close_current_cycle, last_element_in_cycle,
  cycle_begin, inverse_of,
}
use sat_symmetry.Order.{
  new_order, increase_order, add, leq, is_minimal_value, is_maximal_value, true_less_false,
}
use sat_symmetry.Order.Laws.{increase_order_lem}
use sat_symmetry.Injector.{new_injector, clauses_of}
use sat_symmetry.ClauseInjector.{esbp, new_clause_injector, injector_of}
use sat_symmetry.ClauseInjector.Laws.{waiting}
use sat_symmetry.Group.{watch}
use sat_symmetry.CosyStatus.{
  generate_esbp, CosyStatus, is_lookup_end, state_of_pair, update_state, notify_loop,
}
use sat_symmetry.CosyStatus
use sat_symmetry.CosyManager.{notify_statuses, inject_after_notify}
use sat_symmetry.CosyManager
use sat_symmetry.SymmetryController.{
  SymmetryController, update_notify, update_cancel, notify_manager,
}
use sat_symmetry.CosyManager.{cancel_statuses, CosyManager}
use sat_symmetry.CosyManager.Total.{FirstHasOther}
use sat_symmetry.Permutation.{Permutation}
use sat_symmetry.CosyManager.Walk.{status, some_injective}
use sat_symmetry.Order.{increase}
use sat_symmetry.Orbits.{Classes}
use sat_symmetry.OrderFactory.{create}
use sat_symmetry.Group.{number_of_permutations}
use sat_symmetry.Group.Laws.{get_elem?-get_or}
use sat_symmetry.SymmetryController.{cancel_manager, loaded, enable_cosy}
use sat_symmetry.SymmetryController.Begin.{IsOrdered, enable_cosy-IsRunning}
use sat_symmetry.CosyManager.Managed.{IsWatching}
use sat_symmetry.CosyManager.Conflict.{IsConflict}
use sat_symmetry.SymmetryController.Run.{Runs, begins, notifies, cancels, IsRunning}
use sat_symmetry.SymmetryController.Run.Reached.{
  Standing, AtStart, Runs-Standing, Runs-notify, Runs-cancel, Runs-AtStart,
}
use sat_symmetry.SymmetryController.Run.Conflict.{Runs-IsConflict}
use sat_symmetry.SymmetryController.Tests.{at_start-IsStatus, controlled_first}
use sat_symmetry.Examples.{
  swapping, increasing, false_true, swap_group, managing, managing_first, managing_reducer,
  controlling, controlling_first, controlling_conflict, controlling_back, same,
}

controlled_second : update_notify same same 2 controlling_first ≡ some controlling_conflict
unfolding new_permutation add_all add_to_current_cycle close_current_cycle last_element_in_cycle
    cycle_begin inverse_of insert has_same_assignment_value literal_is_assigned literal_is_true
    are_one_of_two_bits_set two_bits_from_pos64 assignment_of_size resize resize_to
    assign_from_true_literal set_bit set_word is_set word_at one_bit64 bit_pos64 shl64
    empty_assignment empty bit_offset64 bit_length64 xor update_state state_of_pair is_lookup_end
    both_literals_are_assigned leq increase_order new_order add literal negated is_minimal_value
    is_maximal_value literal_is_false CosyStatus.update_notify notify_loop CosyManager.update_notify
    notify_statuses inject_after_notify watch variable update_notify notify_manager generate_esbp
    get_false_literal_for_assigned_variable
controlled_second = refl

IsWatching-all : (l : Literal) → l < 4 → IsWatching swap_group 1 (variable l)
unfolding watch variable
IsWatching-all zero lt = (0 ∷ [], refl, (refl, tt), λ i on. ground arith)
IsWatching-all (suc zero) lt = (0 ∷ [], refl, (refl, tt), λ i on. ground arith)
IsWatching-all (suc (suc zero)) lt = (0 ∷ [], refl, (refl, tt), λ i on. ground arith)
IsWatching-all (suc (suc (suc zero))) lt = (0 ∷ [], refl, (refl, tt), λ i on. ground arith)
IsWatching-all (suc (suc (suc (suc l)))) lt = absurd (omega arith)

controlling-IsRunning : IsRunning increasing [] controlling
unfolding assignment_of_size resize resize_to
controlling-IsRunning = record {
  order = (increase_order_lem 2 true_less_false).0;
  assignment = (assignment_of_size_lem 2).0;
  follows = (assignment_of_size_lem 2).2;
  distinct = tt;
  in_range = tt;
  manager = managing;
  held = refl;
  managed = record {
    order = refl;
    placed = λ i lt.
        let e : i ≡ 0 = omega arith in
        rw e record {
          permutation = swapping;
          found = refl;
          traced = record { status = at_start-IsStatus; traced = refl };
          watched = tt;
        };
  };
  watching = IsWatching-all;
}

two_notified : Runs same same controlling (2 ∷ 1 ∷ []) controlling_conflict
unfolding assign_from_true_literal set_bit set_word assignment_of_size resize resize_to variable
    valuation is_set word_at one_bit64 bit_pos64 shl64 empty_assignment empty bit_offset64
    bit_length64
two_notified =
    notifies 2 (notifies 1 begins (omega arith) refl controlled_first) (omega arith) refl
      controlled_second

none_waits : (v : BooleanVariable) → waiting controlling.injector esbp (some v) ≡ []
unfolding new_clause_injector injector_of new_injector clauses_of
none_waits v = refl

Runs-Standing_example : Standing increasing controlling_conflict managing_reducer 0
Runs-Standing_example =
    Runs-Standing same same increasing controlling controlling-IsRunning two_notified refl 0
      (omega arith)

-- The first pair is that of the variables 0 and 1.
first_differs :
    (m : CosyManager) (i : ℕ) (p : Permutation)
    → controlling_first.cosy_manager ≡ some m
    → get_elem? controlling_first.group.permutations i ≡ some p
    → FirstHasOther p (status m.statuses i) (variable 2)
unfolding variable
first_differs m zero p held found room =
    let e : managing_first ≡ m = cc in rw (← e) (inl (omega arith))
first_differs m (suc i) p held found room = cc

Runs-notify_example :
    (c' : SymmetryController) × (update_notify same same 2 controlling_first ≡ some c')
    × Runs same same controlling (2 ∷ 1 ∷ []) c'
unfolding assign_from_true_literal set_bit set_word assignment_of_size resize resize_to variable
    valuation is_set word_at one_bit64 bit_pos64 shl64 empty_assignment empty bit_offset64
    bit_length64
Runs-notify_example =
    Runs-notify same same increasing controlling controlling-IsRunning 2
      (notifies 1 begins (omega arith) refl controlled_first) (omega arith) refl first_differs

Runs-cancel_example :
    (c' : SymmetryController) × (update_cancel same same 2 controlling_conflict ≡ some c')
    × Runs same same controlling (1 ∷ []) c'
Runs-cancel_example =
    Runs-cancel same same increasing controlling controlling-IsRunning 2 two_notified

Runs-IsConflict_example :
    All (IsConflict false_true) (waiting controlling_conflict.injector esbp (some 1))
Runs-IsConflict_example =
    Runs-IsConflict same same increasing controlling controlling-IsRunning none_waits 1 two_notified

-- The first notification is taken back.
controlled_back : update_cancel same same 1 controlling_first ≡ some controlling_back
unfolding update_cancel cancel_manager watch variable CosyManager.update_cancel cancel_statuses
    CosyStatus.update_cancel
controlled_back = refl

Runs-AtStart_example :
    ((v : BooleanVariable) → valuation controlling_back.assignment v ≡ none)
    × ((i : ℕ) → i < length managing_first.statuses → AtStart (status managing_first.statuses i))
unfolding assign_from_true_literal set_bit set_word assignment_of_size resize resize_to variable
    valuation is_set word_at one_bit64 bit_pos64 shl64 empty_assignment empty bit_offset64
    bit_length64
Runs-AtStart_example =
    Runs-AtStart same same increasing controlling controlling-IsRunning
      (cancels 1 (notifies 1 begins (omega arith) refl controlled_first) controlled_back) refl

-- One order in which a map may be walked over.
in_order : Classes → Classes
in_order classes = classes

swap_group-IsOrdered : IsOrdered swap_group increasing 2
unfolding increase_order new_order add literal variable
swap_group-IsOrdered = record {
  order = (increase_order_lem 2 true_less_false).0;
  literals = (omega arith, (omega arith, tt));
  watching = IsWatching-all;
  lookups = λ i p found.
      let (_, lt) = get_elem?-get_or (swapping ∷ []) i swapping p found in
      let e : i ≡ 0 = omega (arith, lt) in
      let p_is : swapping ≡ p = some_injective _ _ (rw e at found) in
      rw (e, ← p_is) (at_start-IsStatus.lookups);
}

enable_cosy-IsRunning_example :
    (c : SymmetryController) × (enable_cosy in_order increase true_less_false
        (loaded 2 (1 ∷ 1 ∷ []) swap_group)
      ≡ some c)
    × IsRunning increasing [] c
    × ((v : BooleanVariable) → waiting c.injector esbp (some v) ≡ [])
unfolding number_of_permutations create
enable_cosy-IsRunning_example =
    enable_cosy-IsRunning in_order increase true_less_false 2 (1 ∷ 1 ∷ []) swap_group increasing
      refl refl swap_group-IsOrdered
