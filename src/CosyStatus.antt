-- ===== src/CosyStatus.antt =====
-- include/cosy/CosyStatus.h and src/CosyStatus.cc: how far the assignment agrees with its image
-- under one permutation, along the order of the variables.
-- The permutation, the order and the assignment that the object refers to are arguments. A result
-- `none` is the exception of a lookup of a literal that the permutation or the order does not
-- have, or the swap in a clause of one literal, whose DCHECK fails. The deque `_lookup_infos` has
-- its back at the head of the list.
pub mod Lookup
pub mod Notify
pub mod Cancel
pub mod State
pub mod Clauses
pub mod Esbp
pub mod Sound
pub mod Trail
pub mod Traced
pub mod Tests
use sat_symmetry.Prelude.{
  ℕ, zero, suc, ◌+◌, ◌-◌, Bool, true, false, not, ◌&&◌, ◌||◌, Option, none, some, List, [], ◌∷◌,
  ◌++◌, ◌==◌, leb, if◌then◌else◌, length, get_or, contains, ◌>>=◌,
}
use sat_symmetry.Literal.{Literal, BooleanVariable, literal, variable, negated}
use sat_symmetry.Assignment.{
  Assignment, has_same_assignment_value, both_literals_are_assigned, literal_is_assigned,
  literal_is_true, get_false_literal_for_assigned_variable,
}
use sat_symmetry.Permutation.{Permutation, inverse_of}
use sat_symmetry.Order.{
  Order, ValueMode, true_less_false, false_less_true, leq, is_minimal_value, is_maximal_value,
}
use sat_symmetry.Injector.{no_boolean_variable}
use sat_symmetry.ClauseInjector.{ClauseInjector, units, esbp, esbp_forcing, add_clause}

pub data CosyState : Type 0 where
  inactive active reducer force_lex_leader : CosyState

pub record LookupInfo : Type 0 where
  pub variable : BooleanVariable
  pub back_index : ℕ

pub record CosyStatus : Type 0 where
  pub lookup_index : ℕ
  pub lookup_order : List Literal
  pub lookup_infos : List LookupInfo
  pub state : CosyState

unfoldable pub new_status : CosyStatus
new_status = record { lookup_index = 0; lookup_order = []; lookup_infos = []; state = active }

unfoldable pub add_lookup_literal : Literal → CosyStatus → CosyStatus
add_lookup_literal l s = record s { lookup_order = s.lookup_order ++ l ∷ [] }

unfoldable pub is_lookup_end : CosyStatus → Bool
is_lookup_end s = leb (length s.lookup_order) s.lookup_index

-- `_lookup_order[i]`
abbrev pub lookup_at : CosyStatus → ℕ → Literal
lookup_at s i = get_or s.lookup_order i 0

abbrev pub is_true_less_false : ValueMode → Bool
is_true_less_false true_less_false = true
is_true_less_false false_less_true = false

-- `used.insert(l)`, and `push_back` of what is new.
abbrev pub push_new : Literal → List Literal → List Literal
push_new l literals = if contains literals l then literals else literals ++ l ∷ []

-- `DCHECK_GE(literals.size(), 2);` and `std::swap(literals[0], literals[1]);`
abbrev pub swap_first : List Literal → Option (List Literal)
swap_first [] = none
swap_first (x ∷ []) = none
swap_first (x ∷ y ∷ rest) = some (y ∷ x ∷ rest)

module _ (p : Permutation) (o : Order) where
  unfoldable pub generate_unit_clause_on_inverting :
      CosyStatus → ClauseInjector → Option ClauseInjector
  generate_unit_clause_on_inverting s injector =
      if is_lookup_end s then some injector else inverting
    where
      element : Literal
      element = lookup_at s s.lookup_index

      inverting : Option ClauseInjector
      inverting = do
        inverse ← inverse_of p element
        if not (element == negated inverse)
            then some injector
            else some (
                add_clause units no_boolean_variable
                  (literal (variable element) (is_true_less_false o.value_mode) ∷ []) injector)

module _ (p : Permutation) (o : Order) (a : Assignment) where
  -- The state of a pair that differs or is not assigned.
  unfoldable pub state_of_pair : Literal → Literal → Literal → Literal → CosyState
  state_of_pair element inverse minimal maximal =
      if both_literals_are_assigned a element inverse
      then if is_minimal_value o minimal a then inactive else reducer
      else if not (literal_is_assigned a minimal) && is_minimal_value o maximal a
          || not (literal_is_assigned a maximal) && is_maximal_value o minimal a
      then force_lex_leader
      else active

  unfoldable pub update_state : CosyStatus → Option CosyStatus
  unfolding is_lookup_end
  update_state s = if is_lookup_end s then some (record s { state = active }) else pair
    where
      element : Literal
      element = lookup_at s s.lookup_index

      pair : Option CosyStatus
      pair = do
        inverse ← inverse_of p element
        minimal ← leq o element inverse
        some (record s {
          state =
              state_of_pair element inverse minimal
                (if minimal == element then inverse else element);
        })

  -- The loop of `updateNotify`, with a bound on the rounds that are left.
  unfoldable pub notify_loop : ℕ → BooleanVariable → ℕ → CosyStatus → Option CosyStatus
  notify_loop zero v initial s = some s
  notify_loop (suc rounds) v initial s = do
    let element = lookup_at s s.lookup_index
    inverse ← inverse_of p element
    let infos =
        if s.lookup_index == initial
        then record { variable = v; back_index = s.lookup_index } ∷ s.lookup_infos
        else s.lookup_infos
    let rest =
        notify_loop rounds v initial
          (record s { lookup_index = s.lookup_index + 1; lookup_infos = infos })
    if not (has_same_assignment_value a element inverse) then some s else rest

  unfoldable pub update_notify : Literal → CosyStatus → Option CosyStatus
  unfolding notify_loop update_state
  update_notify l s = do
    s' ← notify_loop (length s.lookup_order - s.lookup_index) (variable l) s.lookup_index s
    update_state s'

-- `updateCancel` looks at the last info.
abbrev pub cancel_info : BooleanVariable → List LookupInfo → CosyStatus → CosyStatus
cancel_info v [] s = s
cancel_info v (lookup ∷ rest) s =
    if not (lookup.variable == v)
    then s
    else record s { lookup_index = lookup.back_index; lookup_infos = rest }

unfoldable pub update_cancel : Literal → CosyStatus → CosyStatus
update_cancel l s = cancel_info (variable l) s.lookup_infos s

module _ (p : Permutation) (a : Assignment) where
  -- The literals of the pairs at the places `i`, …, `i + n - 1`, false under the assignment.
  unfoldable pub push_pairs : ℕ → ℕ → CosyStatus → List Literal → Option (List Literal)
  push_pairs zero i s literals = some literals
  push_pairs (suc n) i s literals = do
    inverse ← inverse_of p (lookup_at s i)
    let of_element = get_false_literal_for_assigned_variable a (variable (lookup_at s i))
    let of_inverse = get_false_literal_for_assigned_variable a (variable inverse)
    push_pairs n (i + 1) s (push_new of_inverse (push_new of_element literals))

  unfoldable pub esbp_clause : BooleanVariable → CosyStatus → Option (List Literal)
  unfolding push_pairs
  esbp_clause reason s = do
    literals ←
        push_pairs (s.lookup_index + 1) 0 s
          (push_new (get_false_literal_for_assigned_variable a reason) [])
    swap_first literals

  unfoldable pub generate_esbp :
      BooleanVariable → CosyStatus → ClauseInjector → Option ClauseInjector
  unfolding esbp_clause
  generate_esbp reason s injector = do
    literals ← esbp_clause reason s
    some (add_clause esbp (some reason) literals injector)

  unfoldable pub force_lex_leader_clause : BooleanVariable → CosyStatus → Option (List Literal)
  unfolding push_pairs
  force_lex_leader_clause reason s = do
    let element = lookup_at s s.lookup_index
    inverse ← inverse_of p element
    let undef = if literal_is_assigned a element then inverse else element
    let affected = if literal_is_assigned a inverse then inverse else element
    push_pairs s.lookup_index 0 s (
        push_new (get_false_literal_for_assigned_variable a (variable affected)) (
          push_new (get_false_literal_for_assigned_variable a reason)
            (push_new (literal (variable undef) (literal_is_true a affected)) [])))

  unfoldable pub generate_force_lex_leader_esbp :
      BooleanVariable → CosyStatus → ClauseInjector → Option ClauseInjector
  unfolding force_lex_leader_clause
  generate_force_lex_leader_esbp reason s injector = do
    literals ← force_lex_leader_clause reason s
    some (add_clause esbp_forcing (some reason) literals injector)
