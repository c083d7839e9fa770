-- ===== src/CosyStatus/State.antt =====
-- CosyStatus.cc, updateState: what the state says of every total assignment.
use mathlib.Core.Bool.{xor}
use sat_symmetry.Prelude.{
  ℕ, ◌≤◌, ◌<◌, ◌≡◌, sym, arith, Bool, true, false, not, some, length, All, if◌then◌else◌,
}
use sat_symmetry.Literal.{Literal, variable}
use sat_symmetry.Assignment.{
  Assignment, IsAssignment, valuation, literal_value, is_assigned, holds,
  both_literals_are_assigned,
}
use sat_symmetry.Assignment.Laws.{literal_is_assigned_lem}
use sat_symmetry.Permutation.{Permutation}
use sat_symmetry.Order.{Order}
use sat_symmetry.Order.Laws.{IsOrder, no_later, minimal_truth, is_minimal_value_lem}
use sat_symmetry.CosyStatus.{
  CosyStatus, reducer, lookup_at, state_of_pair, update_state, is_lookup_end,
}
use sat_symmetry.CosyStatus.Lookup.{
  twin, IsLookup, agree_at, Agreed, IsStatus, Total, truth, Fixes, permuted, LexLess, LexLess-at,
  literal_value-truth, agree-truth, differ-truth,
}
use sat_symmetry.CosyStatus.Notify.{update_state_lem, first_of_pair}

module _ (p : Permutation) (o : Order) (a : Assignment) (s : CosyStatus) (h : IsOrder o)
    (k : IsAssignment a) where
  abbrev here : Literal
  here = lookup_at s s.lookup_index

  -- A reducer stands at a pair that is assigned, and whose first literal is not minimal.
  pub reducer_pair :
      (t : CosyStatus)
      → All (IsLookup p o) s.lookup_order
      → update_state p o a s ≡ some t
      → t.state ≡ reducer
      → (is_lookup_end s ≡ false)
        × (is_assigned (valuation a (variable here)) ≡ true)
        × (is_assigned (valuation a (variable (twin p here))) ≡ true)
        × (holds
              (literal_value (valuation a) (first_of_pair p o a here (twin p here)))
              (minimal_truth o.value_mode)
            ≡ false)
  unfolding state_of_pair both_literals_are_assigned
  reducer_pair t lookups said red = ground (
    arith,
    update_state_lem p o a s h lookups,
    literal_is_assigned_lem a k here,
    literal_is_assigned_lem a k (twin p here),
    is_minimal_value_lem o (first_of_pair p o a here (twin p here)) a h k,
  )

  -- The total assignment has the values of all pairs up to the place that is looked at.
  abbrev pub FixesPairs : Total → Type 0
  FixesPairs β =
      (i : ℕ)
      → i ≤ s.lookup_index
      → Fixes (valuation a) β (variable (lookup_at s i))
        × Fixes (valuation a) β (variable (twin p (lookup_at s i)))

  -- At a reducer the truth of the first literal of the pair, and of the other one.
  reducer_truth :
      (t : CosyStatus) (β : Total)
      → IsStatus p o s
      → agree_at p a s s.lookup_index ≡ false
      → update_state p o a s ≡ some t
      → t.state ≡ reducer
      → FixesPairs β
      → (s.lookup_index < length s.lookup_order)
        × (truth β (first_of_pair p o a here (twin p here)) ≡ not (minimal_truth o.value_mode))
        × (truth β here ≡ not (truth β (twin p here)))
  unfolding is_lookup_end xor
  reducer_truth t β st differs said red fixes =
      let (inside, _, _, high) = reducer_pair t st.lookups said red in
      let (fx, fy) = fixes s.lookup_index (omega arith) in
      let both = differ-truth a β here (twin p here) k fx fy differs in
      let value : literal_value (valuation a) (first_of_pair p o a here (twin p here))
          ≡ some (truth β (first_of_pair p o a here (twin p here))) =
        chosen (no_later o here (twin p here)) fx fy in
      (ground arith, ground arith, both)
    where
      chosen :
          (b : Bool)
          → Fixes (valuation a) β (variable here)
          → Fixes (valuation a) β (variable (twin p here))
          → literal_value (valuation a) (if b then here else twin p here)
            ≡ some (truth β (if b then here else twin p here))
      chosen true fx fy = literal_value-truth (valuation a) β here fx
      chosen false fx fy = literal_value-truth (valuation a) β (twin p here) fy

  earlier_agree :
      (β : Total) (j : ℕ)
      → Agreed p a s
      → FixesPairs β
      → j < s.lookup_index
      → truth β (lookup_at s j) ≡ permuted p β (lookup_at s j)
  earlier_agree β j agreed fixes lt =
      let (fx, fy) = fixes j (omega arith) in
      agree-truth a β (lookup_at s j) (twin p (lookup_at s j)) k fx fy (agreed j lt)

  -- A reducer at a literal that the order puts before its inverse: the permutation takes every
  -- total assignment with the values of the pairs looked at to a smaller one.
  pub reducer_reduces :
      (t : CosyStatus) (β : Total)
      → IsStatus p o s
      → Agreed p a s
      → agree_at p a s s.lookup_index ≡ false
      → update_state p o a s ≡ some t
      → t.state ≡ reducer
      → no_later o here (twin p here) ≡ true
      → FixesPairs β
      → LexLess (minimal_truth o.value_mode) s.lookup_order (permuted p β) (truth β)
  reducer_reduces t β st agreed differs said red early fixes =
      let (inside, high, both) = reducer_truth t β st differs said red fixes in
      LexLess-at (minimal_truth o.value_mode) s.lookup_order s.lookup_index (permuted p β) (truth β)
        inside (λ j lt. sym (earlier_agree β j agreed fixes lt)) (ground arith) (ground arith)

  -- A reducer at a literal whose inverse comes first in the order: the permutation takes each of
  -- these assignments to a greater one.
  pub reducer_enlarges :
      (t : CosyStatus) (β : Total)
      → IsStatus p o s
      → Agreed p a s
      → agree_at p a s s.lookup_index ≡ false
      → update_state p o a s ≡ some t
      → t.state ≡ reducer
      → no_later o here (twin p here) ≡ false
      → FixesPairs β
      → LexLess (minimal_truth o.value_mode) s.lookup_order (truth β) (permuted p β)
  reducer_enlarges t β st agreed differs said red late fixes =
      let (inside, high, both) = reducer_truth t β st differs said red fixes in
      LexLess-at (minimal_truth o.value_mode) s.lookup_order s.lookup_index (truth β) (permuted p β)
        inside (λ j lt. earlier_agree β j agreed fixes lt) (ground arith) (ground arith)
