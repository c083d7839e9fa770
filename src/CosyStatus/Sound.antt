-- ===== src/CosyStatus/Sound.antt =====
-- CosyStatus.cc, generateESBP and generateUnitClauseOnInverting: the total assignments that the
-- clauses exclude.
use mathlib.Core.Bool.{xor}
use sat_symmetry.Prelude.{
  ℕ, ◌<◌, ◌≤◌, ◌≡◌, refl, arith, true, false, not, none, some, List, [], ◌∷◌, length, All,
  if◌then◌else◌, ◌==◌, inl, inr, Bool-cases,
}
use sat_symmetry.Literal.{Literal, BooleanVariable, variable, literal, negated, is_positive}
use sat_symmetry.Literal.Laws.{
  variable-literal, is_positive-literal, variable-negated, is_positive-negated, negated-negated,
}
use sat_symmetry.ClauseInjector.{ClauseInjector, units, add_clause}
use sat_symmetry.ClauseInjector.Laws.{waiting, waiting-add_clause}
use sat_symmetry.Assignment.{Assignment, IsAssignment, valuation, is_assigned, literal_is_false}
use sat_symmetry.Permutation.{Permutation, inverse_of}
use sat_symmetry.Order.{Order}
use sat_symmetry.Order.Laws.{IsOrder, no_later, minimal_truth}
use sat_symmetry.CosyStatus.{
  CosyStatus, reducer, lookup_at, esbp_clause, update_state, is_lookup_end, is_true_less_false,
  generate_unit_clause_on_inverting,
}
use sat_symmetry.CosyStatus.Lookup.{
  twin, agree_at, Agreed, IsStatus, Total, truth, permuted, LexLess,
}
use sat_symmetry.CosyStatus.State.{reducer_pair, reducer_reduces, reducer_enlarges}
use sat_symmetry.CosyStatus.Esbp.{
  AssignedPairs, HasOther, agree-is_assigned, clause-FixesPairs, esbp_clause_total,
  esbp_clause_false,
}

-- Where the status is a reducer, all pairs up to the place that is looked at are assigned.
reducer-AssignedPairs :
    (p : Permutation) (o : Order) (a : Assignment) (s t : CosyStatus)
    → IsOrder o
    → IsAssignment a
    → IsStatus p o s
    → Agreed p a s
    → update_state p o a s ≡ some t
    → t.state ≡ reducer
    → (s.lookup_index < length s.lookup_order) × AssignedPairs p a s
unfolding is_lookup_end
reducer-AssignedPairs p o a s t h k st agreed said red =
    let (inside, on_element, on_inverse, _) = reducer_pair p o a s h k t st.lookups said red in
    (
      ground arith,
      λ i le. elim (Bool-cases (i == s.lookup_index)) [
        | inl same ↦ let e : i ≡ s.lookup_index = ground arith in rw e (on_element, on_inverse)
        | inr other ↦
            agree-is_assigned a (lookup_at s i) (twin p (lookup_at s i)) k (agreed i (ground arith))
      ],
    )

-- At a reducer each clause that esbp_clause yields is false.
pub made_conflict :
    (p : Permutation) (o : Order) (a : Assignment) (s t : CosyStatus) (reason : BooleanVariable)
    → (clause : List Literal) → IsOrder o
    → IsAssignment a
    → IsStatus p o s
    → Agreed p a s
    → update_state p o a s ≡ some t
    → t.state ≡ reducer
    → is_assigned (valuation a reason) ≡ true
    → esbp_clause p a reason s ≡ some clause
    → All (λ m. literal_is_false a m ≡ true) clause
made_conflict p o a s t reason clause h k st agreed said red on made =
    let (inside, pairs) = reducer-AssignedPairs p o a s t h k st agreed said red in
    esbp_clause_false p o a s reason st.lookups inside clause made k on pairs

-- For a well-formed order, assignment and status whose earlier pairs all agree, at a reducer with
-- an assigned reason, and where some pair up to the lookup index has a variable other than the
-- reason, esbp_clause yields a clause, and all its literals are false under the assignment.
pub reducer_conflict :
    (p : Permutation) (o : Order) (a : Assignment) (s t : CosyStatus) (reason : BooleanVariable)
    → IsOrder o
    → IsAssignment a
    → IsStatus p o s
    → Agreed p a s
    → update_state p o a s ≡ some t
    → t.state ≡ reducer
    → is_assigned (valuation a reason) ≡ true
    → (j : ℕ) → j ≤ s.lookup_index
    → HasOther p s reason j
    → (clause : List Literal) × (esbp_clause p a reason s ≡ some clause)
      × All (λ m. literal_is_false a m ≡ true) clause
reducer_conflict p o a s t reason h k st agreed said red on j le other =
    let (inside, _) = reducer-AssignedPairs p o a s t h k st agreed said red in
    let (clause, made) = esbp_clause_total p o a s reason st.lookups inside j le other in
    (clause, made, made_conflict p o a s t reason clause h k st agreed said red on made)

-- For a well-formed order, assignment and status whose earlier pairs all agree and whose pair at
-- the lookup index differs: if update_state makes it a reducer and the order puts the literal no
-- later than its inverse, then each total assignment that falsifies the ESBP clause is greater
-- than its image under the permutation.
pub esbp_clause_sound :
    (p : Permutation) (o : Order) (a : Assignment) (s t : CosyStatus) (reason : BooleanVariable)
    → (clause : List Literal) (β : Total) → IsOrder o
    → IsAssignment a
    → IsStatus p o s
    → Agreed p a s
    → agree_at p a s s.lookup_index ≡ false
    → update_state p o a s ≡ some t
    → t.state ≡ reducer
    → no_later o (lookup_at s s.lookup_index) (twin p (lookup_at s s.lookup_index)) ≡ true
    → esbp_clause p a reason s ≡ some clause
    → All (λ m. truth β m ≡ false) clause
    → LexLess (minimal_truth o.value_mode) s.lookup_order (permuted p β) (truth β)
esbp_clause_sound p o a s t reason clause β h k st agreed differs said red early made falsified =
    let (inside, pairs) = reducer-AssignedPairs p o a s t h k st agreed said red in
    reducer_reduces p o a s h k t β st agreed differs said red early
      (clause-FixesPairs p o a s reason st.lookups inside clause β made k pairs falsified)

-- Under the conditions of esbp_clause_sound, but where the order puts the literal after its
-- inverse, each total assignment that falsifies the ESBP clause is less than its image under the
-- permutation.
pub esbp_clause_late :
    (p : Permutation) (o : Order) (a : Assignment) (s t : CosyStatus) (reason : BooleanVariable)
    → (clause : List Literal) (β : Total) → IsOrder o
    → IsAssignment a
    → IsStatus p o s
    → Agreed p a s
    → agree_at p a s s.lookup_index ≡ false
    → update_state p o a s ≡ some t
    → t.state ≡ reducer
    → no_later o (lookup_at s s.lookup_index) (twin p (lookup_at s s.lookup_index)) ≡ false
    → esbp_clause p a reason s ≡ some clause
    → All (λ m. truth β m ≡ false) clause
    → LexLess (minimal_truth o.value_mode) s.lookup_order (truth β) (permuted p β)
esbp_clause_late p o a s t reason clause β h k st agreed differs said red late made falsified =
    let (inside, pairs) = reducer-AssignedPairs p o a s t h k st agreed said red in
    reducer_enlarges p o a s h k t β st agreed differs said red late
      (clause-FixesPairs p o a s reason st.lookups inside clause β made k pairs falsified)

-- Before the end of the lookup order, where the literal looked at has an inverse,
-- generate_unit_clause_on_inverting succeeds: the unit clause is the next to wait without a cause
-- if the literal is the negation of its inverse, and otherwise the clauses that wait without a
-- cause are as before.
pub unit_clause_given :
    (p : Permutation) (o : Order) (s : CosyStatus) (x : Literal) (injector : ClauseInjector)
    → is_lookup_end s ≡ false
    → inverse_of p (lookup_at s s.lookup_index) ≡ some x
    → (injector' : ClauseInjector) × (generate_unit_clause_on_inverting p o s injector
        ≡ some injector')
      × (waiting injector' units none ≡ (
          if lookup_at s s.lookup_index == negated x
          then (literal (variable (lookup_at s s.lookup_index)) (is_true_less_false o.value_mode)
              ∷ [])
            ∷ waiting injector units none
          else waiting injector units none))
unfolding generate_unit_clause_on_inverting
unit_clause_given p o s x injector inside paired =
    elim (Bool-cases (lookup_at s s.lookup_index == negated x)) [
      | inl same ↦ (
        add_clause units none (unit ∷ []) injector,
        rw (inside, paired, same),
        rw same (waiting-add_clause units units none none (unit ∷ []) injector),
      )
      | inr other ↦ (injector, rw (inside, paired, other), rw other)
    ]
  where
    unit : Literal
    unit = literal (variable (lookup_at s s.lookup_index)) (is_true_less_false o.value_mode)

-- The literal of the unit clause.
unit_literal_sound :
    (p : Permutation) (o : Order) (e : Literal) (rest : List Literal) (β : Total)
    → is_positive e ≡ true
    → inverse_of p e ≡ some (negated e)
    → truth β (literal (variable e) (is_true_less_false o.value_mode)) ≡ false
    → LexLess (minimal_truth o.value_mode) (e ∷ rest) (permuted p β) (truth β)
unfolding xor
unit_literal_sound p o e rest β positive inverted falsified = inl (image, value)
  where
    value : truth β e ≡ not (minimal_truth o.value_mode)
    value = ground (
      arith,
      variable-literal (variable e) (is_true_less_false o.value_mode),
      is_positive-literal (variable e) (is_true_less_false o.value_mode),
    )

    image : permuted p β e ≡ minimal_truth o.value_mode
    image = rw inverted (ground (arith, value, variable-negated e, is_positive-negated e))

-- For a status at the start of a lookup order whose first literal is positive and mapped to its
-- negation by the permutation, generate_unit_clause_on_inverting succeeds and puts one clause in
-- front of those that wait without a cause, and each total assignment that falsifies all literals
-- of this clause is greater than its image under the permutation.
pub unit_clause_sound :
    (p : Permutation) (o : Order) (s : CosyStatus) (e : Literal) (rest : List Literal)
    → (injector : ClauseInjector) → s.lookup_index ≡ 0
    → s.lookup_order ≡ e ∷ rest
    → is_positive e ≡ true
    → inverse_of p e ≡ some (negated e)
    → (injector' : ClauseInjector) × (clause : List Literal) × (generate_unit_clause_on_inverting p
          o s injector
        ≡ some injector')
      × (waiting injector' units none ≡ clause ∷ waiting injector units none)
      × ((β : Total)
          → All (λ m. truth β m ≡ false) clause
          → LexLess (minimal_truth o.value_mode) s.lookup_order (permuted p β) (truth β))
unfolding is_lookup_end
unit_clause_sound p o s e rest injector start order positive inverted =
    let here : lookup_at s s.lookup_index ≡ e = rw (start, order) refl in
    let inside : is_lookup_end s ≡ false = rw (start, order) (ground arith) in
    let same : (e == negated (negated e)) ≡ true = ground (arith, negated-negated e) in
    let (injector', made, waits) =
      unit_clause_given p o s (negated e) injector inside (rw here inverted) in
    (
      injector',
      literal (variable e) (is_true_less_false o.value_mode) ∷ [],
      made,
      rw (here, same) at waits,
      λ β falsified. rw order (unit_literal_sound p o e rest β positive inverted falsified.0),
    )
