-- ===== src/CosyStatus/Esbp.antt =====
-- CosyStatus.cc, generateESBP: the literals of the clause.
use mathlib.Core.Bool.{xor}
use sat_symmetry.Prelude.{
  ℕ, ◌+◌, ◌≤◌, ◌<◌, ◌≡◌, ◌≢◌, ◌⊎◌, inl, inr, refl, ap, sym, ◌∙◌, arith, Bool, true, false, not,
  Option, none, some, List, [], ◌∷◌, get_elem?, length, All,
}
use sat_symmetry.Literal.{Literal, BooleanVariable, variable, literal}
use sat_symmetry.Literal.Laws.{variable-literal, is_positive-literal}
use sat_symmetry.Assignment.{
  Assignment, IsAssignment, valuation, holds, is_assigned, literal_is_false,
  has_same_assignment_value, get_false_literal_for_assigned_variable,
}
use sat_symmetry.Assignment.Laws.{
  literal_is_false_lem, get_false_literal_lem, has_same_assignment_value_lem,
}
use sat_symmetry.Permutation.{Permutation}
use sat_symmetry.Order.{Order}
use sat_symmetry.CosyStatus.{CosyStatus, lookup_at, swap_first, push_pairs, esbp_clause}
use sat_symmetry.CosyStatus.Lookup.{twin, IsLookup, Total, truth, Fixes, Fixes-of_false}
use sat_symmetry.CosyStatus.Clauses.{
  Distinct, push_pairs_total, push_pairs-All, All-push_pairs, push_pairs-Distinct, push_pairs_first,
  All-swap_first, swap_first-All, swap_first-Distinct,
}

is_assigned-some : (v : Option Bool) → is_assigned v ≡ true → (b : Bool) × (v ≡ some b)
is_assigned-some none h = cc
is_assigned-some (some b) h = (b, refl)

-- The false literal of an assigned variable is false.
pub false_literal-is_false :
    (a : Assignment) (v : BooleanVariable)
    → IsAssignment a
    → is_assigned (valuation a v) ≡ true
    → literal_is_false a (get_false_literal_for_assigned_variable a v) ≡ true
unfolding xor
false_literal-is_false a v k h =
    let (b, e) = is_assigned-some (valuation a v) h in
    rw
      (
        get_false_literal_lem a k v b e,
        literal_is_false_lem a k (literal v (not b)),
        variable-literal v (not b),
        is_positive-literal v (not b),
        e,
      )
      (known b)
  where
    known : (b : Bool) → holds (some b) (not (not b)) ≡ true
    known true = refl
    known false = refl

pub Fixes-false_of :
    (a : Assignment) (β : Total) (l : Literal)
    → IsAssignment a
    → is_assigned (valuation a (variable l)) ≡ true
    → truth β (get_false_literal_for_assigned_variable a (variable l)) ≡ false
    → Fixes (valuation a) β (variable l)
Fixes-false_of a β l k h said =
    let (b, e) = is_assigned-some (valuation a (variable l)) h in
    Fixes-of_false (valuation a) β (variable l) b e
      (rw (get_false_literal_lem a k (variable l) b e) at said)

-- Both literals of a pair that agrees are assigned.
pub agree-is_assigned :
    (a : Assignment) (x y : Literal)
    → IsAssignment a
    → has_same_assignment_value a x y ≡ true
    → (is_assigned (valuation a (variable x)) ≡ true)
      × (is_assigned (valuation a (variable y)) ≡ true)
agree-is_assigned a x y k h = ground (arith, has_same_assignment_value_lem a k x y)

-- All pairs up to the place that is looked at are assigned.
abbrev pub AssignedPairs : Permutation → Assignment → CosyStatus → Type 0
AssignedPairs p a s =
    (i : ℕ)
    → i ≤ s.lookup_index
    → (is_assigned (valuation a (variable (lookup_at s i))) ≡ true)
      × (is_assigned (valuation a (variable (twin p (lookup_at s i)))) ≡ true)

-- A pair has a variable other than the reason.
abbrev pub HasOther : Permutation → CosyStatus → BooleanVariable → ℕ → Type 0
HasOther p s reason j =
    (variable (lookup_at s j) ≢ reason) ⊎ (variable (twin p (lookup_at s j)) ≢ reason)

module _ (p : Permutation) (o : Order) (a : Assignment) (s : CosyStatus)
    (reason : BooleanVariable) where
  abbrev reason_literal : Literal
  reason_literal = get_false_literal_for_assigned_variable a reason

  esbp_parts :
      (clause : List Literal)
      → esbp_clause p a reason s ≡ some clause
      → (ls : List Literal) × (push_pairs p a (s.lookup_index + 1) 0 s (reason_literal ∷ [])
          ≡ some ls)
        × (swap_first ls ≡ some clause)
  unfolding esbp_clause
  esbp_parts clause said =
      by_result (push_pairs p a (s.lookup_index + 1) 0 s (reason_literal ∷ [])) refl
    where
      by_result :
          (r : Option (List Literal))
          → push_pairs p a (s.lookup_index + 1) 0 s (reason_literal ∷ []) ≡ r
          → (ls : List Literal) × (push_pairs p a (s.lookup_index + 1) 0 s (reason_literal ∷ [])
              ≡ some ls)
            × (swap_first ls ≡ some clause)
      by_result none e = cc
      by_result (some ls) e = (ls, e, rw e at said)

  module _ (lookups : All (IsLookup p o) s.lookup_order)
      (inside : s.lookup_index < length s.lookup_order) where
    -- With a variable other than the reason in one of its pairs there are two literals.
    pub esbp_clause_total :
        (j : ℕ)
        → j ≤ s.lookup_index
        → HasOther p s reason j
        → (clause : List Literal) × (esbp_clause p a reason s ≡ some clause)
    unfolding esbp_clause
    esbp_clause_total j le other =
        let (ls, made) =
          push_pairs_total p a s o lookups (s.lookup_index + 1) 0 (reason_literal ∷ [])
            (omega arith) in
        let (rest, first) =
          push_pairs_first p a s o lookups (s.lookup_index + 1) 0 reason_literal [] ls (omega arith)
            made in
        let (clause, swapped) = by_rest rest ls first made in (clause, rw made swapped)
      where
        variable_of_false :
            (v : BooleanVariable) → variable (get_false_literal_for_assigned_variable a v) ≡ v
        variable_of_false v = unfold get_false_literal_for_assigned_variable in variable-literal v _

        by_rest :
            (rest ls : List Literal)
            → ls ≡ reason_literal ∷ rest
            → push_pairs p a (s.lookup_index + 1) 0 s (reason_literal ∷ []) ≡ some ls
            → (clause : List Literal) × (swap_first ls ≡ some clause)
        by_rest (y ∷ rest) ls e made = (y ∷ reason_literal ∷ rest, rw e refl)
        by_rest [] ls e made =
            let only : All (λ m. m ≡ reason_literal) ls = rw e (refl, tt) in
            let (x, y) =
              (All-push_pairs p a s o lookups (λ m. m ≡ reason_literal) (s.lookup_index + 1) 0
                  (reason_literal ∷ []) ls (omega arith) made only).1
                j (omega arith) (omega arith) in
            elim other [
              | inl ne ↦ absurd (
                  ne (
                    sym (variable_of_false (variable (lookup_at s j)))
                    ∙ ap variable x
                    ∙ variable_of_false reason))
              | inr ne ↦ absurd (
                  ne (
                    sym (variable_of_false (variable (twin p (lookup_at s j))))
                    ∙ ap variable y
                    ∙ variable_of_false reason))
            ]

    -- Where the reason and the pairs are assigned, every literal of the clause is false.
    pub esbp_clause_false :
        (clause : List Literal)
        → esbp_clause p a reason s ≡ some clause
        → IsAssignment a
        → is_assigned (valuation a reason) ≡ true
        → AssignedPairs p a s
        → All (λ m. literal_is_false a m ≡ true) clause
    esbp_clause_false clause said k on pairs =
        let (ls, made, e) = esbp_parts clause said in
        swap_first-All (λ m. literal_is_false a m ≡ true) ls clause e
          (push_pairs-All p a s o lookups (λ m. literal_is_false a m ≡ true) (s.lookup_index + 1) 0
            (reason_literal ∷ []) ls (omega arith) made (false_literal-is_false a reason k on, tt)
            λ j le lt. (
              false_literal-is_false a _ k (pairs j (omega arith)).0,
              false_literal-is_false a _ k (pairs j (omega arith)).1,
            ))

    -- No literal stands twice, there are two or more, and the second is that of the reason.
    pub esbp_clause_shape :
        (clause : List Literal)
        → esbp_clause p a reason s ≡ some clause
        → Distinct clause × (get_elem? clause 1 ≡ some reason_literal)
    esbp_clause_shape clause said =
        let (ls, made, e) = esbp_parts clause said in
        let distinct =
          push_pairs-Distinct p a s o lookups (s.lookup_index + 1) 0 (reason_literal ∷ []) ls
            (omega arith) made (refl, tt) in
        let (rest, first) =
          push_pairs_first p a s o lookups (s.lookup_index + 1) 0 reason_literal [] ls (omega arith)
            made in
        (swap_first-Distinct ls clause e distinct, second rest clause (rw first at e))
      where
        second :
            (rest clause : List Literal)
            → swap_first (reason_literal ∷ rest) ≡ some clause
            → get_elem? clause 1 ≡ some reason_literal
        second [] clause e = cc
        second (y ∷ rest) clause e =
            let same : y ∷ reason_literal ∷ rest ≡ clause = cc in rw (← same) refl

    -- A total assignment that makes the clause false has the values of all the pairs.
    pub clause-FixesPairs :
        (clause : List Literal) (β : Total)
        → esbp_clause p a reason s ≡ some clause
        → IsAssignment a
        → AssignedPairs p a s
        → All (λ m. truth β m ≡ false) clause
        → (i : ℕ) → i ≤ s.lookup_index
        → Fixes (valuation a) β (variable (lookup_at s i))
          × Fixes (valuation a) β (variable (twin p (lookup_at s i)))
    clause-FixesPairs clause β said k on falsified i le =
        let (ls, made, e) = esbp_parts clause said in
        let all = All-swap_first (λ m. truth β m ≡ false) ls clause e falsified in
        let (x, y) =
          (All-push_pairs p a s o lookups (λ m. truth β m ≡ false) (s.lookup_index + 1) 0
              (reason_literal ∷ []) ls (omega arith) made all).1
            i (omega arith) (omega arith) in
        (
          Fixes-false_of a β (lookup_at s i) k (on i le).0 x,
          Fixes-false_of a β (twin p (lookup_at s i)) k (on i le).1 y,
        )
