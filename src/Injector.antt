-- ===== src/Injector.antt =====
-- include/cosy/ClauseInjector.h, class Injector: clauses that wait for the solver, by the variable
-- that caused them. The cause kNoBooleanVariable is `none`. The vector of a cause has its back at
-- the head of the list.
pub mod Laws
use sat_symmetry.Prelude.{
  ℕ, suc, ◌+◌, ◌≤◌, ◌≡◌, Bool, true, false, not, ◌||◌, Option, none, some, List, [], ◌∷◌, ◌==◌,
  if◌then◌else◌, length,
}
use sat_symmetry.Literal.{Literal, BooleanVariable}

abbrev pub Cause : Type 0
Cause = Option BooleanVariable

abbrev pub no_boolean_variable : Cause
no_boolean_variable = none

abbrev pub same_cause : Cause → Cause → Bool
same_cause none none = true
same_cause none (some w) = false
same_cause (some v) none = false
same_cause (some v) (some w) = v == w

-- `none` is a key that is not in the map.
pub record Injector : Type 0 where
  pub clauses : Cause → Option (List (List Literal))

unfoldable pub new_injector : Injector
new_injector = record { clauses = λ cause. none }

-- `_clauses[cause]`, which is empty when it was not there.
unfoldable pub clauses_of : Injector → Cause → List (List Literal)
clauses_of i cause = elim (i.clauses cause) [ none ↦ [] | some waiting ↦ waiting ]

unfoldable pub store : Cause → List (List Literal) → Injector → Injector
store cause waiting i = record {
  clauses = λ other. if same_cause cause other then some waiting else i.clauses other;
}

abbrev pub is_empty {ℓ} : {A : Type ℓ} → List A → Bool
is_empty [] = true
is_empty (x ∷ xs) = false

-- A variable keeps the clause that it has; without a variable there may be several.
unfoldable pub add_clause : Cause → List Literal → Injector → Injector
add_clause cause literals i =
    if same_cause cause no_boolean_variable || is_empty (clauses_of i cause)
    then store cause (literals ∷ clauses_of i cause) i
    else i

unfoldable pub remove_clause : Cause → Injector → Injector
remove_clause cause i = store cause [] i

unfoldable pub has_clause : Injector → Cause → Bool
has_clause i cause = elim (i.clauses cause) [ none ↦ false | some waiting ↦ not (is_empty waiting) ]

-- `back` and `pop_back`.
abbrev pub take_back : Cause → Injector → List (List Literal) → Option (List Literal × Injector)
take_back cause i [] = none
take_back cause i (literals ∷ rest) = some (literals, store cause rest i)

-- `none` is the failed CHECK that there is a clause.
unfoldable pub get_clause : Cause → Injector → Option (List Literal × Injector)
get_clause cause i = take_back cause i (clauses_of i cause)
