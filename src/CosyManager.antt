-- ===== src/CosyManager.antt =====
-- include/cosy/CosyManager.h and src/CosyManager.cc: one status for each permutation of the group.
-- The group and the assignment that the object refers to are arguments; `none` of `order` is the
-- null pointer before `defineOrder`. A result `none` is an index outside a vector, or the
-- exception of a lookup. Timing and printing are left out.
pub mod Walk
pub mod Laws
pub mod Total
pub mod Managed
pub mod Conflict
pub mod Define
pub mod Tests
use sat_symmetry.Prelude.{
  ℕ, Bool, true, false, ◌&&◌, Option, none, some, List, [], ◌∷◌, ◌++◌, if◌then◌else◌, get_elem?,
  set, map, ◌>>=◌,
}
use sat_symmetry.Literal.{Literal, BooleanVariable, variable}
use sat_symmetry.Assignment.{Assignment}
use sat_symmetry.Permutation.{Permutation}
use sat_symmetry.Order.{Order}
use sat_symmetry.ClauseInjector.{ClauseInjector}
use sat_symmetry.Group.{Group, watch}
use sat_symmetry.CosyStatus.{
  CosyState, inactive, active, reducer, force_lex_leader, CosyStatus, new_status,
  add_lookup_literal, generate_unit_clause_on_inverting, generate_esbp,
  generate_force_lex_leader_esbp,
}
use sat_symmetry.CosyStatus

abbrev pub flags_esbp : Bool
flags_esbp = true

abbrev pub flags_esbp_forcing : Bool
flags_esbp_forcing = false

pub record CosyManager : Type 0 where
  pub order : Option Order
  pub statuses : List CosyStatus

unfoldable pub new_cosy_manager : CosyManager
new_cosy_manager = record { order = none; statuses = [] }

abbrev pub is_reducer : CosyState → Bool
is_reducer reducer = true
is_reducer _ = false

abbrev pub is_force_lex_leader : CosyState → Bool
is_force_lex_leader force_lex_leader = true
is_force_lex_leader _ = false

-- A status for each permutation.
abbrev pub statuses_for : List Permutation → List CosyStatus
statuses_for [] = []
statuses_for (p ∷ ps) = new_status ∷ statuses_for ps

-- for (const unsigned int& index : ...) _statuses[index]->addLookupLiteral(literal);
unfoldable pub add_lookup_to : Literal → List ℕ → List CosyStatus → Option (List CosyStatus)
add_lookup_to l [] statuses = some statuses
add_lookup_to l (index ∷ rest) statuses = do
  s ← get_elem? statuses index
  add_lookup_to l rest (set statuses index (add_lookup_literal l s))

unfoldable pub add_lookups : Group → List Literal → List CosyStatus → Option (List CosyStatus)
add_lookups g [] statuses = some statuses
add_lookups g (l ∷ rest) statuses = do
  indexes ← watch g (variable l)
  statuses' ← add_lookup_to l indexes statuses
  add_lookups g rest statuses'

unfoldable pub define_order : Group → Order → CosyManager → Option CosyManager
define_order g o m = do
  statuses ← add_lookups g o.literals (m.statuses ++ statuses_for g.permutations)
  some (record { order = some o; statuses = statuses })

-- The statuses with their permutations.
unfoldable pub units_loop :
    Option Order → List Permutation → List CosyStatus → ClauseInjector → Option ClauseInjector
units_loop order permutations [] injector = some injector
units_loop order [] (s ∷ ss) injector = none
units_loop order (p ∷ ps) (s ∷ ss) injector = do
  o ← order
  injector' ← generate_unit_clause_on_inverting p o s injector
  units_loop order ps ss injector'

unfoldable pub generate_units : Group → CosyManager → ClauseInjector → Option ClauseInjector
generate_units g m injector = units_loop m.order g.permutations m.statuses injector

-- What follows the notification of one status; the flag says that the walk goes on.
unfoldable pub inject_after_notify :
    Permutation
    → Assignment
    → Literal
    → CosyStatus
    → ClauseInjector
    → Option (ClauseInjector × Bool)
inject_after_notify p a l s injector =
    if flags_esbp && is_reducer s.state
    then (generate_esbp p a (variable l) s injector >>= λ injector'. some (injector', false))
    else if flags_esbp_forcing && is_force_lex_leader s.state
    then (generate_force_lex_leader_esbp p a (variable l) s injector >>= λ injector'.
        some (injector', true))
    else some (injector, true)

unfoldable pub notify_statuses :
    Option Order
    → List Permutation
    → Assignment
    → Literal
    → List ℕ
    → List CosyStatus
    → ClauseInjector
    → Option (List CosyStatus × ClauseInjector)
notify_statuses order permutations a l [] statuses injector = some (statuses, injector)
notify_statuses order permutations a l (index ∷ rest) statuses injector = do
  s ← get_elem? statuses index
  p ← get_elem? permutations index
  o ← order
  s' ← CosyStatus.update_notify p o a l s
  (injector', goes_on) ← inject_after_notify p a l s' injector
  let statuses' = set statuses index s'
  let later = notify_statuses order permutations a l rest statuses' injector'
  if goes_on then later else some (statuses', injector')

unfoldable pub update_notify :
    Group
    → Assignment
    → Literal
    → CosyManager
    → ClauseInjector
    → Option (CosyManager × ClauseInjector)
update_notify g a l m injector = do
  indexes ← watch g (variable l)
  (statuses, injector') ← notify_statuses m.order g.permutations a l indexes m.statuses injector
  some (record m { statuses = statuses }, injector')

unfoldable pub cancel_statuses : Literal → List ℕ → List CosyStatus → Option (List CosyStatus)
cancel_statuses l [] statuses = some statuses
cancel_statuses l (index ∷ rest) statuses = do
  s ← get_elem? statuses index
  cancel_statuses l rest (set statuses index (CosyStatus.update_cancel l s))

unfoldable pub update_cancel : Group → Literal → CosyManager → Option CosyManager
update_cancel g l m = do
  indexes ← watch g (variable l)
  statuses ← cancel_statuses l indexes m.statuses
  some (record m { statuses = statuses })
