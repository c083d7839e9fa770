-- ===== src/ClauseInjector.antt =====
-- include/cosy/ClauseInjector.h and src/ClauseInjector.cc: clauses that wait for the solver, by
-- kind and by the variable that caused them. The cause kNoBooleanVariable is `none`. The vector of
-- a cause has its back at the head of the list. Of the statistics only the three counters are kept.
pub mod Laws
use sat_symmetry.Prelude.{
  ℕ, suc, ◌+◌, ◌≤◌, ◌≡◌, Bool, true, false, not, ◌||◌, Option, none, some, List, [], ◌∷◌, ◌==◌,
  if◌then◌else◌, length,
}
use sat_symmetry.Literal.{Literal}
use sat_symmetry.Injector.{Injector, Cause, new_injector}
use sat_symmetry.Injector

pub data InjectorType : Type 0 where
  units esbp esbp_forcing : InjectorType

pub record Stats : Type 0 where
  pub units_given : ℕ
  pub esbp_given : ℕ
  pub esbp_forcing_given : ℕ

pub record ClauseInjector : Type 0 where
  pub units_injector : Injector
  pub esbp_injector : Injector
  pub esbp_forcing_injector : Injector
  pub stats : Stats

unfoldable pub new_clause_injector : ClauseInjector
new_clause_injector = record {
  units_injector = new_injector;
  esbp_injector = new_injector;
  esbp_forcing_injector = new_injector;
  stats = record { units_given = 0; esbp_given = 0; esbp_forcing_given = 0 };
}

-- `_injectors[type]`, read and written.
unfoldable pub injector_of : InjectorType → ClauseInjector → Injector
injector_of units c = c.units_injector
injector_of esbp c = c.esbp_injector
injector_of esbp_forcing c = c.esbp_forcing_injector

unfoldable pub set_injector : InjectorType → Injector → ClauseInjector → ClauseInjector
set_injector units i c = record c { units_injector = i }
set_injector esbp i c = record c { esbp_injector = i }
set_injector esbp_forcing i c = record c { esbp_forcing_injector = i }

-- The `switch` of `getClause`.
unfoldable pub count_given : InjectorType → ClauseInjector → ClauseInjector
count_given units c = record c { stats = record s { units_given = s.units_given + 1 } }
  where
    s : Stats
    s = c.stats
count_given esbp c = record c { stats = record s { esbp_given = s.esbp_given + 1 } }
  where
    s : Stats
    s = c.stats
count_given esbp_forcing c = record c {
  stats = record s { esbp_forcing_given = s.esbp_forcing_given + 1 };
}
  where
    s : Stats
    s = c.stats

unfoldable pub add_clause : InjectorType → Cause → List Literal → ClauseInjector → ClauseInjector
add_clause type cause literals c =
    set_injector type (Injector.add_clause cause literals (injector_of type c)) c

-- `removeClause(Type, BooleanVariable)`
unfoldable pub remove_clause_of : InjectorType → Cause → ClauseInjector → ClauseInjector
remove_clause_of type cause c =
    set_injector type (Injector.remove_clause cause (injector_of type c)) c

unfoldable pub has_clause : ClauseInjector → InjectorType → Cause → Bool
has_clause c type cause = Injector.has_clause (injector_of type c) cause

unfoldable pub get_clause :
    InjectorType → Cause → ClauseInjector → Option (List Literal × ClauseInjector)
get_clause type cause c = elim (Injector.get_clause cause (injector_of type c)) [
  | none ↦ none
  | some (literals, i) ↦ some (literals, set_injector type i (count_given type c))
]

-- `removeClause(BooleanVariable)`: from every injector.
unfoldable pub remove_clause : Cause → ClauseInjector → ClauseInjector
remove_clause cause c = record c {
  units_injector = Injector.remove_clause cause c.units_injector;
  esbp_injector = Injector.remove_clause cause c.esbp_injector;
  esbp_forcing_injector = Injector.remove_clause cause c.esbp_forcing_injector;
}
