-- ===== src/SymmetryController.antt =====
-- include/cosy/SymmetryController.h: what a solver calls. `T` is the solver's literal, and
-- `convert_to` and `convert_from` are the two methods of the LiteralAdapter that it supplies. The
-- constructors, which read files and may call a symmetry finder, are in the child Load. `none` of
-- `cosy_manager` is the null pointer. Printing is left out.
pub mod Laws
pub mod Run
pub mod Begin
pub mod Load
pub mod Tests
use sat_symmetry.Prelude.{
  ℕ, Bool, Option, none, some, List, [], ◌∷◌, ◌==◌, if◌then◌else◌, map, ◌>>=◌,
}
use sat_symmetry.Literal.{Literal, variable}
use sat_symmetry.Assignment.{
  Assignment, empty_assignment, resize, assign_from_true_literal, unassign_literal,
}
use sat_symmetry.Injector.{no_boolean_variable}
use sat_symmetry.ClauseInjector.{
  ClauseInjector, InjectorType, new_clause_injector, has_clause, get_clause, remove_clause,
}
use sat_symmetry.Order.{Order, OrderMode, ValueMode}
use sat_symmetry.Orbits.{Classes}
use sat_symmetry.OrderFactory.{create}
use sat_symmetry.Group.{Group, new_group, number_of_permutations}
use sat_symmetry.CosyManager.{CosyManager, new_cosy_manager, define_order, generate_units}
use sat_symmetry.CosyManager

pub record SymmetryController : Type 0 where
  pub num_vars : ℕ
  pub group : Group
  pub occurences : List ℕ
  pub assignment : Assignment
  pub injector : ClauseInjector
  pub cosy_manager : Option CosyManager

-- After `loadCNFProblem` and the reading or the finding of the permutations.
unfoldable pub loaded : ℕ → List ℕ → Group → SymmetryController
loaded num_vars occurences g = record {
  num_vars = num_vars;
  group = g;
  occurences = occurences;
  assignment = resize num_vars empty_assignment;
  injector = new_clause_injector;
  cosy_manager = none;
}

-- After a constructor that returned early: the model is as far as it was read.
unfoldable pub not_loaded : ℕ → List ℕ → SymmetryController
not_loaded num_vars occurences = record {
  num_vars = num_vars;
  group = new_group;
  occurences = occurences;
  assignment = empty_assignment;
  injector = new_clause_injector;
  cosy_manager = none;
}

unfoldable pub enable_cosy :
    (Classes → Classes) → OrderMode → ValueMode → SymmetryController → Option SymmetryController
enable_cosy walk vars value c = if number_of_permutations c.group == 0 then some c else enabled
  where
    enabled : Option SymmetryController
    enabled = do
      o ← create walk vars value c.num_vars c.occurences c.group
      m ← define_order c.group o new_cosy_manager
      injector ← generate_units c.group m c.injector
      some (record c { cosy_manager = some m; injector = injector })

-- `if (_cosy_manager) _cosy_manager->updateNotify(literal_c, &_injector);`
unfoldable pub notify_manager :
    Group
    → Assignment
    → Literal
    → Option CosyManager
    → ClauseInjector
    → Option (Option CosyManager × ClauseInjector)
notify_manager g a l none injector = some (none, injector)
notify_manager g a l (some m) injector = do
  (m', injector') ← CosyManager.update_notify g a l m injector
  some (some m', injector')

unfoldable pub cancel_manager : Group → Literal → Option CosyManager → Option (Option CosyManager)
cancel_manager g l none = some none
cancel_manager g l (some m) = do m' ← CosyManager.update_cancel g l m; some (some m')

module _ {ℓ} {T : Type ℓ} (convert_to : T → Literal) (convert_from : Literal → T) where
  unfoldable pub update_notify : T → SymmetryController → Option SymmetryController
  update_notify literal_s c = do
    let literal_c = convert_to literal_s
    let a = assign_from_true_literal literal_c c.assignment
    (m, injector) ← notify_manager c.group a literal_c c.cosy_manager c.injector
    some (record c { assignment = a; cosy_manager = m; injector = injector })

  unfoldable pub update_cancel : T → SymmetryController → Option SymmetryController
  update_cancel literal_s c = do
    let literal_c = convert_to literal_s
    let a = unassign_literal literal_c c.assignment
    m ← cancel_manager c.group literal_c c.cosy_manager
    some (record c {
      assignment = a;
      cosy_manager = m;
      injector = remove_clause (some (variable literal_c)) c.injector;
    })

  unfoldable pub has_clause_to_inject : InjectorType → T → SymmetryController → Bool
  has_clause_to_inject type literal_s c =
      has_clause c.injector type (some (variable (convert_to literal_s)))

  unfoldable pub adapt_vector : List Literal → List T
  adapt_vector [] = []
  adapt_vector (l ∷ ls) = convert_from l ∷ adapt_vector ls

  unfoldable pub clause_to_inject :
      InjectorType → T → SymmetryController → Option (List T × SymmetryController)
  clause_to_inject type literal_s c = do
    (literals, injector) ← get_clause type (some (variable (convert_to literal_s))) c.injector
    some (adapt_vector literals, record c { injector = injector })

  -- The two methods without a literal.
  unfoldable pub has_unit_to_inject : InjectorType → SymmetryController → Bool
  has_unit_to_inject type c = has_clause c.injector type no_boolean_variable

  unfoldable pub unit_to_inject :
      InjectorType → SymmetryController → Option (List T × SymmetryController)
  unit_to_inject type c = do
    (literals, injector) ← get_clause type no_boolean_variable c.injector
    some (adapt_vector literals, record c { injector = injector })
