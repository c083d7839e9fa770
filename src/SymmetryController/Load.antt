-- ===== src/SymmetryController/Load.antt =====
-- include/cosy/SymmetryController.h, loadCNFProblem and the two constructors. Each stream has
-- a buffer of its own. `left` is the value of the member `_num_vars` that a constructor leaves
-- unset when the CNF file is not well formed. The messages of the log are left out.
pub mod Laws
pub mod Tests
use sat_symmetry.Prelude.{ℕ, Bool, true, false, Option, List}
use sat_symmetry.Prelude.Int.{ℤ}
use sat_symmetry.Prelude.Outcome.{Outcome, done, ◌>>=◌, run}
use sat_symmetry.CnfModel.{CnfModel, new_cnf_model, number_of_model_variables}
use sat_symmetry.Group.{Group, new_group}
use sat_symmetry.CnfReader
use sat_symmetry.SaucyReader
use sat_symmetry.SymmetryFinder.{Tools, Automorphism, create_finder, find_automorphism}
use sat_symmetry.SymmetryController.{SymmetryController, loaded, not_loaded}

module _ {F : Type 0} (gzread : F → ℕ → Option (List ℕ) × F) (is_space : ℕ → Bool)
    (hash : List ℤ → ℕ) (fuel left : ℕ) where
  -- What `loadCNFProblem` returns, and the model.
  unfoldable pub load_cnf_problem : List ℕ → F → Outcome (Bool × CnfModel)
  load_cnf_problem buffer cnf_file = do
    (success, model) ← CnfReader.load_file gzread is_space hash fuel buffer cnf_file new_cnf_model
    done (success, model)

  -- The constructor that is given a file of generators.
  unfoldable pub from_files : List ℕ → F → List ℕ → F → Outcome SymmetryController
  unfolding load_cnf_problem
  from_files buffer cnf_file sym_buffer sym_file = do
    (success, model) ← load_cnf_problem buffer cnf_file
    elim success [
      | false ↦ done (not_loaded left model.occurences)
      | true ↦
          let num_vars = number_of_model_variables model in
          SaucyReader.load_file gzread is_space fuel sym_buffer sym_file num_vars new_group
          >>= λ (success, g). done (loaded num_vars model.occurences g)
    ]

  -- The constructor that is given a tool.
  unfoldable pub with_finder : Tools → List ℕ → F → Automorphism → Outcome SymmetryController
  unfolding load_cnf_problem
  with_finder tools buffer cnf_file tool = do
    (success, model) ← load_cnf_problem buffer cnf_file
    elim success [
      | false ↦ done (not_loaded left model.occurences)
      | true ↦ run (find_automorphism tools (create_finder model tool) new_group) >>= λ g.
          done (loaded (number_of_model_variables model) model.occurences g)
    ]
