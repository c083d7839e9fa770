-- ===== src/SymmetryController/Load/Laws.antt =====
-- SymmetryController.h: what the constructors make of well-formed files.
use sat_symmetry.Prelude.{
  ℕ, ◌*◌, ◌^◌, ◌<◌, ◌≡◌, ◌∙◌, Bool, ◌&&◌, Option, some, List, ◌==◌, if◌then◌else◌, length, All,
  Bool-cases, inl, inr,
}
use sat_symmetry.Prelude.Int.{ℤ}
use sat_symmetry.Prelude.Outcome.{done, ◌>>=◌}
use sat_symmetry.CnfModel.{CnfModel, new_cnf_model, number_of_model_variables}
use sat_symmetry.Group.{Group, new_group}
use sat_symmetry.StreamBuffer.{buffer_size}
use sat_symmetry.StreamBuffer.Laws.{IsFile}
use sat_symmetry.StreamBuffer.Decimal.{IsBlank}
use sat_symmetry.CnfReader.Printed.{Line, IsLine, add_lines}
use sat_symmetry.CnfReader.Printed
use sat_symmetry.CnfReader.File.{load_file-file_text}
use sat_symmetry.SaucyReader.Printed.{Generator, IsGenerator, add_generators}
use sat_symmetry.SaucyReader.Printed as Generators
use sat_symmetry.SaucyReader.File.{load_file-generators}
use sat_symmetry.SymmetryFinder.{Tools, Automorphism, create_finder, call_back}
use sat_symmetry.SymmetryFinder.Nodes.{IsAutomorphism}
use sat_symmetry.SymmetryFinder.Found.{reports, find_automorphism_lem, call_back_total}
use sat_symmetry.SymmetryController.{loaded, not_loaded}
use sat_symmetry.SymmetryController.Load.{load_cnf_problem, from_files, with_finder}

module _ {F : Type 0} (gzread : F → ℕ → Option (List ℕ) × F) (is_space : ℕ → Bool)
    (content : F → List ℕ) (file : IsFile gzread content) (blank : IsBlank is_space)
    (hash : List ℤ → ℕ) (fuel left : ℕ) (buffer : List ℕ) (f : F)
    (room : length buffer ≡ buffer_size) (vars clauses : ℕ) (lines : List Line)
    (printed : content f ≡ Printed.file_text vars clauses lines) (good : All IsLine lines)
    (enough : length (content f) < fuel) (few_vars : vars < 2 ^ 31) (few_clauses : clauses < 2 ^ 31)
    (m : CnfModel) (added : add_lines hash lines new_cnf_model ≡ some m) where
  -- Whether the numbers of the header are those of the model.
  abbrev pub matches : Bool
  matches = number_of_model_variables m == vars && m.num_clauses == clauses

  load_cnf_problem_lem :
      load_cnf_problem gzread is_space hash fuel left buffer f ≡ done (matches, m)
  unfolding load_cnf_problem
  load_cnf_problem_lem = rw (
    load_file-file_text gzread is_space content file hash fuel buffer f room new_cnf_model vars
        clauses lines blank printed good enough few_vars few_clauses,
    added,
  )

  -- Where gzread gives the characters of the files in pieces, without an error and no empty piece
  -- before the end, with fuel above the numbers of characters, and for the text of a problem (with
  -- numbers and indexes of literals below 2 ^ 31) without empty clauses, and the text of
  -- generators of its variables (with cycles of two or more literals, twice as many variables
  -- being below 2 ^ 31), the constructor ends; it gives the controller of the model and of the
  -- group with the permutations of all generators if the numbers of the header are those of the
  -- model, and otherwise that of the occurences of the model, without values and permutations,
  -- whose number of variables is not set.
  pub from_files_lem :
      (sym_buffer : List ℕ) (sym : F) (gs : List Generator)
      → length sym_buffer ≡ buffer_size
      → content sym ≡ Generators.file_text (number_of_model_variables m) gs
      → All (IsGenerator (number_of_model_variables m)) gs
      → length (content sym) < fuel
      → 2 * number_of_model_variables m < 2 ^ 31
      → (g : Group) × (add_generators (number_of_model_variables m) gs new_group ≡ some g)
        × (from_files gzread is_space hash fuel left buffer f sym_buffer sym
            ≡ done (
                if matches
                then loaded (number_of_model_variables m) m.occurences g
                else not_loaded left m.occurences))
  unfolding from_files
  from_files_lem sym_buffer sym gs sym_room sym_printed sym_good sym_enough few =
      let (g, all, read) =
        load_file-generators gzread is_space content file fuel sym_buffer sym sym_room
          (number_of_model_variables m) new_group gs blank sym_printed sym_good sym_enough few in
      (
        g,
        all,
        elim (Bool-cases matches) [
          | inl ok ↦ rw (from_files, load_cnf_problem_lem, ok, ◌>>=◌, read)
          | inr bad ↦ rw (from_files, load_cnf_problem_lem, bad)
        ],
      )

  -- Where gzread gives the characters of the files in pieces, without an error and no empty piece
  -- before the end, with fuel above the numbers of characters, and for the text of a problem (with
  -- numbers and indexes of literals below 2 ^ 31) without empty clauses, the constructor with a
  -- tool ends, if all that the tool reports for the graph of the model are one-to-one maps that
  -- take exactly the nodes of literals to nodes of literals; it gives the controller of the model
  -- and of the group that the callbacks make if the numbers of the header are those of the model,
  -- and otherwise that of the occurences of the model, without values and permutations, whose
  -- number of variables is not set.
  pub with_finder_lem :
      (tools : Tools) (tool : Automorphism)
      → let finder = create_finder m tool in
        All
          (λ aut. (back : ℕ → ℕ) × IsAutomorphism finder.graph.num_nodes finder.num_vars aut back)
          (reports tools finder)
        → (g : Group) × (call_back finder.num_vars finder.graph.num_nodes
              (reports tools finder)
              new_group
            ≡ some g)
          × (with_finder gzread is_space hash fuel left tools buffer f tool
              ≡ done (
                  if matches
                  then loaded (number_of_model_variables m) m.occurences g
                  else not_loaded left m.occurences))
  unfolding with_finder
  with_finder_lem tools tool symmetric =
      let finder = create_finder m tool in
      let (g, called) =
        call_back_total finder.num_vars finder.graph.num_nodes (reports tools finder) new_group
          symmetric in
      let found = find_automorphism_lem tools finder new_group ∙ called in
      (
        g,
        called,
        elim (Bool-cases matches) [
          | inl ok ↦ rw (with_finder, load_cnf_problem_lem, ok, ◌>>=◌, found)
          | inr bad ↦ rw (with_finder, load_cnf_problem_lem, bad)
        ],
      )
