-- ===== src/SymmetryController/Load/Tests.antt =====
-- A problem with a file of generators, and one with a tool, and the theorems applied to them.
use sat_symmetry.Prelude.{
  ℕ, ◌≡◌, refl, arith, ◌&&◌, some, List, [], ◌∷◌, ◌==◌, if◌then◌else◌, length, replicate,
  length-replicate,
}
use sat_symmetry.Prelude.Outcome.{done}
use sat_symmetry.Literal.{variable, is_positive, signed_value, literal}
use sat_symmetry.Order.{sort}
use sat_symmetry.CnfModel.{
  CnfModel, new_cnf_model, add_model_clause, count_literal, number_of_model_variables,
}
use sat_symmetry.Group.{Group, new_group}
use sat_symmetry.CnfGraph.{
  assign, new_graph, add_clauses, add_consistency, add_edge, add_node, color_variables,
  color_clauses, literal2node, change_color, degree,
}
use sat_symmetry.StreamBuffer.{buffer_size}
use sat_symmetry.StreamBuffer.Tests.{by_one, all, by_one-IsFile}
use sat_symmetry.StreamBuffer.Decimal.{decimal_digits}
use sat_symmetry.CnfReader.Printed.{Line, clause, file_text, add_lines}
use sat_symmetry.CnfReader.Tests.{blank, lengths, lines}
use sat_symmetry.CnfReader.Tests
use sat_symmetry.SaucyReader.Printed.{add_generators}
use sat_symmetry.SaucyReader.Tests.{swap}
use sat_symmetry.SaucyReader.Tests as SaucyTests
use sat_symmetry.SymmetryFinder.{Tools, bliss, create_finder, call_back}
use sat_symmetry.SymmetryFinder.Nodes.{image_at}
use sat_symmetry.SymmetryFinder.Found.{reports}
use sat_symmetry.SymmetryFinder.Tests.{swap_nodes, swap_nodes-IsAutomorphism}
use sat_symmetry.SymmetryController.{loaded, not_loaded}
use sat_symmetry.SymmetryController.Load.{from_files, with_finder}
use sat_symmetry.SymmetryController.Load.Laws.{from_files_lem, with_finder_lem}

abbrev buffer : List ℕ
buffer = replicate buffer_size 0

buffer_room : length buffer ≡ buffer_size
buffer_room = length-replicate {A = ℕ} buffer_size 0

-- The model of the clauses 1 -2 and 2.
abbrev model : CnfModel
model = record {
  num_variables = 1;
  num_clauses = 2;
  num_unary_clauses = 1;
  num_binary_clauses = 1;
  num_ternary_clauses = 0;
  num_large_clauses = 0;
  clauses = (0 ∷ 3 ∷ []) ∷ (2 ∷ []) ∷ [];
  clauses_tag = 2 ∷ 1 ∷ [];
  positive_occurences = 1 ∷ 1 ∷ [];
  negative_occurences = 0 ∷ 1 ∷ [];
  occurences = 1 ∷ 2 ∷ [];
}

model_added : add_lines lengths lines new_cnf_model ≡ some model
unfolding add_model_clause sort new_cnf_model count_literal number_of_model_variables variable
    is_positive signed_value
model_added = refl

from_files_example :
    (g : Group) × (add_generators (number_of_model_variables model) (swap ∷ []) new_group ≡ some g)
    × (from_files by_one blank lengths 30 7 buffer Tests.characters buffer SaucyTests.characters
        ≡ done (
            if number_of_model_variables model == 2 && model.num_clauses == 2
            then loaded (number_of_model_variables model) model.occurences g
            else not_loaded 7 model.occurences))
unfolding number_of_model_variables variable
from_files_example =
    from_files_lem by_one blank all by_one-IsFile (λ c. refl) lengths 30 7 buffer Tests.characters
      buffer_room 2 2 lines Tests.printed
      (
        ((omega arith, omega arith), tt),
        ((omega arith, (omega arith, tt)), ((omega arith, tt), tt)),
      )
      (omega arith) (omega arith) (omega arith) model model_added buffer SaucyTests.characters
      (swap ∷ []) buffer_room SaucyTests.printed
      (
        (
          λ e. cc,
          (
            (omega arith, (omega arith, (omega arith, tt))),
            ((omega arith, (omega arith, (omega arith, tt))), tt),
          ),
        ),
        tt,
      )
      (omega arith) (omega arith)

-- The clause 1 2, and tools that report the automorphism of its graph.
abbrev pair : List Line
pair = clause (0 ∷ 2 ∷ []) ∷ []

-- "p cnf 2 1" and "1 2 0".
abbrev pair_characters : List ℕ
pair_characters =
    112 ∷ 32 ∷ 99 ∷ 110 ∷ 102 ∷ 32 ∷ 50 ∷ 32 ∷ 49 ∷ 10 ∷ 49 ∷ 32 ∷ 50 ∷ 32 ∷ 48 ∷ 10 ∷ []

pair_printed : pair_characters ≡ file_text 2 1 pair
unfolding decimal_digits signed_value
pair_printed = refl

abbrev pair_model : CnfModel
pair_model = record {
  num_variables = 1;
  num_clauses = 1;
  num_unary_clauses = 0;
  num_binary_clauses = 1;
  num_ternary_clauses = 0;
  num_large_clauses = 0;
  clauses = (0 ∷ 2 ∷ []) ∷ [];
  clauses_tag = 2 ∷ [];
  positive_occurences = 1 ∷ 1 ∷ [];
  negative_occurences = 0 ∷ 0 ∷ [];
  occurences = 1 ∷ 1 ∷ [];
}

pair_added : add_lines lengths pair new_cnf_model ≡ some pair_model
unfolding add_model_clause sort new_cnf_model count_literal number_of_model_variables variable
    is_positive signed_value
pair_added = refl

abbrev tools : Tools
tools = record {
  BlissGraph = ℕ;
  bliss_graph = λ n. n;
  bliss_change_color = λ node c b. b;
  bliss_add_edge = λ x y b. b;
  bliss_find_automorphisms = λ b. swap_nodes ∷ [];
  saucy_search = λ n e adj edg colors. swap_nodes ∷ [];
}

with_finder_example :
    let finder = create_finder pair_model bliss in
    (g : Group) × (call_back finder.num_vars finder.graph.num_nodes (reports tools finder) new_group
      ≡ some g)
    × (with_finder by_one blank lengths 20 7 tools buffer pair_characters bliss
        ≡ done (
            if number_of_model_variables pair_model == 2 && pair_model.num_clauses == 1
            then loaded (number_of_model_variables pair_model) pair_model.occurences g
            else not_loaded 7 pair_model.occurences))
unfolding create_finder number_of_model_variables assign new_graph add_clauses add_consistency
    add_edge add_node color_variables color_clauses literal2node literal variable is_positive
    change_color degree
with_finder_example =
    with_finder_lem by_one blank all by_one-IsFile (λ c. refl) lengths 20 7 buffer pair_characters
      buffer_room 2 1 pair pair_printed ((omega arith, (omega arith, tt)), tt) (omega arith)
      (omega arith) (omega arith) pair_model pair_added tools bliss
      ((image_at swap_nodes, swap_nodes-IsAutomorphism), tt)
