-- ===== src/CnfGraph/Tests.antt =====
-- The graph of one clause of two literals, and the theorems applied to it.
use sat_symmetry.Prelude.{◌≡◌, refl, [], ◌∷◌}
use sat_symmetry.Literal.{variable, literal, is_positive}
use sat_symmetry.CnfModel.{CnfModel, new_cnf_model, number_of_model_variables}
use sat_symmetry.CnfGraph.{
  new_graph, literal2node, add_edge, add_node, assign, add_clauses, add_consistency,
  color_variables, color_clauses, degree,
}
use sat_symmetry.CnfGraph.Laws.{IsGraph}

abbrev one_clause : CnfModel
one_clause = record new_cnf_model { num_variables = 1; clauses = (0 ∷ 3 ∷ []) ∷ [] }

-- Variable 0 has the nodes 0 and 2, variable 1 the nodes 1 and 3.
graph_of_one_clause : assign one_clause new_graph ≡ record {
  num_nodes = 4;
  num_edges = 3;
  adjacency = (3 ∷ 2 ∷ []) ∷ (3 ∷ []) ∷ (0 ∷ []) ∷ (0 ∷ 1 ∷ []) ∷ [];
  colors = 0 ∷ 0 ∷ 0 ∷ 0 ∷ [];
}
unfolding assign new_cnf_model number_of_model_variables new_graph add_clauses add_edge add_node
    literal2node literal variable is_positive add_consistency color_variables color_clauses degree
graph_of_one_clause = refl

new_graph-IsGraph : IsGraph new_graph
unfolding new_graph
new_graph-IsGraph = record { adjacency_size = refl; colors_size = refl }
