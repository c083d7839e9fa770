-- ===== src/SymmetryFinder/Tests.antt =====
-- The graph of the clause 1 2, whose automorphism swaps the two variables, and the theorems applied
-- to it.
use sat_symmetry.Prelude.{
  ℕ, zero, suc, ◌*◌, ◌<◌, ◌≡◌, refl, arith, false, none, some, List, [], ◌∷◌, ◌++◌, ◌==◌, ltb,
  if◌then◌else◌, get_or,
}
use sat_symmetry.Literal.{Literal, variable, is_positive, literal, negated, from_signed}
use sat_symmetry.Permutation.{Permutation, image_of}
use sat_symmetry.Permutation.Building.{IsBuilding, is_open}
use sat_symmetry.Group.{Group, new_group}
use sat_symmetry.CnfModel.{CnfModel, new_cnf_model, number_of_model_variables}
use sat_symmetry.CnfGraph.{
  CnfGraph, literal2node, node2literal, neighbour, color, assign, new_graph, add_clauses, add_star,
  add_edge, add_node, add_consistency, color_variables, color_clauses, change_color, degree,
}
use sat_symmetry.SymmetryFinder.Colors.{KeepsColors, create_finder-IsAutomorphism}
use sat_symmetry.SymmetryFinder.{
  permutation_of, on_automorphism, ends_of, edges_of, colors_of, create_finder, bliss,
}
use sat_symmetry.SymmetryFinder.Nodes.{IsAutomorphism, image_at}
use sat_symmetry.SymmetryFinder.Built.{permutation_of_lem}
use sat_symmetry.SymmetryFinder.Kept.{Commutes, Images, on_automorphism_lem}
use sat_symmetry.SymmetryFinder.Vectors.{part, vectors_lem}

abbrev pub swap_nodes : List ℕ
swap_nodes = 1 ∷ 0 ∷ 3 ∷ 2 ∷ []

pub swap_nodes-IsAutomorphism : IsAutomorphism 4 2 swap_nodes (image_at swap_nodes)
swap_nodes-IsAutomorphism = record {
  size = refl;
  room = omega arith;
  inside = λ node lt. (facts node lt).0;
  goes_back = λ node lt. (facts node lt).1;
  kind = λ node lt. (facts node lt).2;
}
  where
    facts :
        (node : ℕ)
        → node < 4
        → (image_at swap_nodes node < 4)
          × (image_at swap_nodes (image_at swap_nodes node) ≡ node)
          × (ltb (image_at swap_nodes node) (2 * 2) ≡ ltb node (2 * 2))
    facts zero lt = (omega arith, refl, refl)
    facts (suc zero) lt = (omega arith, refl, refl)
    facts (suc (suc zero)) lt = (omega arith, refl, refl)
    facts (suc (suc (suc zero))) lt = (omega arith, refl, refl)
    facts (suc (suc (suc (suc node)))) lt = absurd (omega arith)

permutation_of_example :
    (p : Permutation) × (permutation_of 4 swap_nodes 2 ≡ some p)
    × IsBuilding p
    × (is_open p ≡ false)
    × ((l : Literal)
        → variable l < 2
        → let node = literal2node l 2 in
          image_of p l ≡ (
            if image_at swap_nodes node == node
            then none
            else node2literal (image_at swap_nodes node) 2))
permutation_of_example =
    permutation_of_lem 4 2 swap_nodes (image_at swap_nodes) swap_nodes-IsAutomorphism

swap_nodes-Commutes : Commutes 2 swap_nodes
unfolding literal2node node2literal variable is_positive negated from_signed
swap_nodes-Commutes zero x lt maps = cc
swap_nodes-Commutes (suc zero) x lt maps = cc
swap_nodes-Commutes (suc (suc zero)) x lt maps = cc
swap_nodes-Commutes (suc (suc (suc zero))) x lt maps = cc
swap_nodes-Commutes (suc (suc (suc (suc l)))) x lt maps = absurd (omega arith)

on_automorphism_example :
    (p : Permutation) × (group : Group) × (on_automorphism 2 4 swap_nodes new_group ≡ some group)
    × (group.permutations ≡ new_group.permutations ++ p ∷ [])
    × Images 4 2 swap_nodes (image_at swap_nodes) swap_nodes-IsAutomorphism swap_nodes-Commutes p
unfolding literal2node variable is_positive
on_automorphism_example =
    on_automorphism_lem 4 2 swap_nodes (image_at swap_nodes) swap_nodes-IsAutomorphism
      swap_nodes-Commutes 0 new_group (omega arith) refl

-- Three nodes, of which the second one has two neighbours.
abbrev path_graph : CnfGraph
path_graph = record {
  num_nodes = 3;
  num_edges = 2;
  adjacency = (1 ∷ []) ∷ (0 ∷ 2 ∷ []) ∷ (1 ∷ []) ∷ [];
  colors = 1 ∷ 0 ∷ 1 ∷ [];
}

vectors_example :
    (part
        (get_or (0 ∷ ends_of 3 0 0 path_graph) 1 0)
        (get_or (0 ∷ ends_of 3 0 0 path_graph) 2 0)
        (edges_of 3 0 path_graph)
      ≡ neighbour path_graph 1)
    × (get_or (colors_of 3 0 path_graph) 1 0 ≡ color path_graph 1)
vectors_example = vectors_lem path_graph 1 (omega arith)

-- The clause 1 2 3, and the automorphism of its graph that swaps the first two variables.
abbrev three_model : CnfModel
three_model = record new_cnf_model { num_variables = 2; clauses = (0 ∷ 2 ∷ 4 ∷ []) ∷ [] }

abbrev swap_two : List ℕ
swap_two = 1 ∷ 0 ∷ 2 ∷ 4 ∷ 3 ∷ 5 ∷ 6 ∷ []

abbrev three_graph : CnfGraph
three_graph = (create_finder three_model bliss).graph

swap_two-KeepsColors : KeepsColors three_graph swap_two (image_at swap_two)
unfolding create_finder assign new_graph new_cnf_model number_of_model_variables add_clauses
    add_star add_edge add_node literal2node variable is_positive literal add_consistency
    color_variables color_clauses change_color degree color
swap_two-KeepsColors = record {
  size = refl;
  inside = λ node lt. (facts node lt).0;
  goes_back = λ node lt. (facts node lt).1;
  same_color = λ node lt. (facts node lt).2;
}
  where
    facts :
        (node : ℕ)
        → node < 7
        → (image_at swap_two node < 7)
          × (image_at swap_two (image_at swap_two node) ≡ node)
          × (color three_graph (image_at swap_two node) ≡ color three_graph node)
    facts zero lt = (omega arith, refl, refl)
    facts (suc zero) lt = (omega arith, refl, refl)
    facts (suc (suc zero)) lt = (omega arith, refl, refl)
    facts (suc (suc (suc zero))) lt = (omega arith, refl, refl)
    facts (suc (suc (suc (suc zero)))) lt = (omega arith, refl, refl)
    facts (suc (suc (suc (suc (suc zero))))) lt = (omega arith, refl, refl)
    facts (suc (suc (suc (suc (suc (suc zero)))))) lt = (omega arith, refl, refl)
    facts (suc (suc (suc (suc (suc (suc (suc node))))))) lt = absurd (omega arith)

create_finder_example :
    let finder = create_finder three_model bliss in
    IsAutomorphism finder.graph.num_nodes finder.num_vars swap_two (image_at swap_two)
unfolding number_of_model_variables variable new_cnf_model
create_finder_example =
    create_finder-IsAutomorphism three_model bliss swap_two (image_at swap_two)
      ((omega arith, (omega arith, (omega arith, tt))), tt) swap_two-KeepsColors
