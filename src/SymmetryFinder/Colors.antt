-- ===== src/SymmetryFinder/Colors.antt =====
-- What bliss and saucy promise of an automorphism, and what the finders ask of it.
use sat_symmetry.Prelude.{ℕ, ◌<◌, ◌≡◌, arith, length, List}
use sat_symmetry.CnfModel.{CnfModel, number_of_model_variables}
use sat_symmetry.CnfGraph.{CnfGraph, color}
use sat_symmetry.CnfGraph.Colors.{InRange, color-assign}
use sat_symmetry.SymmetryFinder.{Automorphism, create_finder}
use sat_symmetry.SymmetryFinder.Nodes.{IsAutomorphism, image_at}

-- A one-to-one map of the nodes that keeps their colors; `back` is its inverse.
pub record KeepsColors (g : CnfGraph) (aut : List ℕ) (back : ℕ → ℕ) : Type 0 where
  pub size : length aut ≡ g.num_nodes
  pub inside : (node : ℕ) → node < g.num_nodes → image_at aut node < g.num_nodes
  pub goes_back : (node : ℕ) → node < g.num_nodes → back (image_at aut node) ≡ node
  pub same_color : (node : ℕ) → node < g.num_nodes → color g (image_at aut node) ≡ color g node

-- For a model whose literals are of its variables, each one-to-one map of the nodes of the
-- finder's graph that keeps their colors takes exactly the nodes of literals to nodes of literals,
-- and the nodes of all literals are in the graph.
pub create_finder-IsAutomorphism :
    (m : CnfModel) (tool : Automorphism) (aut : List ℕ) (back : ℕ → ℕ)
    → InRange (number_of_model_variables m) m.clauses
    → let finder = create_finder m tool in
      KeepsColors finder.graph aut back
      → IsAutomorphism finder.graph.num_nodes finder.num_vars aut back
unfolding create_finder
create_finder-IsAutomorphism m tool aut back range h =
    let (room, colored) = color-assign m range in
    record {
      size = h.size;
      room = room;
      inside = h.inside;
      goes_back = h.goes_back;
      kind = λ node lt.
          let there = colored (image_at aut node) (h.inside node lt) in
          let here = colored node lt in ground (arith, there, here, h.same_color node lt);
    }
