-- ===== src/SymmetryFinder.antt =====
-- include/cosy/SymmetryFinder.h, src/SymmetryFinder.cc, and the finders of BlissSymmetryFinder and
-- SaucySymmetryFinder: the graph of a model is given to a library that finds automorphisms, and
-- calls back with each one. The libraries, bliss and saucy, are parameters: what they report is a
-- list of automorphisms, each the list of the images of the nodes. `none` is an index outside of a
-- vector, or fuel that runs out; as fuel the number of nodes is enough. Timing is left out.
pub mod Nodes
pub mod Colors
pub mod Following
pub mod Step
pub mod Cycle
pub mod Built
pub mod Vectors
pub mod Found
pub mod Kept
pub mod Tests
use sat_symmetry.Prelude.{
  ℕ, zero, suc, ◌+◌, Bool, true, false, ◌||◌, Option, none, some, List, [], ◌∷◌, ◌++◌, ◌==◌,
  get_elem?, get_or, set, replicate, ◌>>=◌,
}
use sat_symmetry.Permutation.{
  Permutation, new_permutation, add_to_current_cycle, close_current_cycle,
}
use sat_symmetry.Group.{Group, add_permutation}
use sat_symmetry.CnfModel.{CnfModel, number_of_model_variables}
use sat_symmetry.CnfGraph.{CnfGraph, new_graph, assign, neighbour, degree, color, node2literal}

-- `if (index != kNoLiteralIndex) permutation->addToCurrentCycle(Literal(index));`
unfoldable pub push_node : ℕ → ℕ → Permutation → Permutation
push_node num_vars node p = elim (node2literal node num_vars) [
  | none ↦ p
  | some l ↦ add_to_current_cycle l p
]

-- `for (unsigned int j = aut[i]; j != i; j = aut[j])`
unfoldable pub follow :
    ℕ → List ℕ → ℕ → ℕ → ℕ → Permutation → List Bool → Option (Permutation × List Bool)
unfolding push_node
follow zero aut num_vars i j p seen = none
follow (suc fuel) aut num_vars i j p seen = elim (j == i) [
  | true ↦ some (p, seen)
  | false ↦ get_elem? aut j >>= λ next.
      follow fuel aut num_vars i next (push_node num_vars j p) (set seen j true)
]

-- The rounds `i`, …, `i + k - 1` of the loop over the `n` nodes.
unfoldable pub walk_nodes : ℕ → ℕ → List ℕ → ℕ → ℕ → Permutation → List Bool → Option Permutation
unfolding follow push_node
walk_nodes zero n aut num_vars i p seen = some p
walk_nodes (suc k) n aut num_vars i p seen = do
  next ← get_elem? aut i
  elim (i == next || get_or seen i false) [
    | true ↦ walk_nodes k n aut num_vars (i + 1) p seen
    | false ↦
        follow n aut num_vars i next (push_node num_vars i p) (set seen i true) >>= λ (p', seen').
        walk_nodes k n aut num_vars (i + 1) (close_current_cycle p') seen'
  ]

-- The permutation of the literals that an automorphism of `n` nodes stands for.
unfoldable pub permutation_of : ℕ → List ℕ → ℕ → Option Permutation
unfolding walk_nodes
permutation_of n aut num_vars =
    walk_nodes n n aut num_vars 0 (new_permutation num_vars) (replicate n false)

-- The callback for bliss.
unfoldable pub on_automorphism : ℕ → ℕ → List ℕ → Group → Option Group
unfolding permutation_of
on_automorphism num_vars n aut g = do p ← permutation_of n aut num_vars; add_permutation p g

unfoldable pub call_back : ℕ → ℕ → List (List ℕ) → Group → Option Group
unfolding on_automorphism
call_back num_vars n [] g = some g
call_back num_vars n (aut ∷ auts) g = do
  g' ← on_automorphism num_vars n aut g
  call_back num_vars n auts g'

-- The callback for saucy, which also says whether the search goes on: always.
unfoldable pub on_automorphism_saucy : ℕ → ℕ → List ℕ → Group → Option (ℕ × Group)
unfolding permutation_of
on_automorphism_saucy num_vars n aut g = do
  p ← permutation_of n aut num_vars
  g' ← add_permutation p g
  some (1, g')

unfoldable pub search_back : ℕ → ℕ → List (List ℕ) → Group → Option Group
unfolding on_automorphism_saucy
search_back num_vars n [] g = some g
search_back num_vars n (aut ∷ auts) g = do
  (goes_on, g') ← on_automorphism_saucy num_vars n aut g
  elim (goes_on == 0) [ true ↦ some g' | false ↦ search_back num_vars n auts g' ]

pub data Automorphism : Type 0 where
  bliss : Automorphism
  saucy : Automorphism

pub record SymmetryFinder : Type 0 where
  pub tool : Automorphism
  pub num_vars : ℕ
  pub graph : CnfGraph

-- `SymmetryFinder::create`, and the constructors.
unfoldable pub create_finder : CnfModel → Automorphism → SymmetryFinder
create_finder model tool = record {
  tool = tool;
  num_vars = number_of_model_variables model;
  graph = assign model new_graph;
}

-- The vectors for saucy: where the neighbours of the nodes `i`, … end, when `sum` stand before
-- them, all neighbours one after the other, and the colours.
unfoldable pub ends_of : ℕ → ℕ → ℕ → CnfGraph → List ℕ
ends_of zero i sum g = []
ends_of (suc k) i sum g = (sum + degree g i) ∷ ends_of k (i + 1) (sum + degree g i) g

unfoldable pub edges_of : ℕ → ℕ → CnfGraph → List ℕ
edges_of zero i g = []
edges_of (suc k) i g = neighbour g i ++ edges_of k (i + 1) g

unfoldable pub colors_of : ℕ → ℕ → CnfGraph → List ℕ
colors_of zero i g = []
colors_of (suc k) i g = color g i ∷ colors_of k (i + 1) g

-- What the libraries do: bliss builds a graph of its own, saucy is given the graph as vectors.
-- Each reports a list of automorphisms, saucy for as long as the callback tells it to go on.
pub record Tools : Type 1 where
  pub BlissGraph : Type 0
  pub bliss_graph : ℕ → BlissGraph
  pub bliss_change_color : ℕ → ℕ → BlissGraph → BlissGraph
  pub bliss_add_edge : ℕ → ℕ → BlissGraph → BlissGraph
  pub bliss_find_automorphisms : BlissGraph → List (List ℕ)
  pub saucy_search : ℕ → ℕ → List ℕ → List ℕ → List ℕ → List (List ℕ)

module _ (tools : Tools) where
  open tools use {
    BlissGraph, bliss_graph, bliss_change_color, bliss_add_edge, bliss_find_automorphisms,
    saucy_search,
  }

  -- The nodes `i`, …, `i + k - 1` get their colours.
  unfoldable pub color_nodes : ℕ → ℕ → CnfGraph → BlissGraph → BlissGraph
  color_nodes zero i g b = b
  color_nodes (suc k) i g b = color_nodes k (i + 1) g (bliss_change_color i (color g i) b)

  unfoldable pub join_neighbours : ℕ → List ℕ → BlissGraph → BlissGraph
  join_neighbours i [] b = b
  join_neighbours i (x ∷ xs) b = join_neighbours i xs (bliss_add_edge i x b)

  unfoldable pub join_nodes : ℕ → ℕ → CnfGraph → BlissGraph → BlissGraph
  unfolding join_neighbours
  join_nodes zero i g b = b
  join_nodes (suc k) i g b = join_nodes k (i + 1) g (join_neighbours i (neighbour g i) b)

  -- `BlissSymmetryFinder::findAutomorphism`
  unfoldable pub find_with_bliss : SymmetryFinder → Group → Option Group
  unfolding color_nodes join_nodes call_back
  find_with_bliss f group =
      let n = f.graph.num_nodes in
      let b = join_nodes n 0 f.graph (color_nodes n 0 f.graph (bliss_graph n)) in
      call_back f.num_vars n (bliss_find_automorphisms b) group

  -- `SaucySymmetryFinder::findAutomorphism`
  unfoldable pub find_with_saucy : SymmetryFinder → Group → Option Group
  unfolding ends_of edges_of colors_of search_back
  find_with_saucy f group =
      let n = f.graph.num_nodes in
      let adj = 0 ∷ ends_of n 0 0 f.graph in
      let edj = edges_of n 0 f.graph in
      search_back f.num_vars n (saucy_search n f.graph.num_edges adj edj (colors_of n 0 f.graph))
        group

  abbrev pub find_with : Automorphism → SymmetryFinder → Group → Option Group
  find_with bliss = find_with_bliss
  find_with saucy = find_with_saucy

  unfoldable pub find_automorphism : SymmetryFinder → Group → Option Group
  unfolding find_with_bliss find_with_saucy
  find_automorphism f group = find_with f.tool f group
