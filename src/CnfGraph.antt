-- ===== src/CnfGraph.antt =====
-- include/cosy/CNFGraph.h and src/CNFGraph.cc: the coloured graph of a model, whose automorphisms
-- are the symmetries. A node is a number; an index outside the vectors, which is undefined in C++,
-- reads no neighbours and colour 0. Of the numbers of nodes and edges, 64 bits wide, no wrap is
-- modelled.
pub mod Laws
pub mod Colors
pub mod Tests
use sat_symmetry.Prelude.{
  ℕ, zero, suc, ◌+◌, ◌-◌, ◌*◌, Bool, true, false, ◌&&◌, Option, none, some, List, [], ◌∷◌, ◌++◌,
  ◌==◌, leb, ltb, if◌then◌else◌, length, get_or, set, resize,
}
use sat_symmetry.Prelude.Int.{ℤ, pos, negsuc}
use sat_symmetry.Literal.{Literal, literal, variable, is_positive, from_signed}
use sat_symmetry.CnfModel.{CnfModel, number_of_model_variables}

abbrev pub clause_color : ℕ
clause_color = 1

unfoldable pub literal2node : Literal → ℕ → ℕ
literal2node l n = if is_positive l then variable l else n + variable l

-- `none` is kNoLiteralIndex.
unfoldable pub node2literal : ℕ → ℕ → Option Literal
node2literal node n =
    if ltb node n
    then from_signed (pos (node + 1))
    else if ltb node (2 * n)
    then from_signed (negsuc (node - n))
    else none

pub record CnfGraph : Type 0 where
  pub num_nodes : ℕ
  pub num_edges : ℕ
  pub adjacency : List (List ℕ)
  pub colors : List ℕ

unfoldable pub new_graph : CnfGraph
new_graph = record { num_nodes = 0; num_edges = 0; adjacency = []; colors = [] }

unfoldable pub neighbour : CnfGraph → ℕ → List ℕ
neighbour g node = get_or g.adjacency node []

unfoldable pub degree : CnfGraph → ℕ → ℕ
degree g node = length (get_or g.adjacency node [])

unfoldable pub color : CnfGraph → ℕ → ℕ
color g node = get_or g.colors node 0

unfoldable pub add_node : ℕ → CnfGraph → CnfGraph
add_node node g = if ltb node g.num_nodes then g else record g {
  num_nodes = node + 1;
  adjacency = resize (node + 1) [] g.adjacency;
  colors = resize (node + 1) 0 g.colors;
}

-- `_adjacency[from].push_back(to)`
abbrev pub push_neighbour : ℕ → ℕ → List (List ℕ) → List (List ℕ)
push_neighbour from to adjacency = set adjacency from (get_or adjacency from [] ++ to ∷ [])

unfoldable pub add_edge : ℕ → ℕ → CnfGraph → CnfGraph
add_edge from to g =
    let g' = add_node (if ltb to from then from else to) g in
    record g' {
      adjacency = push_neighbour to from (push_neighbour from to g'.adjacency);
      num_edges = g'.num_edges + 1;
    }

unfoldable pub change_color : ℕ → ℕ → CnfGraph → CnfGraph
change_color node c g = record g { colors = set g.colors node c }

-- The edges of a clause to its own node.
unfoldable pub add_star : List Literal → ℕ → ℕ → CnfGraph → CnfGraph
add_star [] n center g = g
add_star (l ∷ ls) n center g = add_star ls n center (add_edge (literal2node l n) center g)

-- The edges of the clauses, and the next number of a clause; a clause of two literals is an edge.
unfoldable pub add_clauses : List (List Literal) → ℕ → ℕ → CnfGraph → ℕ × CnfGraph
add_clauses [] n next g = (next, g)
add_clauses ((x ∷ y ∷ []) ∷ cs) n next g =
    add_clauses cs n next (add_edge (literal2node x n) (literal2node y n) g)
add_clauses (c ∷ cs) n next g = add_clauses cs n (next + 1) (add_star c n next g)

-- The variables `v`, …, `v + k - 1`.
unfoldable pub add_consistency : ℕ → ℕ → ℕ → CnfGraph → CnfGraph
add_consistency zero v n g = g
add_consistency (suc k) v n g =
    add_consistency k (v + 1) n
      (add_edge (literal2node (literal v true) n) (literal2node (literal v false) n) g)

unfoldable pub color_variables : ℕ → ℕ → ℕ → ℕ → CnfGraph → CnfGraph
color_variables zero v n c g = g
color_variables (suc k) v n c g =
    let x = literal2node (literal v true) n in
    let y = literal2node (literal v false) n in
    let alone = degree g x == 1 && degree g y == 1 in
    color_variables k (v + 1) n (if alone then c + 2 else c)
      (if alone then change_color y (c + 1) (change_color x c g) else g)

unfoldable pub color_clauses : ℕ → ℕ → CnfGraph → CnfGraph
color_clauses zero i g = g
color_clauses (suc k) i g = color_clauses k (i + 1) (change_color i clause_color g)

unfoldable pub assign : CnfModel → CnfGraph → CnfGraph
assign model g =
    let n = number_of_model_variables model in
    let (num_clauses, edges) = add_clauses model.clauses n (2 * n) g in
    let consistent = add_consistency n 0 n edges in
    let colored = color_variables n 0 n (clause_color + 1) consistent in
    color_clauses (num_clauses - 2 * n) (2 * n) colored
