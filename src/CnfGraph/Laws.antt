-- ===== src/CnfGraph/Laws.antt =====
-- CNFGraph: nodes and literals, and the edges that an edge adds.
use sat_symmetry.Prelude.{
  ℕ, ◌+◌, ◌-◌, ◌*◌, ◌<◌, ◌≡◌, refl, ap, ◌∙◌, arith, Bool, true, false, ◌&&◌, ◌||◌, some, List, [],
  ◌∷◌, ◌++◌, ◌==◌, ltb, if◌then◌else◌, length, get_or, contains, contains-append, Bool-cases, inl,
  inr, get_or-set, length-set, length-resize,
}
use sat_symmetry.Bits.Laws.{bit_xor-one}
use sat_symmetry.Literal.{Literal, variable, is_positive, from_signed}
use sat_symmetry.Literal.Laws.{variable_lem, is_positive_lem}
use sat_symmetry.Group.Watch.{get_or-grow}
use sat_symmetry.CnfGraph.{
  CnfGraph, literal2node, node2literal, add_node, add_edge, push_neighbour, neighbour,
}

-- The node of a literal of a variable below the number of variables stands for this literal.
pub node2literal-literal2node :
    (l : Literal) (n : ℕ) → variable l < n → node2literal (literal2node l n) n ≡ some l
unfolding node2literal literal2node from_signed
node2literal-literal2node l n h = elim (Bool-cases (is_positive l)) [
  | inl up ↦
      let below : ltb (variable l) n ≡ true = ground arith in
      rw (up, below) (ground (arith, variable_lem l, is_positive_lem l))
  | inr down ↦
      let above : ltb (n + variable l) n ≡ false = ground arith in
      let below : ltb (n + variable l) (2 * n) ≡ true = ground arith in
      let rest : n + variable l - n ≡ variable l = omega arith in
      rw (down, above, below, rest)
        (ground (arith, variable_lem l, is_positive_lem l, bit_xor-one (variable l * 2)))
]

-- The numbers of nodes and of the entries for them are the same.
pub record IsGraph (g : CnfGraph) : Type 0 where
  pub adjacency_size : length g.adjacency ≡ g.num_nodes
  pub colors_size : length g.colors ≡ g.num_nodes

abbrev pub has_edge : CnfGraph → ℕ → ℕ → Bool
has_edge g x y = contains (neighbour g x) y

push_neighbour_lem :
    (from to : ℕ) (adjacency : List (List ℕ)) (x y : ℕ)
    → from < length adjacency
    → contains (get_or (push_neighbour from to adjacency) x []) y
      ≡ (contains (get_or adjacency x []) y || from == x && to == y)
push_neighbour_lem from to adjacency x y h = elim (Bool-cases (from == x)) [
  | inl same ↦
      let e : from ≡ x = ground arith in
      rw (get_or-set adjacency from x (get_or adjacency from [] ++ to ∷ []) [] h, same, ← e)
        (ground (arith, contains-append (get_or adjacency from []) (to ∷ []) y))
  | inr other ↦
      rw (get_or-set adjacency from x (get_or adjacency from [] ++ to ∷ []) [] h, other)
        (ground arith)
]

add_node_lem :
    (node : ℕ) (g : CnfGraph)
    → IsGraph g
    → (node < (add_node node g).num_nodes)
      × IsGraph (add_node node g)
      × ((x y : ℕ) → has_edge (add_node node g) x y ≡ has_edge g x y)
unfolding add_node neighbour
add_node_lem node g h = elim (Bool-cases (ltb node g.num_nodes)) [
  | inl there ↦ rw there (ground arith, h, λ x y. refl)
  | inr new ↦ rw new (
    omega arith,
    record {
      adjacency_size = length-resize (node + 1) [] g.adjacency;
      colors_size = length-resize (node + 1) 0 g.colors;
    },
    λ x y.
        ap (λ (ns : List ℕ). contains ns y)
          (get_or-grow (node + 1) [] g.adjacency x (ground (arith, h.adjacency_size))),
  )
]

-- Adding an edge keeps the sizes of the vectors equal to the number of nodes, and makes each end a
-- neighbour of the other; all other neighbours are as before.
pub has_edge-add_edge :
    (from to : ℕ) (g : CnfGraph)
    → IsGraph g
    → IsGraph (add_edge from to g)
      × ((x y : ℕ)
          → has_edge (add_edge from to g) x y
            ≡ (has_edge g x y || (from == x && to == y || to == x && from == y)))
unfolding add_edge neighbour
has_edge-add_edge from to g h =
    let node = if ltb to from then from else to in
    let g' = add_node node g in
    let (room, h', same) = add_node_lem node g h in
    let kept : (x y : ℕ)
        → contains (get_or g'.adjacency x []) y ≡ contains (get_or g.adjacency x []) y =
      unfold neighbour in same in
    let first = push_neighbour from to g'.adjacency in
    let size = length-set g'.adjacency from (get_or g'.adjacency from [] ++ to ∷ []) in
    let size' = length-set first to (get_or first to [] ++ from ∷ []) in
    let from_inside : from < length g'.adjacency = ground (arith, h'.adjacency_size, room) in
    let to_inside : to < length first = ground (arith, h'.adjacency_size, room, size) in
    (
      record { adjacency_size = size' ∙ size ∙ h'.adjacency_size; colors_size = h'.colors_size },
      λ x y.
          push_neighbour_lem to from first x y to_inside
          ∙ ground (arith, push_neighbour_lem from to g'.adjacency x y from_inside, kept x y),
    )
