-- ===== src/CnfGraph/Colors.antt =====
-- CNFGraph.cc, assign: which nodes have the color of a clause.
use sat_symmetry.Prelude.{
  ℕ, zero, suc, ◌+◌, ◌-◌, ◌*◌, ◌≤◌, ◌<◌, ◌≡◌, refl, ap, ◌∙◌, arith, Bool, true, false, not, ◌&&◌,
  ◌||◌, ◌==◌, ltb, leb, if◌then◌else◌, Bool-cases, inl, inr, List, [], ◌∷◌, length, get_or, set,
  length-set, get_or-set, length-resize, All,
}
use sat_symmetry.Literal.{Literal, variable, literal}
use sat_symmetry.Literal.Laws.{variable-literal, is_positive-literal}
use sat_symmetry.CnfModel.{CnfModel, number_of_model_variables}
use sat_symmetry.CnfGraph.{
  CnfGraph, new_graph, clause_color, literal2node, color, add_node, add_edge, add_star, add_clauses,
  add_consistency, color_variables, color_clauses, change_color, assign, degree,
}
use sat_symmetry.Group.Watch.{get_or-grow}

-- No node is colored, and the nodes are below a number.
record IsPlain (next : ℕ) (g : CnfGraph) : Type 0 where
  size : length g.colors ≡ g.num_nodes
  below : g.num_nodes ≤ next
  plain : (x : ℕ) → get_or g.colors x 0 ≡ 0

abbrev pub InRange : ℕ → List (List Literal) → Type 0
InRange n cs = All (All (λ (l : Literal). variable l < n)) cs

literal2node-lt : (l : Literal) (n : ℕ) → variable l < n → literal2node l n < 2 * n
unfolding literal2node
literal2node-lt l n h = ground arith

add_edge-IsPlain :
    (from to next : ℕ) (g : CnfGraph)
    → from < next
    → to < next
    → IsPlain next g
    → IsPlain next (add_edge from to g)
unfolding add_edge add_node
add_edge-IsPlain from to next g lf lt h =
    let node = if ltb to from then from else to in
    let low : node < next = ground arith in
    elim (Bool-cases (ltb node g.num_nodes)) [
      | inl there ↦ rw there (record { size = h.size; below = h.below; plain = h.plain })
      | inr new ↦ rw new (record {
        size = length-resize (node + 1) 0 g.colors;
        below = omega (arith, low);
        plain = λ x. get_or-grow (node + 1) 0 g.colors x (ground (arith, h.size)) ∙ h.plain x;
      })
    ]

widen : (next : ℕ) (g : CnfGraph) → IsPlain next g → IsPlain (next + 1) g
widen next g h = record { size = h.size; below = omega (arith, h.below); plain = h.plain }

add_star-IsPlain :
    (c : List Literal) (n center : ℕ) (g : CnfGraph)
    → 2 * n ≤ center
    → All (λ l. variable l < n) c
    → IsPlain (center + 1) g
    → IsPlain (center + 1) (add_star c n center g)
unfolding add_star
add_star-IsPlain [] n center g le range h = h
add_star-IsPlain (l ∷ ls) n center g le range h =
    add_star-IsPlain ls n center (add_edge (literal2node l n) center g) le range.1 (
      add_edge-IsPlain (literal2node l n) center (center + 1) g
        (omega (arith, literal2node-lt l n range.0)) (omega arith) h)

add_clauses-IsPlain :
    (cs : List (List Literal)) (n next : ℕ) (g : CnfGraph)
    → 2 * n ≤ next
    → InRange n cs
    → IsPlain next g
    → let r = add_clauses cs n next g in (2 * n ≤ r.0) × IsPlain r.0 r.1
unfolding add_clauses
add_clauses-IsPlain [] n next g le range h = (le, h)
add_clauses-IsPlain ((x ∷ y ∷ []) ∷ cs) n next g le range h =
    add_clauses-IsPlain cs n next (add_edge (literal2node x n) (literal2node y n) g) le range.1 (
      add_edge-IsPlain (literal2node x n) (literal2node y n) next g
        (omega (arith, literal2node-lt x n range.0.0))
        (omega (arith, literal2node-lt y n range.0.1.0)) h)
add_clauses-IsPlain ([] ∷ cs) n next g le range h =
    add_clauses-IsPlain cs n (next + 1) (add_star [] n next g) (omega arith) range.1
      (add_star-IsPlain [] n next g le range.0 (widen next g h))
add_clauses-IsPlain ((x ∷ []) ∷ cs) n next g le range h =
    add_clauses-IsPlain cs n (next + 1) (add_star (x ∷ []) n next g) (omega arith) range.1
      (add_star-IsPlain (x ∷ []) n next g le range.0 (widen next g h))
add_clauses-IsPlain ((x ∷ y ∷ z ∷ ls) ∷ cs) n next g le range h =
    add_clauses-IsPlain cs n (next + 1) (add_star (x ∷ y ∷ z ∷ ls) n next g) (omega arith) range.1
      (add_star-IsPlain (x ∷ y ∷ z ∷ ls) n next g le range.0 (widen next g h))

add_consistency-IsPlain :
    (k v n next : ℕ) (g : CnfGraph)
    → v + k ≤ n
    → 2 * n ≤ next
    → IsPlain next g
    → IsPlain next (add_consistency k v n g)
unfolding add_consistency
add_consistency-IsPlain zero v n next g le room h = h
add_consistency-IsPlain (suc k) v n next g le room h =
    let x = literal2node (literal v true) n in
    let y = literal2node (literal v false) n in
    let lx : x < 2 * n =
      literal2node-lt (literal v true) n (omega (arith, variable-literal v true)) in
    let ly : y < 2 * n =
      literal2node-lt (literal v false) n (omega (arith, variable-literal v false)) in
    add_consistency-IsPlain k (v + 1) n next (add_edge x y g) (omega arith) room
      (add_edge-IsPlain x y next g (omega (arith, lx)) (omega (arith, ly)) h)

-- Whether a node has the color of a clause.
abbrev of_clause : List ℕ → ℕ → Bool
of_clause colors x = get_or colors x 0 == clause_color

of_clause-set :
    (colors : List ℕ) (i x c : ℕ)
    → 2 ≤ c
    → of_clause colors x ≡ false
    → of_clause (set colors i c) x ≡ false
of_clause-set [] i x c le h = h
of_clause-set (d ∷ ds) zero zero c le h = ground arith
of_clause-set (d ∷ ds) zero (suc x) c le h = h
of_clause-set (d ∷ ds) (suc i) zero c le h = h
of_clause-set (d ∷ ds) (suc i) (suc x) c le h = of_clause-set ds i x c le h

one_variable :
    (alone : Bool) (x y c : ℕ) (g : CnfGraph)
    → 2 ≤ c
    → ((z : ℕ) → of_clause g.colors z ≡ false)
    → let g' = if alone then change_color y (c + 1) (change_color x c g) else g in
      (length g'.colors ≡ length g.colors)
      × (g'.num_nodes ≡ g.num_nodes)
      × ((z : ℕ) → of_clause g'.colors z ≡ false)
unfolding change_color
one_variable false x y c g le h = (refl, refl, h)
one_variable true x y c g le h = (
  length-set (set g.colors x c) y (c + 1) ∙ length-set g.colors x c,
  refl,
  λ z.
      of_clause-set (set g.colors x c) y z (c + 1) (omega arith)
        (of_clause-set g.colors x z c le (h z)),
)

color_variables-keeps :
    (k v n c : ℕ) (g : CnfGraph)
    → 2 ≤ c
    → ((x : ℕ) → of_clause g.colors x ≡ false)
    → let g' = color_variables k v n c g in
      (length g'.colors ≡ length g.colors)
      × (g'.num_nodes ≡ g.num_nodes)
      × ((x : ℕ) → of_clause g'.colors x ≡ false)
unfolding color_variables change_color
color_variables-keeps zero v n c g le h = (refl, refl, h)
color_variables-keeps (suc k) v n c g le h =
    let x = literal2node (literal v true) n in
    let y = literal2node (literal v false) n in
    let alone = degree g x == 1 && degree g y == 1 in
    let g1 = if alone then change_color y (c + 1) (change_color x c g) else g in
    let (size1, nodes1, none1) = one_variable alone x y c g le h in
    let (size, nodes, none_there) =
      color_variables-keeps k (v + 1) n (if alone then c + 2 else c) g1 (ground arith) none1 in
    (size ∙ size1, nodes ∙ nodes1, none_there)

set_outside : (xs : List ℕ) (i v : ℕ) → length xs ≤ i → set xs i v ≡ xs
set_outside [] i v le = refl
set_outside (x ∷ xs) zero v le = absurd (omega arith)
set_outside (x ∷ xs) (suc i) v le = ap (◌∷◌ x) (set_outside xs i v (omega arith))

color_clauses_lem :
    (k i : ℕ) (g : CnfGraph)
    → let g' = color_clauses k i g in
      (g'.num_nodes ≡ g.num_nodes)
      × ((x : ℕ)
          → x < length g.colors
          → of_clause g'.colors x ≡ (of_clause g.colors x || leb i x && ltb x (i + k)))
unfolding color_clauses change_color
color_clauses_lem zero i g = (refl, λ x lt. ground arith)
color_clauses_lem (suc k) i g =
    let (nodes, later) = color_clauses_lem k (i + 1) (change_color i clause_color g) in
    (
      nodes,
      λ x lt. elim (Bool-cases (ltb i (length g.colors))) [
        | inl inside ↦
            let here = get_or-set g.colors i x clause_color 0 (ground arith) in
            ground (arith, later x (omega (arith, length-set g.colors i clause_color)), here)
        | inr outside ↦
            let same = set_outside g.colors i clause_color (ground arith) in
            ground (
              arith,
              later x (omega (arith, length-set g.colors i clause_color)),
              ap (λ (cs : List ℕ). get_or cs x 0) same,
            )
      ],
    )

add_edge-nodes :
    (from to : ℕ) (g : CnfGraph)
    → let g' = add_edge from to g in (from < g'.num_nodes) × (to < g'.num_nodes)
unfolding add_edge add_node
add_edge-nodes from to g = ground arith

-- The edge of the last variable makes the nodes of all literals.
add_consistency-room :
    (k v n : ℕ) (g : CnfGraph) → v + k ≡ n → 0 < k → 2 * n ≤ (add_consistency k v n g).num_nodes
unfolding add_consistency literal2node
add_consistency-room zero v n g e some_left = absurd (omega arith)
add_consistency-room (suc zero) v n g e some_left =
    let last : literal2node (literal v false) n ≡ n + v =
      ground (arith, variable-literal v false, is_positive-literal v false) in
    omega (
      arith,
      last,
      e,
      (add_edge-nodes (literal2node (literal v true) n) (literal2node (literal v false) n) g).1,
    )
add_consistency-room (suc (suc k)) v n g e some_left =
    add_consistency-room (suc k) (v + 1) n
      (add_edge (literal2node (literal v true) n) (literal2node (literal v false) n) g)
      (omega (arith, e)) (omega arith)

-- In the graph of a model whose literals are in range there are the nodes of all literals, and
-- exactly the nodes behind them have the color of a clause.
pub color-assign :
    (m : CnfModel)
    → InRange (number_of_model_variables m) m.clauses
    → let n = number_of_model_variables m in
      let g = assign m new_graph in
      (2 * n ≤ g.num_nodes)
      × ((x : ℕ) → x < g.num_nodes → (color g x == clause_color) ≡ not (ltb x (2 * n)))
unfolding assign color new_graph number_of_model_variables
color-assign m range =
    let n = number_of_model_variables m in
    let (room, edges) =
      add_clauses-IsPlain m.clauses n (2 * n) new_graph (omega arith) range
        (record { size = refl; below = omega arith; plain = λ x. refl }) in
    let (next, drawn) = add_clauses m.clauses n (2 * n) new_graph in
    let h = add_consistency-IsPlain n 0 n next drawn (omega arith) room edges in
    let consistent = add_consistency n 0 n drawn in
    let (size, nodes, none_there) =
      color_variables-keeps n 0 n 2 consistent (omega arith) (λ x. rw (h.plain x) refl) in
    let painted = color_variables n 0 n 2 consistent in
    let (nodes', painted_clauses) = color_clauses_lem (next - 2 * n) (2 * n) painted in
    (
      omega (arith, nodes', nodes, add_consistency-room n 0 n drawn (omega arith) (omega arith)),
      λ x lt.
          let low : x < next = omega (arith, lt, nodes', nodes, h.below) in
          let there : x < length painted.colors = omega (arith, lt, nodes', nodes, size, h.size) in
          painted_clauses x there ∙ ground (arith, none_there x, low),
    )
