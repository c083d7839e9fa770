-- ===== src/SymmetryFinder/Built.antt =====
-- The callback of the finders: the permutation of an automorphism.
use sat_symmetry.Prelude.{
  ℕ, zero, suc, ◌+◌, ◌*◌, ◌<◌, ◌≡◌, ◌≢◌, refl, sym, ap, ◌∙◌, arith, Bool, true, false, ◌||◌, Option,
  none, some, List, ◌==◌, ltb, if◌then◌else◌, length, length-replicate, get_elem?, set, replicate,
  get_or-replicate, contains, is_some, Bool-cases, inl, inr, ◌>>=◌,
}
use sat_symmetry.Permutation.{Permutation, new_permutation, close_current_cycle, image_of}
use sat_symmetry.Permutation.Building.{IsBuilding, is_open, new_permutation-IsBuilding}
use sat_symmetry.Literal.{Literal, variable}
use sat_symmetry.Literal.Laws.{variable_lem, is_positive_lem}
use sat_symmetry.CnfGraph.{node2literal, literal2node}
use sat_symmetry.SymmetryFinder.{push_node, walk_nodes, permutation_of}
use sat_symmetry.SymmetryFinder.Nodes.{
  IsAutomorphism, image_at, literal_of, node2literal-literal_of, is_seen, unseen-set, unseen-le,
  is_seen-set,
}
use sat_symmetry.SymmetryFinder.Following.{Outer}
use sat_symmetry.SymmetryFinder.Cycle.{get_elem?-image_at, start-Inner, close-Outer, follow_lem}

pub literal2node_lem :
    (l : Literal) (num_vars : ℕ)
    → variable l < num_vars
    → (literal2node l num_vars < 2 * num_vars) × (literal_of num_vars (literal2node l num_vars) ≡ l)
unfolding literal2node
literal2node_lem l num_vars lt = ground (arith, variable_lem l, is_positive_lem l)

module _ (n num_vars : ℕ) (aut : List ℕ) (back : ℕ → ℕ)
    (a : IsAutomorphism n num_vars aut back) where
  -- The nodes below `i` were passed: each of them was seen, or stays where it is.
  abbrev Passed : ℕ → List Bool → Type 0
  Passed i seen = (x : ℕ) → x < i → is_seen seen x ≡ false → image_at aut x ≡ x

  walk_nodes_lem :
      (k i : ℕ) (p : Permutation) (seen : List Bool)
      → i + k ≡ n
      → Outer n num_vars aut back p seen
      → Passed i seen
      → (p' : Permutation) × (seen' : List Bool) × (walk_nodes k n aut num_vars i p seen ≡ some p')
        × Outer n num_vars aut back p' seen'
        × Passed n seen'
  unfolding walk_nodes
  walk_nodes_lem zero i p seen end h passed =
      (p, seen, refl, h, λ x lt new. passed x (omega (arith, lt, end)) new)
  walk_nodes_lem (suc k) i p seen end h passed =
      let lt : i < n = omega arith in
      let got : get_elem? aut i ≡ some (image_at aut i) =
        get_elem?-image_at aut i (omega (arith, lt, a.size)) in
      elim (Bool-cases (i == image_at aut i || is_seen seen i)) [
        | inl skip ↦
            let passed' : Passed (i + 1) seen = λ x below new. elim (Bool-cases (i == x)) [
              | inl same ↦
                  let e : i ≡ x = ground arith in
                  let new_i : is_seen seen i ≡ false = ap (is_seen seen) e ∙ new in
                  let fixed : i ≡ image_at aut i = ground (arith, skip) in
                  ap (image_at aut) (sym e) ∙ sym fixed ∙ e
              | inr other ↦ passed x (ground arith) new
            ] in
            let (p', seen', made, h', all) =
              walk_nodes_lem k (i + 1) p seen (omega arith) h passed' in
            (p', seen', rw (walk_nodes, got, ◌>>=◌, skip) made, h', all)
        | inr starts ↦
            let new : is_seen seen i ≡ false = ground arith in
            let moves : image_at aut i ≢ i = λ e. ground (arith, e) in
            let inside : i < length seen = omega (arith, lt, h.size) in
            let marked = set seen i true in
            let begun = start-Inner n num_vars aut back a i p seen h lt new moves in
            let fewer = unseen-set seen i inside new in
            let (p1, seen1, j, followed, inner, closes, kept) =
              follow_lem n num_vars aut back a n i i (push_node num_vars i p) marked begun
                (omega (arith, fewer, unseen-le seen, h.size)) in
            let passed' : Passed (i + 1) seen1 = λ x below new'.
              elim (Bool-cases (is_seen marked x)) [
                | inl there ↦ cc (kept x there, new')
                | inr unmarked ↦
                    passed x (ground (arith, is_seen-set seen i x inside))
                      (ground (arith, is_seen-set seen i x inside))
              ] in
            let (p', seen', made, h', all) =
              walk_nodes_lem k (i + 1) (close_current_cycle p1) seen1 (omega arith)
                (close-Outer n num_vars aut back a i j p1 seen1 inner closes) passed' in
            (p', seen', rw (walk_nodes, got, ◌>>=◌, starts, followed) made, h', all)
      ]

  begin-Outer : Outer n num_vars aut back (new_permutation num_vars) (replicate n false)
  begin-Outer =
      let none_seen : (x : ℕ) → is_seen (replicate n false) x ≡ false =
        λ x. get_or-replicate n x false in
      record {
        size = length-replicate {A = Bool} n false;
        building = new_permutation-IsBuilding num_vars;
        closed = unfold new_permutation in refl;
        moved = λ x there. cc (none_seen x, there);
        behind = λ x there. cc (none_seen x, there);
        mapped = λ x there. cc (none_seen x, there);
        written = λ x below. unfold new_permutation in sym (none_seen x);
      }

  -- A literal whose node stays has no image.
  image_none :
      (p : Permutation) (e : Literal)
      → IsBuilding p
      → is_open p ≡ false
      → contains p.cycles e ≡ false
      → p.image e ≡ none
  image_none p e h closed absent = no_key (p.image e) (ground (arith, h.has_image e))
    where
      no_key : (o : Option Literal) → is_some o ≡ false → o ≡ none
      no_key none e = refl
      no_key (some l) e = cc

  -- For a one-to-one map of the nodes that takes exactly the nodes of literals to nodes of
  -- literals the loops of the callback end within their fuel, and give a well-formed permutation
  -- with no open cycle: the image of a literal in range is the literal of the node that its node
  -- is mapped to, and there is none where its node stays.
  pub permutation_of_lem :
      (p : Permutation) × (permutation_of n aut num_vars ≡ some p)
      × IsBuilding p
      × (is_open p ≡ false)
      × ((l : Literal)
          → variable l < num_vars
          → let node = literal2node l num_vars in
            image_of p l ≡ (
              if image_at aut node == node
              then none
              else node2literal (image_at aut node) num_vars))
  unfolding permutation_of image_of
  permutation_of_lem =
      let (p, seen, made, h, all) =
        walk_nodes_lem n 0 (new_permutation num_vars) (replicate n false) (omega arith) begin-Outer
          (λ x lt. absurd (omega arith)) in
      (
        p,
        made,
        h.building,
        h.closed,
        λ l in_range.
            let node = literal2node l num_vars in
            let (below, is_l) = literal2node_lem l num_vars in_range in
            let lt : node < n = omega (arith, below, a.room) in
            let k_literal : ltb (image_at aut node) (2 * num_vars) ≡ true =
              ground (arith, a.kind node lt, below) in
            elim (Bool-cases (is_seen seen node)) [
              | inl there ↦
                  let moves : (image_at aut node == node) ≡ false =
                    ground (arith, h.moved node there) in
                  rw (moves, node2literal-literal_of (image_at aut node) num_vars, k_literal)
                    (ap p.image (sym is_l) ∙ h.mapped node there below (omega (arith, lt)))
              | inr new ↦
                  let stays : (image_at aut node == node) ≡ true =
                    ground (arith, all node lt new) in
                  let absent : contains p.cycles l ≡ false =
                    ap (contains p.cycles) (sym is_l) ∙ h.written node below ∙ new in
                  rw stays (image_none p l h.building h.closed absent)
            ],
      )
