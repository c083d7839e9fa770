-- ===== src/SymmetryFinder/Kept.antt =====
-- The callback of the finders: a symmetry of the literals is kept.
use mathlib.Core.Path.{subst}
use sat_symmetry.Prelude.{
  ℕ, ◌*◌, ◌<◌, ◌≡◌, ap, ◌∙◌, arith, Bool, true, false, Option, none, some, List, [], ltb, ◌∷◌, ◌++◌,
  ◌==◌, if◌then◌else◌, contains, has_key, Option-cases, Bool-cases, inl, inr, All,
}
use sat_symmetry.Literal.{Literal, variable, negated}
use sat_symmetry.Literal.Laws.{variable-negated, negated-negated, variable_lem, is_positive_lem}
use sat_symmetry.Permutation.{Permutation, image_of}
use sat_symmetry.Permutation.Building.{IsBuilding, is_open}
use sat_symmetry.Group.{Group}
use sat_symmetry.Group.Laws.{CommutesAt}
use sat_symmetry.Group.Kept.{add_permutation_kept}
use sat_symmetry.CnfGraph.{literal2node, node2literal}
use sat_symmetry.CnfGraph.Laws.{node2literal-literal2node}
use sat_symmetry.SymmetryFinder.{on_automorphism}
use sat_symmetry.SymmetryFinder.Nodes.{
  IsAutomorphism, image_at, literal_of, node2literal-literal_of,
}
use sat_symmetry.SymmetryFinder.Built.{permutation_of_lem, literal2node_lem}
use sat_symmetry.SymmetryFinder.Found.{permutation_of-InRange}

-- The literal that the automorphism maps a literal to.
abbrev pub mapped_literal : ℕ → List ℕ → Literal → Option Literal
mapped_literal num_vars aut l = node2literal (image_at aut (literal2node l num_vars)) num_vars

-- The automorphism commutes with negation, as one of the graph of a model does.
abbrev pub Commutes : ℕ → List ℕ → Type 0
Commutes num_vars aut =
    (l x : Literal)
    → variable l < num_vars
    → mapped_literal num_vars aut l ≡ some x
    → mapped_literal num_vars aut (negated l) ≡ some (negated x)

node2literal_node :
    (node num_vars : ℕ) (l : Literal)
    → node2literal node num_vars ≡ some l
    → node ≡ literal2node l num_vars
unfolding literal2node
node2literal_node node num_vars l found =
    ground (arith, node2literal-literal_of node num_vars, variable_lem l, is_positive_lem l)

All-mem :
    (P : Literal → Type 0) (es : List Literal) (e : Literal) → All P es → contains es e ≡ true → P e
All-mem P [] e h there = cc
All-mem P (x ∷ es) e h there = elim (Bool-cases (x == e)) [
  | inl same ↦ let eq : x ≡ e = ground arith in subst P eq h.0
  | inr other ↦ All-mem P es e h.1 (ground arith)
]

module _ (n num_vars : ℕ) (aut : List ℕ) (back : ℕ → ℕ) (a : IsAutomorphism n num_vars aut back)
    (commutes : Commutes num_vars aut) where
  abbrev pub stays : Literal → Bool
  stays l = let node = literal2node l num_vars in image_at aut node == node

  -- The negation of a literal that moves moves.
  negated_moves :
      (l : Literal) → variable l < num_vars → stays l ≡ false → stays (negated l) ≡ false
  negated_moves l lt moves =
      let l' = negated l in
      let lt' : variable l' < num_vars = rw (variable-negated l) lt in
      elim (Bool-cases (stays l')) [
        | inr moves' ↦ moves'
        | inl same ↦
            let e : image_at aut (literal2node l' num_vars) ≡ literal2node l' num_vars =
              ground arith in
            let kept : mapped_literal num_vars aut l' ≡ some l' =
              ap (λ k. node2literal k num_vars) e ∙ node2literal-literal2node l' num_vars lt' in
            let kept_l : mapped_literal num_vars aut l ≡ some l =
              rw (negated-negated l) at (commutes l' l' lt' kept) in
            let at_l =
              node2literal_node (image_at aut (literal2node l num_vars)) num_vars l kept_l in
            ground (arith, at_l, moves)
      ]

  abbrev pub Images : Permutation → Type 0
  Images p =
      (e : Literal)
      → variable e < num_vars
      → image_of p e ≡ (if stays e then none else mapped_literal num_vars aut e)

  -- A literal of a cycle has an image, and its negation the negated image.
  written-CommutesAt :
      (p : Permutation) (e : Literal)
      → IsBuilding p
      → is_open p ≡ false
      → Images p
      → variable e < num_vars
      → contains p.cycles e ≡ true
      → CommutesAt p e
  unfolding image_of
  written-CommutesAt p e building closed images lt there =
      let lt' : variable (negated e) < num_vars = rw (variable-negated e) lt in
      let has : has_key p.image e ≡ true = ground (arith, building.has_image e, closed, there) in
      elim (Bool-cases (stays e)) [
        | inl same ↦
            let no_image : p.image e ≡ none = images e lt ∙ rw same in
            absurd (ground (arith, has, no_image))
        | inr moves ↦ elim (Option-cases (mapped_literal num_vars aut e)) [
          | inl clause ↦
              let no_image : p.image e ≡ none = images e lt ∙ rw moves clause in
              absurd (ground (arith, has, no_image))
          | inr (x, maps) ↦ (
            x,
            images e lt ∙ rw moves maps,
            images (negated e) lt' ∙ rw (negated_moves e lt moves) (commutes e x lt maps),
          )
        ]
      ]

  -- A literal that moves is in a cycle.
  moves_written :
      (p : Permutation) (l : Literal)
      → IsBuilding p
      → Images p
      → variable l < num_vars
      → stays l ≡ false
      → contains p.cycles l ≡ true
  unfolding image_of
  moves_written p l building images lt moves =
      let node = literal2node l num_vars in
      let (below, _) = literal2node_lem l num_vars lt in
      let inside : node < n = omega (arith, below, a.room) in
      let kind : ltb (image_at aut node) (2 * num_vars) ≡ true =
        ground (arith, a.kind node inside, below) in
      let image : p.image l ≡ some (literal_of num_vars (image_at aut node)) =
        images l lt ∙ rw (moves, node2literal-literal_of (image_at aut node) num_vars, kind) in
      ground (arith, building.has_image l, image)

  -- For such a map that commutes with negation, and moves the node of some literal in range, the
  -- callback adds one permutation to the group, the last one, whose image of each literal in range
  -- is that of the map, and which has none where the node stays.
  pub on_automorphism_lem :
      (l : Literal) (group : Group)
      → variable l < num_vars
      → stays l ≡ false
      → (p : Permutation) × (group' : Group) × (on_automorphism num_vars n aut group ≡ some group')
        × (group'.permutations ≡ group.permutations ++ p ∷ [])
        × Images p
  unfolding on_automorphism image_of
  on_automorphism_lem l group lt moves =
      let (p, made, building, closed, images) = permutation_of_lem n num_vars aut back a in
      let range = permutation_of-InRange num_vars n aut p made in
      let at_e : (e : Literal) → contains p.cycles e ≡ true → CommutesAt p e = λ e there.
        let lt_e : variable e < num_vars =
          All-mem (λ (l : Literal). variable l < num_vars) p.cycles e range.literals there in
        written-CommutesAt p e building closed images lt_e there in
      let written : contains p.cycles l ≡ true = moves_written p l building images lt moves in
      let (group', added, last) =
        add_permutation_kept p group l closed written at_e (rw range.size range.literals) in
      (p, group', rw made added, last, images)
