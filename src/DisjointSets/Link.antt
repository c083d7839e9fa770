-- ===== src/DisjointSets/Link.antt =====
-- DisjointSets.h, Union: one root hung below the other.
use sat_symmetry.Prelude.{
  ℕ, ◌+◌, ◌<◌, ◌≡◌, ◌⊎◌, refl, sym, ap, ◌∙◌, arith, false, Option, none, some, List, ◌==◌, ltb,
  if◌then◌else◌, set, set-set, Bool-cases, inl, inr,
}
use sat_symmetry.DisjointSets.{Node, new_disjoint_sets, node_at, hang, link}
use sat_symmetry.DisjointSets.Laws.{IsForest, HasRoot, here, above, node_at-set}

pub new_disjoint_sets-IsForest : IsForest new_disjoint_sets.nodes
unfolding new_disjoint_sets
new_disjoint_sets-IsForest = record { index = λ i n at. cc; parent = λ i q n at up. cc }

-- The elements that had root `l` have root `w`.
abbrev pub Moved : ℕ → ℕ → List (Option Node) → List (Option Node) → Type 0
Moved w l nodes nodes' = (i r : ℕ) → HasRoot nodes i r → HasRoot nodes' i (if l == r then w else r)

module _ (nodes : List (Option Node)) (l w : ℕ) (nl nw : Node) (h : IsForest nodes)
    (at_l : node_at nodes l ≡ some nl) (top_l : nl.parent ≡ none) (at_w : node_at nodes w ≡ some nw)
    (top_w : nw.parent ≡ none) (less : nl.rank < nw.rank) where
  abbrev linked : List (Option Node)
  linked = set nodes l (some (hang w nl))

  linked_elsewhere : (j : ℕ) → (l == j) ≡ false → node_at linked j ≡ node_at nodes j
  linked_elsewhere j other = node_at-set nodes l j nl (hang w nl) at_l ∙ rw other

  linked_here : node_at linked l ≡ some (hang w nl)
  linked_here = node_at-set nodes l l nl (hang w nl) at_l ∙ ground arith

  linked_apart : (l == w) ≡ false
  linked_apart = elim (Bool-cases (l == w)) [
    | inl same ↦
        let e : l ≡ w = ground arith in
        let same_node : nl ≡ nw = cc in absurd (omega (arith, ap (λ (x : Node). x.rank) same_node))
    | inr other ↦ other
  ]

  linked-absent : (j : ℕ) → node_at nodes j ≡ none → node_at linked j ≡ none
  linked-absent j gone = elim (Bool-cases (l == j)) [
    | inl same ↦ let e : l ≡ j = ground arith in cc (at_l, gone, e)
    | inr other ↦ linked_elsewhere j other ∙ gone
  ]

  linked-Moved : Moved w l nodes linked
  linked-Moved i r (here m at top) = elim (Bool-cases (l == i)) [
    | inl same ↦
        let e : l ≡ i = ground arith in
        rw (same, ← e)
          (above (hang w nl) linked_here refl
            (here nw (linked_elsewhere w linked_apart ∙ at_w) top_w))
    | inr other ↦ rw other (here m (linked_elsewhere i other ∙ at) top)
  ]
  linked-Moved i r (above {q} m at up rest) = elim (Bool-cases (l == i)) [
    | inl same ↦ let e : l ≡ i = ground arith in let m_is : nl ≡ m = cc (at_l, e) in cc
    | inr other ↦ above m (linked_elsewhere i other ∙ at) up (linked-Moved q r rest)
  ]

  linked-IsForest : IsForest linked
  linked-IsForest = record {
    index = λ j m at. elim (Bool-cases (l == j)) [
      | inl same ↦
          let e : l ≡ j = ground arith in
          let m_is : hang w nl ≡ m = cc (linked_here, e) in rw (← m_is) (h.index l nl at_l ∙ e)
      | inr other ↦ h.index j m (sym (linked_elsewhere j other) ∙ at)
    ];
    parent = λ j q m at up. elim (Bool-cases (l == j)) [
      | inl same ↦
          let e : l ≡ j = ground arith in
          let m_is : hang w nl ≡ m = cc (linked_here, e) in
          let q_is : w ≡ q = cc in
          (nw, rw (← q_is) (linked_elsewhere w linked_apart ∙ at_w), rw (← m_is) less)
      | inr other ↦
          let (k, at_q, lt) = h.parent j q m (sym (linked_elsewhere j other) ∙ at) up in
          elim (Bool-cases (l == q)) [
            | inl below ↦
                let e : l ≡ q = ground arith in
                let k_is : k ≡ nl = cc (at_l, e) in
                (hang w nl, rw (← e) linked_here, omega (arith, lt, ap (λ (x : Node). x.rank) k_is))
            | inr elsewhere ↦ (k, linked_elsewhere q elsewhere ∙ at_q, lt)
          ]
    ];
  }

module _ (nodes : List (Option Node)) (x : ℕ) (n : Node) (h : IsForest nodes)
    (at : node_at nodes x ≡ some n) (top : n.parent ≡ none) where
  abbrev higher : Node
  higher = record n { rank = n.rank + 1 }

  abbrev raised : List (Option Node)
  raised = set nodes x (some higher)

  raised_lem : (j : ℕ) → node_at raised j ≡ (if x == j then some higher else node_at nodes j)
  raised_lem j = node_at-set nodes x j n higher at

  raised-absent : (j : ℕ) → node_at nodes j ≡ none → node_at raised j ≡ none
  raised-absent j gone = elim (Bool-cases (x == j)) [
    | inl same ↦ let e : x ≡ j = ground arith in cc (at, gone, e)
    | inr other ↦ raised_lem j ∙ rw other gone
  ]

  raised-HasRoot : (i r : ℕ) → HasRoot nodes i r → HasRoot raised i r
  raised-HasRoot i r (here m at' top') = elim (Bool-cases (x == i)) [
    | inl same ↦ here higher (raised_lem i ∙ rw same) top
    | inr other ↦ here m (raised_lem i ∙ rw other at') top'
  ]
  raised-HasRoot i r (above {q} m at' up rest) = elim (Bool-cases (x == i)) [
    | inl same ↦ let e : x ≡ i = ground arith in let m_is : n ≡ m = cc (at, e) in cc
    | inr other ↦ above m (raised_lem i ∙ rw other at') up (raised-HasRoot q r rest)
  ]

  raised-IsForest : IsForest raised
  raised-IsForest = record {
    index = λ j m at'. elim (Bool-cases (x == j)) [
      | inl same ↦
          let e : x ≡ j = ground arith in
          let found : node_at raised j ≡ some higher = raised_lem j ∙ rw same in
          let m_is : higher ≡ m = cc (found, at') in rw (← m_is) (h.index x n at ∙ e)
      | inr other ↦ h.index j m (rw (raised_lem j, other) at at')
    ];
    parent = λ j q m at' up. elim (Bool-cases (x == j)) [
      | inl same ↦
          let found : node_at raised j ≡ some higher = raised_lem j ∙ rw same in
          let m_is : higher ≡ m = cc (found, at') in cc
      | inr other ↦
          let (k, at_q, lt) = h.parent j q m (rw (raised_lem j, other) at at') up in
          elim (Bool-cases (x == q)) [
            | inl below ↦
                let e : x ≡ q = ground arith in
                let k_is : k ≡ n = cc (at, e) in
                (higher, raised_lem q ∙ rw below, omega (arith, lt, ap (λ (x : Node). x.rank) k_is))
            | inr elsewhere ↦ (k, raised_lem q ∙ rw elsewhere at_q, lt)
          ]
    ];
  }

-- The two roots are merged.
abbrev pub Links : ℕ → ℕ → List (Option Node) → List (Option Node) → Type 0
Links x y nodes nodes' =
    (w : ℕ) × (l : ℕ) × (((w ≡ x) × (l ≡ y)) ⊎ ((w ≡ y) × (l ≡ x)))
    × Moved w l nodes nodes'
    × ((j : ℕ) → node_at nodes j ≡ none → node_at nodes' j ≡ none)

pub link_lem :
    (nodes : List (Option Node)) (x y : ℕ) (nx ny : Node)
    → IsForest nodes
    → node_at nodes x ≡ some nx
    → nx.parent ≡ none
    → node_at nodes y ≡ some ny
    → ny.parent ≡ none
    → (x == y) ≡ false
    → IsForest (link x nx y ny nodes) × Links x y nodes (link x nx y ny nodes)
unfolding link
link_lem nodes x y nx ny h at_x top_x at_y top_y apart = elim (Bool-cases (ltb nx.rank ny.rank)) [
  | inl below ↦
      let lt : nx.rank < ny.rank = ground arith in
      rw below (
        linked-IsForest nodes x y nx ny h at_x top_x at_y top_y lt,
        (
          y,
          x,
          inr (refl, refl),
          linked-Moved nodes x y nx ny h at_x top_x at_y top_y lt,
          linked-absent nodes x y nx ny h at_x top_x at_y top_y lt,
        ),
      )
  | inr not_below ↦ elim (Bool-cases (ltb ny.rank nx.rank)) [
    | inl below ↦
        let lt : ny.rank < nx.rank = ground arith in
        rw (not_below, below)
          (
            linked-IsForest nodes y x ny nx h at_y top_y at_x top_x lt,
            (
              x,
              y,
              inl (refl, refl),
              linked-Moved nodes y x ny nx h at_y top_y at_x top_x lt,
              linked-absent nodes y x ny nx h at_y top_y at_x top_x lt,
            ),
          )
    | inr equal ↦
        let ns = raised nodes x nx h at_x top_x in
        let hi = higher nodes x nx h at_x top_x in
        let forest = raised-IsForest nodes x nx h at_x top_x in
        let up_x : node_at ns x ≡ some hi = raised_lem nodes x nx h at_x top_x x ∙ ground arith in
        let up_y : node_at ns y ≡ some ny = raised_lem nodes x nx h at_x top_x y ∙ rw apart at_y in
        let lt : ny.rank < hi.rank = ground arith in
        let order = set-set nodes y x (some (hang x ny)) (some hi) (λ e. ground arith) in
        rw (not_below, equal, order)
          (
            linked-IsForest ns y x ny hi forest up_y top_y up_x top_x lt,
            (
              x,
              y,
              inl (refl, refl),
              λ i r root.
                  linked-Moved ns y x ny hi forest up_y top_y up_x top_x lt i r
                    (raised-HasRoot nodes x nx h at_x top_x i r root),
              λ j gone.
                  linked-absent ns y x ny hi forest up_y top_y up_x top_x lt j
                    (raised-absent nodes x nx h at_x top_x j gone),
            ),
          )
  ]
]
