-- ===== src/DisjointSets/Find.antt =====
-- DisjointSets.h, Find: the climb to the root, and the path compression.
use sat_symmetry.Prelude.{
  ℕ, zero, suc, ◌+◌, ◌<◌, ◌≡◌, refl, sym, ap, ◌∙◌, arith, false, Option, none, some, List, ◌==◌,
  set, Bool-cases, Option-cases, inl, inr,
}
use sat_symmetry.DisjointSets.{
  Node, DisjointSets, node_at, top_rank, hang, find_root, compress, find,
}
use sat_symmetry.DisjointSets.Laws.{
  IsForest, HasRoot, here, above, Bounded, Bounded-top_rank, node_at-set, root_of, same_root,
}

-- The nodes are relinked: every element keeps its root and its rank, and there are no new ones.
pub record Relinked (nodes nodes' : List (Option Node)) : Type 0 where
  pub forest : IsForest nodes'
  pub roots : (i r : ℕ) → HasRoot nodes i r → HasRoot nodes' i r
  pub ranks :
      (i : ℕ) (n : Node)
      → node_at nodes i ≡ some n
      → (m : Node) × (node_at nodes' i ≡ some m) × (m.rank ≡ n.rank)
  pub bounded : (b : ℕ) → Bounded b nodes → Bounded b nodes'
  pub absent : (i : ℕ) → node_at nodes i ≡ none → node_at nodes' i ≡ none

Relinked-refl : (nodes : List (Option Node)) → IsForest nodes → Relinked nodes nodes
Relinked-refl nodes h = record {
  forest = h;
  roots = λ i r root. root;
  ranks = λ i n at. (n, at, refl);
  bounded = λ b bounded. bounded;
  absent = λ i gone. gone;
}

pub Relinked-trans :
    (nodes nodes' nodes'' : List (Option Node))
    → Relinked nodes nodes'
    → Relinked nodes' nodes''
    → Relinked nodes nodes''
Relinked-trans nodes nodes' nodes'' x y = record {
  forest = y.forest;
  roots = λ i r root. y.roots i r (x.roots i r root);
  ranks = λ i n at.
      let (m, at', same) = x.ranks i n at in
      let (k, at'', same') = y.ranks i m at' in (k, at'', same' ∙ same);
  bounded = λ b bounded. y.bounded b (x.bounded b bounded);
  absent = λ i gone. y.absent i (x.absent i gone);
}

-- Where the parents go on above a node.
root_above :
    (nodes : List (Option Node)) (i q r : ℕ) (n : Node)
    → node_at nodes i ≡ some n
    → n.parent ≡ some q
    → HasRoot nodes i r
    → HasRoot nodes q r
root_above nodes i q r n at up (here m at' top) = let same : n ≡ m = cc in cc
root_above nodes i q r n at up (above {q = q'} m at' up' rest) =
    let same : n ≡ m = cc in let q_same : q' ≡ q = cc in rw q_same at rest

module _ (nodes : List (Option Node)) (i r : ℕ) (n : Node) (h : IsForest nodes)
    (at : node_at nodes i ≡ some n) (root : HasRoot nodes i r) (apart : (i == r) ≡ false) where
  abbrev hung : List (Option Node)
  hung = set nodes i (some (hang r n))

  hung_elsewhere : (j : ℕ) → (i == j) ≡ false → node_at hung j ≡ node_at nodes j
  hung_elsewhere j other = node_at-set nodes i j n (hang r n) at ∙ rw other

  hung_here : node_at hung i ≡ some (hang r n)
  hung_here = node_at-set nodes i i n (hang r n) at ∙ ground arith

  hung_parent :
      (j q : ℕ) (m : Node)
      → node_at hung j ≡ some m
      → m.parent ≡ some q
      → (k : Node) × (node_at hung q ≡ some k) × (m.rank < k.rank)
  hung_parent j q m at' up = elim (Bool-cases (i == j)) [
    | inl same ↦
        let e : i ≡ j = ground arith in
        let m_is : hang r n ≡ m = cc (hung_here, e) in
        let q_is : r ≡ q = cc in
        let (k, at_r, top, less) = root_of nodes i r n h at root in
        let lt : n.rank < k.rank = elim less [ inl eq ↦ absurd (ground arith) | inr lt ↦ lt ] in
        (k, rw (← q_is) (hung_elsewhere r apart ∙ at_r), rw (← m_is) lt)
    | inr other ↦
        let (k, at_q, lt) = h.parent j q m (sym (hung_elsewhere j other) ∙ at') up in
        elim (Bool-cases (i == q)) [
          | inl below ↦
              let e : i ≡ q = ground arith in
              let k_is : k ≡ n = cc (at, e) in
              (hang r n, rw (← e) hung_here, omega (arith, lt, ap (λ (x : Node). x.rank) k_is))
          | inr elsewhere ↦ (k, hung_elsewhere q elsewhere ∙ at_q, lt)
        ]
  ]

  hung_roots : (j s : ℕ) → HasRoot nodes j s → HasRoot hung j s
  hung_roots j s (here m at' top) = elim (Bool-cases (i == j)) [
    | inl same ↦
        let e : i ≡ j = ground arith in
        let whole : HasRoot nodes j j = here m at' top in
        let bad : i ≡ r = same_root nodes i i r (rw (← e) at whole) root in absurd (ground arith)
    | inr other ↦ here m (hung_elsewhere j other ∙ at') top
  ]
  hung_roots j s (above {q} m at' up rest) = elim (Bool-cases (i == j)) [
    | inl same ↦
        let e : i ≡ j = ground arith in
        let whole : HasRoot nodes j s = above m at' up rest in
        let s_is : r ≡ s = same_root nodes i r s root (rw (← e) at whole) in
        let (k, at_r, top, less) = root_of nodes i r n h at root in
        rw (← e, ← s_is)
          (above (hang r n) hung_here refl (here k (hung_elsewhere r apart ∙ at_r) top))
    | inr other ↦ above m (hung_elsewhere j other ∙ at') up (hung_roots q s rest)
  ]

  hang-Relinked : Relinked nodes hung
  hang-Relinked = record {
    forest = record {
      index = λ j m at'. elim (Bool-cases (i == j)) [
        | inl same ↦
            let e : i ≡ j = ground arith in
            let m_is : hang r n ≡ m = cc (hung_here, e) in rw (← m_is) (h.index i n at ∙ e)
        | inr other ↦ h.index j m (sym (hung_elsewhere j other) ∙ at')
      ];
      parent = hung_parent;
    };
    roots = hung_roots;
    ranks = λ j m at'. elim (Bool-cases (i == j)) [
      | inl same ↦
          let e : i ≡ j = ground arith in
          let m_is : n ≡ m = cc (at, e) in
          (hang r n, rw (← e) hung_here, ap (λ (x : Node). x.rank) m_is)
      | inr other ↦ (m, hung_elsewhere j other ∙ at', refl)
    ];
    bounded = λ b bounded j m at'. elim (Bool-cases (i == j)) [
      | inl same ↦
          let e : i ≡ j = ground arith in
          let m_is : hang r n ≡ m = cc (hung_here, e) in rw (← m_is) (bounded i n at)
      | inr other ↦ bounded j m (sym (hung_elsewhere j other) ∙ at')
    ];
    absent = λ j gone. elim (Bool-cases (i == j)) [
      | inl same ↦ let e : i ≡ j = ground arith in cc (at, gone, e)
      | inr other ↦ hung_elsewhere j other ∙ gone
    ];
  }

module _ (b : ℕ) where
  compress-Relinked :
      (fuel : ℕ) (nodes : List (Option Node)) (i r : ℕ) (n : Node)
      → IsForest nodes
      → Bounded b nodes
      → HasRoot nodes i r
      → node_at nodes i ≡ some n
      → b < fuel + n.rank
      → (nodes' : List (Option Node)) × (compress fuel r nodes i ≡ some nodes')
        × Relinked nodes nodes'
  unfolding compress
  compress-Relinked zero nodes i r n h bounded root at enough =
      absurd (omega (arith, bounded i n at))
  compress-Relinked (suc fuel) nodes i r n h bounded root at enough = elim (Bool-cases (i == r)) [
    | inl same ↦ (nodes, rw (compress, same), Relinked-refl nodes h)
    | inr apart ↦ elim (Option-cases n.parent) [
      | inl top ↦
          let self : HasRoot nodes i i = here n at top in
          let bad : i ≡ r = same_root nodes i i r self root in absurd (ground arith)
      | inr (q, up) ↦
          let (m, at_q, lt) = h.parent i q n at up in
          let first = hang-Relinked nodes i r n h at root apart in
          let (m', at_q', rank) = first.ranks q m at_q in
          let root_q = first.roots q r (root_above nodes i q r n at up root) in
          let (nodes', made, rest) =
            compress-Relinked fuel (set nodes i (some (hang r n))) q r m' first.forest
              (first.bounded b bounded) root_q at_q' (omega (arith, rank)) in
          (
            nodes',
            rw (compress, apart, at, up, made),
            Relinked-trans nodes (set nodes i (some (hang r n))) nodes' first rest,
          )
    ]
  ]

  find_root-HasRoot :
      (fuel : ℕ) (nodes : List (Option Node)) (i : ℕ) (n : Node)
      → IsForest nodes
      → Bounded b nodes
      → node_at nodes i ≡ some n
      → b < fuel + n.rank
      → (r : ℕ) × (find_root fuel nodes i ≡ some r) × HasRoot nodes i r
  unfolding find_root
  find_root-HasRoot zero nodes i n h bounded at enough = absurd (omega (arith, bounded i n at))
  find_root-HasRoot (suc fuel) nodes i n h bounded at enough = elim (Option-cases n.parent) [
    | inl top ↦ (i, rw (at, top), here n at top)
    | inr (q, up) ↦
        let (m, at_q, lt) = h.parent i q n at up in
        let (r, made, root) = find_root-HasRoot fuel nodes q m h bounded at_q (omega arith) in
        (r, rw (at, up, made), above n at up root)
  ]

-- In a forest find of an element that was added ends with its root, and path compression keeps the
-- forest, and the root and the rank of every element, and adds none: the fuel is enough.
pub find_lem :
    (d : DisjointSets) (i : ℕ) (n : Node)
    → IsForest d.nodes
    → node_at d.nodes i ≡ some n
    → (r : ℕ) × (nodes' : List (Option Node)) × (find i d ≡ some (r, record d { nodes = nodes' }))
      × HasRoot d.nodes i r
      × Relinked d.nodes nodes'
unfolding find
find_lem d i n h at =
    let bounded = Bounded-top_rank d.nodes in
    let top = top_rank d.nodes in
    let (r, climbed, root) =
      find_root-HasRoot top (top + 1) d.nodes i n h bounded at (omega arith) in
    let (nodes', made, relinked) =
      compress-Relinked top (top + 1) d.nodes i r n h bounded root at (omega arith) in
    let (m, at_r, _, _) = root_of d.nodes i r n h at root in
    let (m', at_r', _) = relinked.ranks r m at_r in
    let index : m'.index ≡ r = relinked.forest.index r m' at_r' in
    (r, nodes', rw (climbed, made, at_r', index), root, relinked)
