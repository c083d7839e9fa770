-- ===== src/DisjointSets/Laws.antt =====
-- DisjointSets.h: the forest of nodes, and which root an element has.
use sat_symmetry.Prelude.{
  ℕ, zero, suc, ◌≤◌, ◌<◌, ◌≡◌, ◌⊎◌, refl, ap, arith, Option, none, some, List, [], ◌∷◌, ◌==◌,
  if◌then◌else◌, length, set, get_or-set, inl, inr,
}
use sat_symmetry.DisjointSets.{Node, node_at, top_rank}

-- Every node stands at its index, and below a node of greater rank if it has a parent.
pub record IsForest (nodes : List (Option Node)) : Type 0 where
  pub index : (i : ℕ) (n : Node) → node_at nodes i ≡ some n → n.index ≡ i
  pub parent :
      (i q : ℕ) (n : Node)
      → node_at nodes i ≡ some n
      → n.parent ≡ some q
      → (m : Node) × (node_at nodes q ≡ some m) × (n.rank < m.rank)

-- The root that the parents lead to.
pub data HasRoot (nodes : List (Option Node)) : ℕ → ℕ → Type 0 where
  here : {i : ℕ} (n : Node) → node_at nodes i ≡ some n → n.parent ≡ none → HasRoot nodes i i
  above :
      {i q r : ℕ} (n : Node)
      → node_at nodes i ≡ some n
      → n.parent ≡ some q
      → HasRoot nodes q r
      → HasRoot nodes i r

abbrev pub Bounded : ℕ → List (Option Node) → Type 0
Bounded b nodes = (i : ℕ) (n : Node) → node_at nodes i ≡ some n → n.rank ≤ b

pub Bounded-top_rank : (nodes : List (Option Node)) → Bounded (top_rank nodes) nodes
unfolding top_rank
Bounded-top_rank [] i n e = cc
Bounded-top_rank (none ∷ nodes) zero n e = cc
Bounded-top_rank (none ∷ nodes) (suc i) n e = Bounded-top_rank nodes i n e
Bounded-top_rank (some m ∷ nodes) zero n e = let same : m ≡ n = cc in rw (← same) (omega arith)
Bounded-top_rank (some m ∷ nodes) (suc i) n e = omega (arith, Bounded-top_rank nodes i n e)

pub node_at-inside :
    (nodes : List (Option Node)) (i : ℕ) (n : Node) → node_at nodes i ≡ some n → i < length nodes
node_at-inside [] i n e = cc
node_at-inside (x ∷ nodes) zero n e = omega arith
node_at-inside (x ∷ nodes) (suc i) n e = omega (arith, node_at-inside nodes i n e)

pub node_at-set :
    (nodes : List (Option Node)) (i j : ℕ) (n m : Node)
    → node_at nodes i ≡ some n
    → node_at (set nodes i (some m)) j ≡ (if i == j then some m else node_at nodes j)
node_at-set nodes i j n m e = get_or-set nodes i j (some m) none (node_at-inside nodes i n e)

-- The root of a node: it is one, and no node of less rank, or the node itself.
pub root_of :
    (nodes : List (Option Node)) (i r : ℕ) (n : Node)
    → IsForest nodes
    → node_at nodes i ≡ some n
    → HasRoot nodes i r
    → (m : Node) × (node_at nodes r ≡ some m) × (m.parent ≡ none) × ((i ≡ r) ⊎ (n.rank < m.rank))
root_of nodes i r n h e (here m at top) = (m, at, top, inl refl)
root_of nodes i r n h e (above {q} n' at up rest) =
    let (k, at_q, lt) = h.parent i q n' at up in
    let (m, at_r, top, less) = root_of nodes q r k h at_q rest in
    let same : n' ≡ n = cc in
    (
      m,
      at_r,
      top,
      inr (elim less [
        | inl eq ↦
            let km : k ≡ m = cc in
            omega (arith, ap (λ (x : Node). x.rank) km, ap (λ (x : Node). x.rank) same)
        | inr lt' ↦ omega (arith, ap (λ (x : Node). x.rank) same)
      ]),
    )

-- An element has one root.
pub same_root :
    (nodes : List (Option Node)) (i r s : ℕ) → HasRoot nodes i r → HasRoot nodes i s → r ≡ s
same_root nodes i r s (here n at top) (here m at' top') = refl
same_root nodes i r s (here n at top) (above {q} m at' up rest) = let same : n ≡ m = cc in cc
same_root nodes i r s (above {q} n at up rest) (here m at' top') = let same : n ≡ m = cc in cc
same_root nodes i r s (above {q} n at up rest) (above {q = q'} m at' up' rest') =
    let same : n ≡ m = cc in
    let q_same : q ≡ q' = cc in same_root nodes q r s rest (rw (← q_same) at rest')
