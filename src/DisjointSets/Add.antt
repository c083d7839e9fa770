-- ===== src/DisjointSets/Add.antt =====
-- DisjointSets.h, Add: a new set of one element.
use sat_symmetry.Prelude.{
  ℕ, ◌+◌, ◌%◌, ◌^◌, ◌<◌, ◌≡◌, ◌⊎◌, refl, sym, ◌∙◌, arith, false, Option, none, some, List, ◌==◌,
  leb, if◌then◌else◌, length, length-resize, set, get_or-set, Bool-cases, inl, inr,
}
use sat_symmetry.Group.Watch.{get_or-grow}
use sat_symmetry.DisjointSets.{Node, DisjointSets, new_node, node_at, with_room_for, add}
use sat_symmetry.DisjointSets.Laws.{IsForest, HasRoot, here, above}

-- What the addition of an element leaves.
pub record Added (e : ℕ) (d d' : DisjointSets) : Type 0 where
  pub forest : IsForest d'.nodes
  pub node : (n : Node) × (node_at d'.nodes e ≡ some n)
  pub kept : (i : ℕ) (n : Node) → node_at d.nodes i ≡ some n → node_at d'.nodes i ≡ some n
  pub roots : (i r : ℕ) → HasRoot d.nodes i r → HasRoot d'.nodes i r
  pub others : (i : ℕ) → (e == i) ≡ false → node_at d'.nodes i ≡ node_at d.nodes i
  pub single :
      (HasRoot d'.nodes e e × (d'.num_sets ≡ (d.num_sets + 1) % 2 ^ 32))
      ⊎ ((n : Node) × (node_at d.nodes e ≡ some n) × (d'.num_sets ≡ d.num_sets))

with_room_for_lem :
    (e : ℕ) (nodes : List (Option Node))
    → (e < length (with_room_for e nodes))
      × ((i : ℕ) → node_at (with_room_for e nodes) i ≡ node_at nodes i)
with_room_for_lem e nodes = elim (Bool-cases (leb (length nodes) e)) [
  | inl small ↦ rw small (
    omega (arith, length-resize (e + 1) none nodes),
    λ i. get_or-grow (e + 1) none nodes i (ground arith),
  )
  | inr large ↦ rw large (ground arith, λ i. refl)
]

-- Nodes that are found where they were.
module _ (nodes nodes' : List (Option Node))
    (kept : (i : ℕ) (n : Node) → node_at nodes i ≡ some n → node_at nodes' i ≡ some n) where
  kept-HasRoot : (i r : ℕ) → HasRoot nodes i r → HasRoot nodes' i r
  kept-HasRoot i r (here n at top) = here n (kept i n at) top
  kept-HasRoot i r (above {q} n at up rest) = above n (kept i n at) up (kept-HasRoot q r rest)

module _ (e : ℕ) (d : DisjointSets) (h : IsForest d.nodes) where
  abbrev roomy : List (Option Node)
  roomy = with_room_for e d.nodes

  Added-new : node_at d.nodes e ≡ none → Added e d (add e d)
  unfolding add
  Added-new gone =
      let (inside, same) = with_room_for_lem e d.nodes in
      let nodes' = set roomy e (some (new_node e)) in
      let empty : node_at roomy e ≡ none = same e ∙ gone in
      let value : (j : ℕ)
          → node_at nodes' j ≡ (if e == j then some (new_node e) else node_at d.nodes j) =
        λ j. get_or-set roomy e j (some (new_node e)) none inside ∙ rw (same j) in
      let at_e : node_at nodes' e ≡ some (new_node e) = value e ∙ ground arith in
      let kept : (i : ℕ) (n : Node) → node_at d.nodes i ≡ some n → node_at nodes' i ≡ some n =
        λ i n at. elim (Bool-cases (e == i)) [
          | inl here_too ↦ let eq : e ≡ i = ground arith in cc
          | inr other ↦ value i ∙ rw other at
        ] in
      rw (add, empty)
        record {
          forest = record {
            index = λ j n at. elim (Bool-cases (e == j)) [
              | inl here_too ↦
                  let eq : e ≡ j = ground arith in let n_is : new_node e ≡ n = cc in rw (← n_is) eq
              | inr other ↦ h.index j n (rw (value j, other) at at)
            ];
            parent = λ j q n at up. elim (Bool-cases (e == j)) [
              | inl here_too ↦ let eq : e ≡ j = ground arith in let n_is : new_node e ≡ n = cc in cc
              | inr other ↦
                  let (m, at_q, lt) = h.parent j q n (rw (value j, other) at at) up in
                  (m, kept q m at_q, lt)
            ];
          };
          node = (new_node e, at_e);
          kept = kept;
          roots = kept-HasRoot d.nodes nodes' kept;
          others = λ i other. value i ∙ rw other;
          single = inl (here (new_node e) at_e refl, refl);
        }

  Added-old : (n : Node) → node_at d.nodes e ≡ some n → Added e d (add e d)
  unfolding add
  Added-old n found =
      let (inside, same) = with_room_for_lem e d.nodes in
      let full : node_at roomy e ≡ some n = same e ∙ found in
      rw (add, full)
        record {
          forest = record {
            index = λ j m at. h.index j m (sym (same j) ∙ at);
            parent = λ j q m at up.
                let (k, at_q, lt) = h.parent j q m (sym (same j) ∙ at) up in (k, same q ∙ at_q, lt);
          };
          node = (n, full);
          kept = λ i m at. same i ∙ at;
          roots = kept-HasRoot d.nodes roomy (λ i m at. same i ∙ at);
          others = λ i other. same i;
          single = inr (n, found, refl);
        }

  -- Adding an element to a forest gives a forest with a node for the element, in which all nodes
  -- and roots are as before; an element without a node is its own root, and makes one set more
  -- (modulo 2 ^ 32).
  pub add_lem : Added e d (add e d)
  add_lem = by_node (node_at d.nodes e) refl
    where
      by_node : (r : Option Node) → node_at d.nodes e ≡ r → Added e d (add e d)
      by_node none gone = Added-new gone
      by_node (some n) found = Added-old n found
