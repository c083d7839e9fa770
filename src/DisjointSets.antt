-- ===== src/DisjointSets.antt =====
-- include/cosy/DisjointSets.h: union by rank and find with path compression. A pointer to a node is
-- the number of its place in the vector. A result `none` is a null pointer that is followed, or
-- fuel that runs out; a fuel above the rank of every node is enough. Printing is left out.
pub mod Laws
pub mod Find
pub mod Link
pub mod Union
pub mod Add
pub mod Tests
use sat_symmetry.Prelude.{
  ℕ, zero, suc, ◌+◌, ◌-◌, ◌%◌, ◌^◌, max, Bool, true, false, Option, none, some, List, [], ◌∷◌, ◌==◌,
  ltb, leb, if◌then◌else◌, length, get_or, resize, set, ◌>>=◌,
}

pub record Node : Type 0 where
  pub parent : Option ℕ
  pub index : ℕ
  pub rank : ℕ

pub record DisjointSets : Type 0 where
  pub nodes : List (Option Node)
  pub num_elements : ℕ
  pub num_sets : ℕ

unfoldable pub new_disjoint_sets : DisjointSets
new_disjoint_sets = record { nodes = []; num_elements = 0; num_sets = 0 }

abbrev pub new_node : ℕ → Node
new_node n = record { parent = none; index = n; rank = 0 }

-- `_nodes[i].get()`
abbrev pub node_at : List (Option Node) → ℕ → Option Node
node_at nodes i = get_or nodes i none

abbrev pub with_room_for : ℕ → List (Option Node) → List (Option Node)
with_room_for element nodes =
    if leb (length nodes) element then resize (element + 1) none nodes else nodes

unfoldable pub add : ℕ → DisjointSets → DisjointSets
add element d =
    let nodes = with_room_for element d.nodes in
    elim (node_at nodes element) [
      | none ↦ record {
        nodes = set nodes element (some (new_node element));
        num_elements = (d.num_elements + 1) % 2 ^ 32;
        num_sets = (d.num_sets + 1) % 2 ^ 32;
      }
      | some n ↦ record d { nodes = nodes }
    ]

-- The greatest rank of a node.
unfoldable pub top_rank : List (Option Node) → ℕ
top_rank [] = 0
top_rank (none ∷ nodes) = top_rank nodes
top_rank (some n ∷ nodes) = max n.rank (top_rank nodes)

-- `while (root->parent != nullptr) root = root->parent;`
unfoldable pub find_root : ℕ → List (Option Node) → ℕ → Option ℕ
find_root zero nodes i = none
find_root (suc fuel) nodes i = do
  n ← node_at nodes i
  elim n.parent [ none ↦ some i | some parent ↦ find_root fuel nodes parent ]

abbrev pub hang : ℕ → Node → Node
hang root n = record n { parent = some root }

-- `while (set != root) { … }`
unfoldable pub compress : ℕ → ℕ → List (Option Node) → ℕ → Option (List (Option Node))
compress zero root nodes i = none
compress (suc fuel) root nodes i = elim (i == root) [
  | true ↦ some nodes
  | false ↦ do
    n ← node_at nodes i
    parent ← n.parent
    compress fuel root (set nodes i (some (hang root n))) parent
]

unfoldable pub find : ℕ → DisjointSets → Option (ℕ × DisjointSets)
find element d = do
  root ← find_root (top_rank d.nodes + 1) d.nodes element
  nodes ← compress (top_rank d.nodes + 1) root d.nodes element
  n ← node_at nodes root
  some (n.index, record d { nodes = nodes })

-- The root of less rank hangs below the other one.
unfoldable pub link : ℕ → Node → ℕ → Node → List (Option Node) → List (Option Node)
link x x_root y y_root nodes =
    if ltb x_root.rank y_root.rank
    then set nodes x (some (hang y x_root))
    else if ltb y_root.rank x_root.rank
    then set nodes y (some (hang x y_root))
    else set (set nodes y (some (hang x y_root))) x
        (some (record x_root { rank = x_root.rank + 1 }))

unfoldable pub union : ℕ → ℕ → DisjointSets → Option DisjointSets
union x y d = do
  (x', d1) ← find x d
  (y', d2) ← find y d1
  x_root ← node_at d2.nodes x'
  y_root ← node_at d2.nodes y'
  if x' == y'
      then some d2
      else some (record d2 {
        nodes = link x' x_root y' y_root d2.nodes;
        num_sets = (d2.num_sets + (2 ^ 32 - 1)) % 2 ^ 32;
      })
