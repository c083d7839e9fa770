-- ===== src/DisjointSets/Tests.antt =====
-- A chain of three elements and a single one, and the theorems applied to them.
use sat_symmetry.Prelude.{ℕ, zero, suc, ◌<◌, ◌≡◌, refl, arith, Option, none, some, List, [], ◌∷◌}
use sat_symmetry.DisjointSets.{Node, DisjointSets, node_at, union, find}
use sat_symmetry.DisjointSets.Laws.{IsForest, HasRoot}
use sat_symmetry.DisjointSets.Find.{Relinked, find_lem}
use sat_symmetry.DisjointSets.Union.{Merged, union_lem}

abbrev chain_nodes : List (Option Node)
chain_nodes =
    some (record { parent = none; index = 0; rank = 2 })
    ∷ some (record { parent = some 0; index = 1; rank = 1 })
    ∷ some (record { parent = some 1; index = 2; rank = 0 })
    ∷ some (record { parent = none; index = 3; rank = 0 })
    ∷ []

abbrev chain : DisjointSets
chain = record { nodes = chain_nodes; num_elements = 4; num_sets = 2 }

abbrev lowest : Node
lowest = record { parent = some 1; index = 2; rank = 0 }

abbrev alone : Node
alone = record { parent = none; index = 3; rank = 0 }

chain-index : (i : ℕ) (n : Node) → node_at chain_nodes i ≡ some n → n.index ≡ i
chain-index zero n at = cc
chain-index (suc zero) n at = cc
chain-index (suc (suc zero)) n at = cc
chain-index (suc (suc (suc zero))) n at = cc
chain-index (suc (suc (suc (suc i)))) n at = cc

chain-parent :
    (i q : ℕ) (n : Node)
    → node_at chain_nodes i ≡ some n
    → n.parent ≡ some q
    → (m : Node) × (node_at chain_nodes q ≡ some m) × (n.rank < m.rank)
chain-parent zero q n at up = cc
chain-parent (suc zero) q n at up =
    let q_is : 0 ≡ q = cc in
    let rank : n.rank ≡ 1 = cc in
    (record { parent = none; index = 0; rank = 2 }, rw (← q_is), omega (arith, rank))
chain-parent (suc (suc zero)) q n at up =
    let q_is : 1 ≡ q = cc in
    let rank : n.rank ≡ 0 = cc in
    (record { parent = some 0; index = 1; rank = 1 }, rw (← q_is), omega (arith, rank))
chain-parent (suc (suc (suc zero))) q n at up = cc
chain-parent (suc (suc (suc (suc i)))) q n at up = cc

chain-IsForest : IsForest chain_nodes
chain-IsForest = record { index = chain-index; parent = chain-parent }

find_example :
    (r : ℕ) × (nodes' : List (Option Node)) × (find 2 chain
      ≡ some (r, record chain { nodes = nodes' }))
    × HasRoot chain_nodes 2 r
    × Relinked chain_nodes nodes'
find_example = find_lem chain 2 lowest chain-IsForest refl

union_example : (d' : DisjointSets) × (union 2 3 chain ≡ some d') × Merged 2 3 chain d'
union_example = union_lem chain 2 3 lowest alone chain-IsForest refl refl
