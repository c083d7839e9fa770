-- ===== src/SaucyReader/Printed.antt =====
-- The text of a file of generators, and the group of the generators.
use sat_symmetry.Prelude.{
  ℕ, ◌+◌, ◌<◌, ◌≤◌, ◌≢◌, length, Option, some, List, [], ◌∷◌, ◌++◌, All, ◌>>=◌,
}
use sat_symmetry.StreamBuffer.Decimal.{decimal}
use sat_symmetry.Literal.{Literal, variable}
use sat_symmetry.Permutation.{new_permutation}
use sat_symmetry.Permutation.Cycles.{add_cycles}
use sat_symmetry.Group.{Group, add_permutation}
use sat_symmetry.CnfGraph.{literal2node}

abbrev pub Cycle : Type 0
Cycle = List Literal

abbrev pub Generator : Type 0
Generator = List Cycle

-- The nodes of a file are numbered from 1.
abbrev pub node_text : ℕ → Literal → List ℕ
node_text n l = decimal (literal2node l n + 1)

-- The other literals of a cycle, each behind a comma, and its end.
abbrev pub nodes_text : ℕ → List Literal → List ℕ → List ℕ
nodes_text n [] rest = 41 ∷ rest
nodes_text n (l ∷ ls) rest = 44 ∷ (node_text n l ++ nodes_text n ls rest)

abbrev pub cycle_text : ℕ → Cycle → List ℕ → List ℕ
cycle_text n [] rest = rest
cycle_text n (l ∷ ls) rest = 40 ∷ (node_text n l ++ nodes_text n ls rest)

abbrev pub generator_text : ℕ → Generator → List ℕ → List ℕ
generator_text n [] rest = rest
generator_text n (c ∷ cs) rest = cycle_text n c (generator_text n cs rest)

-- The generators that follow the first one, each behind a comma and a newline, and the end.
abbrev pub generators_text : ℕ → List Generator → List ℕ
generators_text n [] = 10 ∷ 93 ∷ []
generators_text n (g ∷ gs) = 44 ∷ 10 ∷ generator_text n g (generators_text n gs)

abbrev pub file_text : ℕ → List Generator → List ℕ
file_text n [] = 91 ∷ 10 ∷ 93 ∷ []
file_text n (g ∷ gs) = 91 ∷ 10 ∷ generator_text n g (generators_text n gs)

-- Generators are not empty, cycles have two literals or more, and the variables are below n.
abbrev pub IsCycle : ℕ → Cycle → Type 0
IsCycle n c = (2 ≤ length c) × All (λ l. variable l < n) c

abbrev pub IsGenerator : ℕ → Generator → Type 0
IsGenerator n g = (g ≢ []) × All (IsCycle n) g

-- The permutations of the generators are added in their order.
abbrev pub add_generators : ℕ → List Generator → Group → Option Group
add_generators n [] group = some group
add_generators n (g ∷ gs) group =
    add_permutation (add_cycles g (new_permutation n)) group >>= λ group'.
    add_generators n gs group'
