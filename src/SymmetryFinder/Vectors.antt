-- ===== src/SymmetryFinder/Vectors.antt =====
-- SaucySymmetryFinder.cc: the vectors that saucy is given, where adj holds where the neighbours of
-- each node begin and end in edj.
use mathlib.Core.List.{append_assoc}
use sat_symmetry.Prelude.{
  ℕ, zero, suc, ◌+◌, ◌-◌, ◌<◌, ◌≡◌, refl, ap, ◌∙◌, arith, List, [], ◌∷◌, ◌++◌, length,
  length-append, get_or, take, drop,
}
use sat_symmetry.CnfGraph.{CnfGraph, neighbour, degree, color}
use sat_symmetry.SymmetryFinder.{ends_of, edges_of, colors_of}

drop-append : (xs ys : List ℕ) → drop (length xs) (xs ++ ys) ≡ ys
drop-append [] ys = refl
drop-append (x ∷ xs) ys = drop-append xs ys

take-append : (xs ys : List ℕ) → take (length xs) (xs ++ ys) ≡ xs
take-append [] ys = refl
take-append (x ∷ xs) ys = ap (◌∷◌ x) (take-append xs ys)

-- Part `from`, …, `to` of a list.
abbrev pub part : ℕ → ℕ → List ℕ → List ℕ
part from to xs = take (to - from) (drop from xs)

part-append :
    (before xs rest : List ℕ) (from to : ℕ)
    → from ≡ length before
    → to ≡ from + length xs
    → part from to (before ++ (xs ++ rest)) ≡ xs
part-append before xs rest from to begins ends =
    let size : to - from ≡ length xs = omega arith in
    rw (size, begins, drop-append before (xs ++ rest)) (take-append xs rest)

ends_of_lem :
    (k i sum j : ℕ) (g : CnfGraph) (before : List ℕ)
    → length before ≡ sum
    → j < k
    → part
        (get_or (sum ∷ ends_of k i sum g) j 0)
        (get_or (sum ∷ ends_of k i sum g) (suc j) 0)
        (before ++ edges_of k i g)
      ≡ neighbour g (i + j)
unfolding ends_of edges_of degree neighbour
ends_of_lem zero i sum j g before size lt = absurd (omega arith)
ends_of_lem (suc k) i sum zero g before size lt =
    let same : i + 0 ≡ i = omega arith in
    rw same (
      part-append before (neighbour g i) (edges_of k (i + 1) g) sum (sum + degree g i) (omega arith)
        refl)
ends_of_lem (suc k) i sum (suc j) g before size lt =
    let same : i + suc j ≡ i + 1 + j = omega arith in
    let longer : length (before ++ neighbour g i) ≡ sum + degree g i =
      omega (arith, length-append before (neighbour g i)) in
    rw (same, ← append_assoc before (neighbour g i) (edges_of k (i + 1) g))
      (ends_of_lem k (i + 1) (sum + degree g i) j g (before ++ neighbour g i) longer (omega arith))

colors_of_lem : (k i j : ℕ) (g : CnfGraph) → j < k → get_or (colors_of k i g) j 0 ≡ color g (i + j)
unfolding colors_of
colors_of_lem zero i j g lt = absurd (omega arith)
colors_of_lem (suc k) i zero g lt = let same : i + 0 ≡ i = omega arith in rw same
colors_of_lem (suc k) i (suc j) g lt =
    let same : i + suc j ≡ i + 1 + j = omega arith in
    rw same (colors_of_lem k (i + 1) j g (omega arith))

-- For each node of the graph the part of the vector of edges that saucy reads, from the entry of
-- the node to the next one, is the list of the neighbours of the node, and the entry of the vector
-- of colours is its colour.
pub vectors_lem :
    (g : CnfGraph) (node : ℕ)
    → node < g.num_nodes
    → let n = g.num_nodes in
      let adj = 0 ∷ ends_of n 0 0 g in
      (part (get_or adj node 0) (get_or adj (suc node) 0) (edges_of n 0 g) ≡ neighbour g node)
      × (get_or (colors_of n 0 g) node 0 ≡ color g node)
vectors_lem g node lt =
    let same : 0 + node ≡ node = omega arith in
    (
      ends_of_lem g.num_nodes 0 0 node g [] refl lt ∙ ap (neighbour g) same,
      colors_of_lem g.num_nodes 0 node g lt ∙ ap (color g) same,
    )
