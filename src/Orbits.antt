-- ===== src/Orbits.antt =====
-- include/cosy/Orbits.h and src/Orbits.cc: the variables that the cycles of some permutations
-- connect. `walk` stands for the order in which an `unordered_map` is walked over. The set `used`
-- has the elements of the list of symmetric variables. A result `none` is one of the disjoint sets.
pub mod Laws
pub mod Symmetric
pub mod Finest
pub mod Classes
pub mod Tests
use sat_symmetry.Prelude.{
  ℕ, zero, suc, ◌+◌, Bool, Option, none, some, List, [], ◌∷◌, ◌++◌, ◌==◌, if◌then◌else◌, length,
  insert_new, ◌>>=◌,
}
use sat_symmetry.Literal.{Literal, BooleanVariable, variable}
use sat_symmetry.Permutation.{Permutation, number_of_cycles, cycle, last_element_in_cycle}
use sat_symmetry.DisjointSets.{DisjointSets, new_disjoint_sets, add, union, find}

pub record Orbits : Type 0 where
  pub symmetrics : List BooleanVariable
  pub orbits : List (List BooleanVariable)

-- The variables found, and the sets of connected ones.
pub record Connected : Type 0 where
  pub symmetrics : List BooleanVariable
  pub sets : DisjointSets

unfoldable pub connect : Literal → Literal → Connected → Option Connected
connect element image s = do
  let symmetrics = insert_new (variable element) s.symmetrics
  sets ← union (variable element) (variable image) (add (variable image) s.sets)
  some (record { symmetrics = symmetrics; sets = sets })

unfoldable pub connect_cycle : Literal → List Literal → Connected → Option Connected
connect_cycle element [] s = some s
connect_cycle element (image ∷ rest) s = do
  s' ← connect element image s
  connect_cycle image rest s'

-- The cycles `c`, …, `c + n - 1`.
unfoldable pub connect_cycles : Permutation → ℕ → ℕ → Connected → Option Connected
connect_cycles p zero c s = some s
connect_cycles p (suc n) c s = do
  let element = last_element_in_cycle p c
  s' ← connect_cycle element (cycle p c) (record s { sets = add (variable element) s.sets })
  connect_cycles p n (c + 1) s'

unfoldable pub connect_all : List Permutation → Connected → Option Connected
connect_all [] s = some s
connect_all (p ∷ ps) s = do s' ← connect_cycles p (number_of_cycles p) 0 s; connect_all ps s'

abbrev pub Classes : Type 0
Classes = List (ℕ × List BooleanVariable)

-- `m_orbits[representant].push_back(variable)`
abbrev pub push_class : ℕ → BooleanVariable → Classes → Classes
push_class r v [] = (r, v ∷ []) ∷ []
push_class r v ((s, vs) ∷ rest) =
    if s == r then (s, vs ++ v ∷ []) ∷ rest else (s, vs) ∷ push_class r v rest

unfoldable pub classes_of : List BooleanVariable → DisjointSets → Classes → Option Classes
classes_of [] d classes = some classes
classes_of (v ∷ vs) d classes = do
  (representant, d') ← find v d
  classes_of vs d' (push_class representant v classes)

abbrev pub members : Classes → List (List BooleanVariable)
members [] = []
members ((r, vs) ∷ rest) = vs ∷ members rest

unfoldable pub assign : (Classes → Classes) → List Permutation → Option Orbits
assign walk permutations = do
  s ← connect_all permutations (record { symmetrics = []; sets = new_disjoint_sets })
  classes ← classes_of s.symmetrics s.sets []
  some (record { symmetrics = s.symmetrics; orbits = members (walk classes) })

unfoldable pub number_of_orbits : Orbits → ℕ
number_of_orbits o = length o.orbits
