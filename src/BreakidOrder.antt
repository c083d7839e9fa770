-- ===== src/BreakidOrder.antt =====
-- include/cosy/Order.h, BreakIDOrder: the variables of the large orbits first. `walk` stands for
-- the order in which an `unordered_map` is walked over. Each round of the loop takes a permutation
-- away, so that their number is fuel enough.
pub mod Laws
pub mod Tests
use sat_symmetry.Prelude.{
  ℕ, zero, suc, ◌+◌, Bool, true, false, ◌&&◌, ◌||◌, Option, none, some, List, [], ◌∷◌, ◌==◌, ltb,
  if◌then◌else◌, length, ◌>>=◌,
}
use sat_symmetry.Literal.{Literal, BooleanVariable, literal, variable, is_positive}
use sat_symmetry.Permutation.{Permutation, support, is_trivial_image}
use sat_symmetry.Order.{Order, ValueMode, new_order, contains_literal, add}
use sat_symmetry.Group.{Group}
use sat_symmetry.Orbits.{Classes, assign}

-- The positive literals of a variable in a list.
unfoldable pub count_positive : BooleanVariable → List Literal → ℕ
count_positive v [] = 0
count_positive v (l ∷ ls) =
    if is_positive l && variable l == v then suc (count_positive v ls) else count_positive v ls

-- `occurence_generators[v]`
unfoldable pub occurence_generators : List Permutation → BooleanVariable → ℕ
occurence_generators [] v = 0
occurence_generators (p ∷ ps) v = count_positive v (support p) + occurence_generators ps v

-- `largestOrbit` and `next`.
pub record Choice : Type 0 where
  pub largest : ℕ
  pub next : Option BooleanVariable

abbrev pub is_better : (BooleanVariable → ℕ) → BooleanVariable → Option BooleanVariable → Bool
is_better occ v none = true
is_better occ v (some next) = ltb (occ v) (occ next) || occ v == occ next && ltb v next

unfoldable pub consider : (BooleanVariable → ℕ) → ℕ → BooleanVariable → Choice → Choice
consider occ size v c =
    if occ v == 0
    then c
    else if is_better occ v c.next
    then record { largest = size; next = some v }
    else c

unfoldable pub consider_orbit : (BooleanVariable → ℕ) → ℕ → List BooleanVariable → Choice → Choice
consider_orbit occ size [] c = c
consider_orbit occ size (v ∷ vs) c = consider_orbit occ size vs (consider occ size v c)

unfoldable pub consider_orbits :
    (BooleanVariable → ℕ) → List (List BooleanVariable) → Choice → Choice
consider_orbits occ [] c = c
consider_orbits occ (orbit ∷ rest) c =
    consider_orbits occ rest
      (if ltb (length orbit) c.largest then c else consider_orbit occ (length orbit) orbit c)

-- The permutations that leave a literal where it is.
unfoldable pub keep_trivial : Literal → List Permutation → List Permutation
keep_trivial l [] = []
keep_trivial l (p ∷ ps) = if is_trivial_image p l then p ∷ keep_trivial l ps else keep_trivial l ps

module _ (walk : Classes → Classes) where
  -- `while (Q.size() > 0)`; no `next` is the error that ends the loop.
  unfoldable pub rounds : ℕ → List Permutation → Order → Option Order
  rounds fuel [] o = some o
  rounds zero (p ∷ ps) o = none
  rounds (suc fuel) (p ∷ ps) o = do
    orbits ← assign walk (p ∷ ps)
    let choice =
        consider_orbits (occurence_generators (p ∷ ps)) orbits.orbits
          (record { largest = 0; next = none })
    elim choice.next [
      | none ↦ some o
      | some next ↦
          rounds fuel (keep_trivial (literal next true) (p ∷ ps)) (add (literal next true) o)
    ]

-- The variables `v`, …, `v + n - 1` that have no place yet.
unfoldable pub complete : ℕ → ℕ → Order → Order
complete zero v o = o
complete (suc n) v o =
    complete n (v + 1) (if contains_literal o (literal v true) then o else add (literal v true) o)

unfoldable pub breakid_order : (Classes → Classes) → ℕ → ValueMode → Group → Option Order
breakid_order walk num_vars mode g = do
  o ← rounds walk (length g.permutations) g.permutations (new_order num_vars mode)
  some (complete num_vars 0 o)
