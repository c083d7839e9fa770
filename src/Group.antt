-- ===== src/Group.antt =====
-- include/cosy/Group.h and src/Group.cc: the permutations that generate the symmetries, and for
-- each variable the ones that move it. The sets are lists in the order of insertion, and a walk
-- over a set goes along its list. `none` is an index outside the watchers. Printing is left out.
pub mod Laws
pub mod Watch
pub mod Total
pub mod Kept
pub mod Tests
use sat_symmetry.Prelude.{
  ℕ, zero, suc, ◌+◌, Bool, true, false, not, ◌||◌, Option, none, some, List, [], ◌∷◌, ◌++◌, ◌==◌,
  ltb, if◌then◌else◌, length, get_or, get_elem?, resize, set, insert_new, ◌>>=◌,
}
use sat_symmetry.Literal.{Literal, BooleanVariable, variable, negated}
use sat_symmetry.Permutation.{
  Permutation, number_of_cycles, cycle, last_element_in_cycle, image_of, is_trivial_image,
}

pub record Group : Type 0 where
  pub permutations : List Permutation
  pub symmetric : List BooleanVariable
  pub inverting : List BooleanVariable
  pub watchers : List (List ℕ)

unfoldable pub new_group : Group
new_group = record { permutations = []; symmetric = []; inverting = []; watchers = [] }

unfoldable pub number_of_permutations : Group → ℕ
number_of_permutations g = length g.permutations

unfoldable pub number_of_symmetric_variables : Group → ℕ
number_of_symmetric_variables g = length g.symmetric

unfoldable pub number_of_inverting : Group → ℕ
number_of_inverting g = length g.inverting

-- `p->imageOf(element).negated() != p->imageOf(element.negated())`
abbrev pub images_differ : Option Literal → Option Literal → Bool
images_differ (some x) (some y) = not (negated x == y)
images_differ (some x) none = true
images_differ none _ = true

-- The three tests of a literal; the images are there when the first two fail.
unfoldable pub is_spurious_element : Permutation → Literal → Bool
is_spurious_element p element =
    is_trivial_image p element
    || is_trivial_image p (negated element)
    || images_differ (image_of p element) (image_of p (negated element))

unfoldable pub any_spurious : Permutation → List Literal → Bool
any_spurious p [] = false
any_spurious p (element ∷ rest) = is_spurious_element p element || any_spurious p rest

-- The cycles `c`, …, `c + n - 1`.
unfoldable pub any_spurious_cycle : Permutation → ℕ → ℕ → Bool
any_spurious_cycle p zero c = false
any_spurious_cycle p (suc n) c = any_spurious p (cycle p c) || any_spurious_cycle p n (c + 1)

unfoldable pub is_permutation_spurious : Permutation → Bool
is_permutation_spurious p = any_spurious_cycle p (number_of_cycles p) 0

-- `_watchers[variable].insert(index)`
abbrev pub watch_in : ℕ → BooleanVariable → List (List ℕ) → Option (List (List ℕ))
watch_in index v watchers = do
  indexes ← get_elem? watchers v
  some (set watchers v (insert_new index indexes))

-- What the inner loop does with one image.
unfoldable pub watch_image : ℕ → Literal → Literal → Group → Option Group
watch_image index element image g = do
  watchers ← watch_in index (variable image) g.watchers
  some (record g {
    watchers = watchers;
    symmetric = insert_new (variable image) g.symmetric;
    inverting =
        if element == negated image then insert_new (variable image) g.inverting else g.inverting;
  })

unfoldable pub watch_cycle : ℕ → Literal → List Literal → Group → Option Group
watch_cycle index element [] g = some g
watch_cycle index element (image ∷ rest) g = do
  g' ← watch_image index element image g
  watch_cycle index image rest g'

-- The cycles `c`, …, `c + n - 1`.
unfoldable pub watch_cycles : ℕ → Permutation → ℕ → ℕ → Group → Option Group
watch_cycles index p zero c g = some g
watch_cycles index p (suc n) c g = do
  g' ← watch_cycle index (last_element_in_cycle p c) (cycle p c) g
  watch_cycles index p n (c + 1) g'

-- `if (permutation->size() > _watchers.size()) _watchers.resize(permutation->size());`
abbrev pub with_room : Permutation → Group → Group
with_room p g =
    if ltb (length g.watchers) p.size
    then record g { watchers = resize p.size [] g.watchers }
    else g

unfoldable pub store_permutation : Permutation → Group → Group
store_permutation p g = record g { permutations = g.permutations ++ p ∷ [] }

unfoldable pub add_permutation : Permutation → Group → Option Group
add_permutation p g =
    if number_of_cycles p == 0 then some g else if is_permutation_spurious p then some g else do
      g' ← watch_cycles (length g.permutations) p (number_of_cycles p) 0 (with_room p g)
      some (store_permutation p g')

-- `_watchers[variable]`
unfoldable pub watch : Group → BooleanVariable → Option (List ℕ)
watch g v = get_elem? g.watchers v
