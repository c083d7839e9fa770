-- ===== src/Permutation/Tests.antt =====
-- The permutation that swaps two variables, and the theorems applied to it.
use sat_symmetry.Prelude.{arith, ◌+◌, ◌≡◌, ◌↔◌, refl, not, some, [], ◌∷◌, contains}
use sat_symmetry.Literal.{Literal}
use sat_symmetry.Permutation.{
  new_permutation, number_of_cycles, cycle, image_of, inverse_of, is_trivial_image,
  is_trivial_inverse, support,
}
use sat_symmetry.Permutation.Building.{new_permutation-IsBuilding}
use sat_symmetry.Permutation.Cycles.{Follows, add_cycle, image_of-inverse_of}
use sat_symmetry.Permutation.Around.{add_cycle_lem}
use sat_symmetry.Examples.{swap_cycles, swapping}

image_of-inverse_of_example :
    ((e i : Literal) → (image_of swapping e ≡ some i) ↔ (inverse_of swapping i ≡ some e))
    × ((e : Literal) → is_trivial_image swapping e ≡ not (contains (support swapping) e))
    × ((i : Literal) → is_trivial_inverse swapping i ≡ not (contains (support swapping) i))
image_of-inverse_of_example =
    image_of-inverse_of 2 swap_cycles ((refl, (refl, tt)), ((refl, (refl, tt)), tt))
      (omega arith, (omega arith, tt))

add_cycle_example :
    let p = new_permutation 2 in
    let q = add_cycle (0 ∷ 2 ∷ []) p in
    (number_of_cycles q ≡ number_of_cycles p + 1)
    × (cycle q (number_of_cycles p) ≡ 0 ∷ 2 ∷ [])
    × Follows q 0 (2 ∷ 0 ∷ [])
unfolding new_permutation
add_cycle_example =
    add_cycle_lem 0 (2 ∷ []) (new_permutation 2) (λ e. cc) (refl, (refl, tt))
      (new_permutation-IsBuilding 2) refl
