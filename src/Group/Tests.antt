-- ===== src/Group/Tests.antt =====
-- A group with the permutation that swaps two variables, and the theorems applied to it.
use sat_symmetry.Prelude.{
  ℕ, zero, suc, ◌≡◌, refl, arith, false, ◌&&◌, ◌||◌, some, [], ◌∷◌, ◌++◌, ◌==◌, length, insert,
}
use sat_symmetry.Literal.{variable, negated}
use sat_symmetry.Permutation.{
  new_permutation, number_of_cycles, add_all, add_to_current_cycle, close_current_cycle,
  last_element_in_cycle, cycle_begin, cycle, is_trivial_image, image_of,
}
use sat_symmetry.Group.{
  Group, new_group, add_permutation, is_permutation_spurious, any_spurious_cycle, any_spurious,
  is_spurious_element,
}
use sat_symmetry.Group.Laws.{CommutesAt, watches, cycles_mention, is_permutation_spurious_lem}
use sat_symmetry.Group.Watch.{CyclesInside, add_permutation_lem}
use sat_symmetry.Examples.{swapping}

not_spurious : is_permutation_spurious swapping ≡ false
unfolding new_permutation add_all add_to_current_cycle close_current_cycle last_element_in_cycle
    cycle_begin insert is_permutation_spurious any_spurious_cycle any_spurious is_spurious_element
    is_trivial_image image_of number_of_cycles cycle negated
not_spurious = refl

below_size : CyclesInside 2 swapping 2 0
unfolding new_permutation add_all add_to_current_cycle close_current_cycle last_element_in_cycle
    cycle_begin cycle variable
below_size zero le lt = (omega arith, (omega arith, tt))
below_size (suc zero) le lt = (omega arith, (omega arith, tt))
below_size (suc (suc k)) le lt = absurd (omega arith)

is_permutation_spurious_example : CommutesAt swapping 2
unfolding new_permutation add_all add_to_current_cycle close_current_cycle last_element_in_cycle
    cycle_begin cycle number_of_cycles
is_permutation_spurious_example =
    is_permutation_spurious_lem swapping 0 2 not_spurious (omega arith) refl

add_permutation_example :
    (g' : Group) × (add_permutation swapping new_group ≡ some g')
    × (g'.permutations ≡ new_group.permutations ++ swapping ∷ [])
    × ((w j : ℕ)
        → watches g' w j ≡ (
            watches new_group w j
            || cycles_mention swapping (number_of_cycles swapping) 0 w
              && length new_group.permutations == j))
unfolding new_permutation add_all add_to_current_cycle close_current_cycle last_element_in_cycle
    cycle_begin number_of_cycles
add_permutation_example = add_permutation_lem swapping new_group refl not_spurious below_size
