-- ===== src/OrderFactory/Tests.antt =====
-- The order that is chosen for one permutation, and the theorems applied to it.
use sat_symmetry.Prelude.{
  arith, ◌*◌, ◌≤◌, ◌<◌, ◌≡◌, true, none, ltb, if◌then◌else◌, some, refl, [], ◌∷◌,
}
use sat_symmetry.Literal.{BooleanVariable}
use sat_symmetry.Permutation.Cycles.{image_of-inverse_of}
use sat_symmetry.Order.{Order, increase, occurence, breakid, auto, true_less_false}
use sat_symmetry.Order.Laws.{IsOrder, index_of}
use sat_symmetry.Order.Placed.{is_placed}
use sat_symmetry.Group.{number_of_inverting}
use sat_symmetry.Orbits.{Classes}
use sat_symmetry.BreakidOrder.{breakid_order}
use sat_symmetry.BreakidOrder.Laws.{IsSupported}
use sat_symmetry.OrderFactory.{create}
use sat_symmetry.OrderFactory.Laws.{IsByOccurences, create-IsOrder}
use sat_symmetry.Examples.{swap_cycles, swapping, swap_group}

abbrev in_order : Classes → Classes
in_order classes = classes

swapping-IsSupported : IsSupported swapping
swapping-IsSupported =
    (image_of-inverse_of 2 swap_cycles ((refl, (refl, tt)), ((refl, (refl, tt)), tt))
      (omega arith, (omega arith, tt))).1

create-IsOrder_example :
    (o : Order) × (create in_order auto true_less_false 2 (1 ∷ 3 ∷ []) swap_group ≡ some o)
    × IsOrder o
    × ((v : BooleanVariable) → v < 2 → is_placed o v ≡ true)
    × (auto ≡ increase
        → (v : BooleanVariable) → index_of v o.literals ≡ (if ltb v 2 then some v else none))
    × (auto ≡ occurence → IsByOccurences (1 ∷ 3 ∷ []) 2 o)
    × (auto ≡ auto → 4 * number_of_inverting swap_group ≤ 2 → IsByOccurences (1 ∷ 3 ∷ []) 2 o)
    × (auto ≡ breakid → breakid_order in_order 2 true_less_false swap_group ≡ some o)
    × (auto ≡ auto
        → 2 < 4 * number_of_inverting swap_group
        → breakid_order in_order 2 true_less_false swap_group ≡ some o)
create-IsOrder_example =
    create-IsOrder in_order auto true_less_false 2 (1 ∷ 3 ∷ []) swap_group
      (swapping-IsSupported, tt)
