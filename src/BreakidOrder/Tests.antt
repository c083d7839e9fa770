-- ===== src/BreakidOrder/Tests.antt =====
-- The order for one permutation, and the theorem applied to it.
use sat_symmetry.Prelude.{arith, ◌<◌, ◌≡◌, true, some, refl}
use sat_symmetry.Literal.{BooleanVariable}
use sat_symmetry.Permutation.Cycles.{image_of-inverse_of}
use sat_symmetry.Order.{Order, true_less_false}
use sat_symmetry.Order.Laws.{IsOrder}
use sat_symmetry.Order.Placed.{is_placed}
use sat_symmetry.Orbits.{Classes}
use sat_symmetry.BreakidOrder.{breakid_order}
use sat_symmetry.BreakidOrder.Laws.{IsSupported, breakid_order-IsOrder}
use sat_symmetry.Examples.{swap_cycles, swapping, swap_group}

abbrev in_order : Classes → Classes
in_order classes = classes

swapping-IsSupported : IsSupported swapping
swapping-IsSupported =
    (image_of-inverse_of 2 swap_cycles ((refl, (refl, tt)), ((refl, (refl, tt)), tt))
      (omega arith, (omega arith, tt))).1

breakid_order-IsOrder_example :
    (o : Order) × (breakid_order in_order 2 true_less_false swap_group ≡ some o)
    × IsOrder o
    × ((v : BooleanVariable) → v < 2 → is_placed o v ≡ true)
breakid_order-IsOrder_example =
    breakid_order-IsOrder in_order 2 true_less_false swap_group (swapping-IsSupported, tt)
