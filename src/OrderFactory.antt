-- ===== src/OrderFactory.antt =====
-- include/cosy/OrderFactory.h: the order for a mode. Of the CNF model the number of variables and
-- the occurences are arguments; `walk` is that of the orbits.
pub mod Laws
pub mod Tests
use sat_symmetry.Prelude.{ℕ, ◌*◌, Bool, Option, some, List, if◌then◌else◌, ltb}
use sat_symmetry.Group.{Group, number_of_inverting}
use sat_symmetry.Order.{
  Order, OrderMode, increase, occurence, breakid, auto, ValueMode, increase_order, occurence_order,
}
use sat_symmetry.Orbits.{Classes}
use sat_symmetry.BreakidOrder.{breakid_order}

-- `static_cast<double>(inverting) / num_vars > 0.25`, which is exact for these sizes.
abbrev pub is_mostly_inverting : ℕ → Group → Bool
is_mostly_inverting num_vars g = ltb num_vars (4 * number_of_inverting g)

unfoldable pub create :
    (Classes → Classes) → OrderMode → ValueMode → ℕ → List ℕ → Group → Option Order
create walk increase value num_vars occurences g = some (increase_order num_vars value)
create walk occurence value num_vars occurences g = some (occurence_order num_vars value occurences)
create walk breakid value num_vars occurences g = breakid_order walk num_vars value g
create walk auto value num_vars occurences g =
    if is_mostly_inverting num_vars g
    then breakid_order walk num_vars value g
    else some (occurence_order num_vars value occurences)
