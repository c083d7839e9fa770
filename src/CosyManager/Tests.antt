-- ===== src/CosyManager/Tests.antt =====
-- The statuses for a group of one permutation, and the theorem applied to it.
use sat_symmetry.Prelude.{ℕ, ◌≡◌, refl, arith, some, [], ◌∷◌, length}
use sat_symmetry.Literal.{literal, variable}
use sat_symmetry.Order.{increase_order, new_order, add}
use sat_symmetry.Group.{watch}
use sat_symmetry.CosyStatus.{new_status}
use sat_symmetry.CosyManager.{CosyManager, new_cosy_manager, define_order}
use sat_symmetry.CosyManager.Walk.{status}
use sat_symmetry.CosyManager.Define.{watched_by, define_order_lem}
use sat_symmetry.Examples.{increasing, swap_group}

define_order_example :
    (m : CosyManager) × (define_order swap_group increasing new_cosy_manager ≡ some m)
    × (m.order ≡ some increasing)
    × (length m.statuses ≡ 1)
    × ((i : ℕ)
        → status m.statuses i
          ≡ record new_status { lookup_order = watched_by swap_group i increasing.literals })
unfolding watch variable increase_order new_order add literal
define_order_example = define_order_lem swap_group increasing (
  (0 ∷ [], refl, (refl, tt), λ i on. ground arith),
  ((0 ∷ [], refl, (refl, tt), λ i on. ground arith), tt),
)
