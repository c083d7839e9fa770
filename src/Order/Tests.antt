-- ===== src/Order/Tests.antt =====
-- The increasing order of two variables, and the theorems applied to it.
use sat_symmetry.Prelude.{List, ◌∷◌, [], ltb, contains}
use sat_symmetry.Literal.{BooleanVariable}
use sat_symmetry.Order.{occurence_order, order_lt}
use sat_symmetry.Order.Placed.{is_placed}
use sat_symmetry.Order.Occurence.{AllApart, IsSorted, positives, occurence_order-IsOrder}
use sat_symmetry.Prelude.{ℕ, ◌≤◌, ◌<◌, ◌≡◌, some, none}
use sat_symmetry.Literal.{variable}
use sat_symmetry.Order.{leq, true_less_false}
use sat_symmetry.Order.Laws.{IsOrder, index_of, increase_order_lem, leq_lem}
use sat_symmetry.Examples.{increasing}

leq_example :
    ((i j : ℕ)
      → index_of (variable 2) increasing.literals ≡ some i
      → index_of (variable 1) increasing.literals ≡ some j
      → (i ≤ j → leq increasing 2 1 ≡ some 2) × (j < i → leq increasing 2 1 ≡ some 1))
    × (index_of (variable 2) increasing.literals ≡ none → leq increasing 2 1 ≡ none)
    × (index_of (variable 1) increasing.literals ≡ none → leq increasing 2 1 ≡ none)
leq_example = leq_lem increasing 2 1 (increase_order_lem 2 true_less_false).0

occurence_order-IsOrder_example :
    let o = occurence_order 3 true_less_false (1 ∷ 3 ∷ 1 ∷ []) in
    IsOrder o
    × ((v : BooleanVariable) → is_placed o v ≡ ltb v 3)
    × ((vs : List BooleanVariable) × (o.literals ≡ positives vs)
        × IsSorted (order_lt (1 ∷ 3 ∷ 1 ∷ [])) vs
        × AllApart vs
        × ((v : BooleanVariable) → contains vs v ≡ ltb v 3))
occurence_order-IsOrder_example = occurence_order-IsOrder 3 true_less_false (1 ∷ 3 ∷ 1 ∷ [])
