-- ===== src/OrderFactory/Laws.antt =====
-- OrderFactory.h: the order of each mode.
use sat_symmetry.Prelude.{
  ℕ, ◌*◌, ◌≤◌, ◌<◌, ◌≡◌, refl, ◌∙◌, arith, true, Bool-cases, inl, inr, some, none, List, All,
  contains, ltb, if◌then◌else◌,
}
use sat_symmetry.Literal.{BooleanVariable}
use sat_symmetry.Group.{Group, number_of_inverting}
use sat_symmetry.Order.{
  Order, OrderMode, increase, occurence, breakid, auto, ValueMode, increase_order, occurence_order,
  order_lt,
}
use sat_symmetry.Order.Laws.{IsOrder, index_of, increase_order_lem}
use sat_symmetry.Order.Placed.{is_placed}
use sat_symmetry.Order.Occurence.{AllApart, IsSorted, positives, occurence_order-IsOrder}
use sat_symmetry.Orbits.{Classes}
use sat_symmetry.BreakidOrder.{breakid_order}
use sat_symmetry.BreakidOrder.Laws.{IsSupported, breakid_order-IsOrder}
use sat_symmetry.OrderFactory.{is_mostly_inverting, create}

-- The variables of an order by occurences.
abbrev pub IsByOccurences : List ℕ → ℕ → Order → Type 0
IsByOccurences occurences num_vars o =
    (vs : List BooleanVariable) × (o.literals ≡ positives vs)
    × IsSorted (order_lt occurences) vs
    × AllApart vs
    × ((v : BooleanVariable) → contains vs v ≡ ltb v num_vars)

-- In each mode, where the image of a permutation is trivial exactly outside of its support, an
-- order is made, and it is well formed, and every variable of the problem has a place in it. In
-- the increasing mode the place of each variable is its number, and no other has one; in the mode
-- by occurences, and in the automatic one if at most a quarter of the variables are inverting, the
-- literals are the positive ones of the variables of the problem, each once, sorted by occurences;
-- in the BreakID mode, and in the automatic one otherwise, it is the BreakID order.
pub create-IsOrder :
    (walk : Classes → Classes) (vars : OrderMode) (value : ValueMode) (num_vars : ℕ)
    → (occurences : List ℕ) (g : Group) → All IsSupported g.permutations
    → (o : Order) × (create walk vars value num_vars occurences g ≡ some o)
      × IsOrder o
      × ((v : BooleanVariable) → v < num_vars → is_placed o v ≡ true)
      × (vars ≡ increase
          → (v : BooleanVariable)
          → index_of v o.literals ≡ (if ltb v num_vars then some v else none))
      × (vars ≡ occurence → IsByOccurences occurences num_vars o)
      × (vars ≡ auto → 4 * number_of_inverting g ≤ num_vars → IsByOccurences occurences num_vars o)
      × (vars ≡ breakid → breakid_order walk num_vars value g ≡ some o)
      × (vars ≡ auto
          → num_vars < 4 * number_of_inverting g
          → breakid_order walk num_vars value g ≡ some o)
unfolding create
create-IsOrder walk increase value num_vars occurences g sup =
    let (h, placed) = increase_order_lem num_vars value in
    (
      increase_order num_vars value,
      refl,
      h,
      λ v lt. ground (arith, placed v),
      λ e. placed,
      λ e. cc,
      λ e few. cc,
      λ e. cc,
      λ e many. cc,
    )
create-IsOrder walk occurence value num_vars occurences g sup =
    let (h, placed, sorted) = occurence_order-IsOrder num_vars value occurences in
    (
      occurence_order num_vars value occurences,
      refl,
      h,
      λ v lt. placed v ∙ ground arith,
      λ e. cc,
      λ e. sorted,
      λ e few. sorted,
      λ e. cc,
      λ e many. cc,
    )
create-IsOrder walk breakid value num_vars occurences g sup =
    let (o, made, h, placed) = breakid_order-IsOrder walk num_vars value g sup in
    (o, made, h, placed, λ e. cc, λ e. cc, λ e few. cc, λ e. made, λ e many. made)
create-IsOrder walk auto value num_vars occurences g sup =
    elim (Bool-cases (is_mostly_inverting num_vars g)) [
      | inl mostly ↦
          let (o, made, h, placed) = breakid_order-IsOrder walk num_vars value g sup in
          rw mostly (
            o,
            made,
            h,
            placed,
            λ e. cc,
            λ e. cc,
            λ e few. absurd (ground arith),
            λ e. made,
            λ e many. made,
          )
      | inr not_mostly ↦
          let (h, placed, sorted) = occurence_order-IsOrder num_vars value occurences in
          rw not_mostly (
            occurence_order num_vars value occurences,
            refl,
            h,
            λ v lt. placed v ∙ ground arith,
            λ e. cc,
            λ e. sorted,
            λ e few. sorted,
            λ e. cc,
            λ e many. absurd (ground arith),
          )
    ]
