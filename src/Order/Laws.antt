-- ===== src/Order/Laws.antt =====
-- Order.cc: positions in the order.
use sat_symmetry.Prelude.{
  ℕ, zero, suc, ◌+◌, ◌≤◌, ◌<◌, ◌≡◌, refl, arith, sym, ◌∙◌, Bool, true, false, not, ◌&&◌, ◌||◌, ◌==◌,
  leb, if◌then◌else◌, Bool-cases, inl, inr, Option, none, some, List, [], ◌∷◌, ◌++◌, length,
  length-append, insert_lem, insert, is_some, ltb,
}
use mathlib.Core.Bool.{xor}
use mathlib.Core.Option
use sat_symmetry.Prelude.Int.{==ℤ}
use sat_symmetry.Literal.{
  Literal, true_literal_index, false_literal_index, literal, variable, negated, is_positive,
}
use sat_symmetry.Literal.Laws.{variable-literal, variable-negated, same_variable_cases}
use sat_symmetry.Assignment.{
  Assignment, IsAssignment, valuation, holds, literal_is_true, literal_is_false, literal_value,
  signed,
}
use sat_symmetry.Assignment.Laws.{literal_is_true_lem, literal_is_false_lem}
use sat_symmetry.Order.{
  Order, ValueMode, true_less_false, false_less_true, minimal_index, maximal_index, new_order,
  contains_literal, add, leq, is_minimal_value, is_maximal_value, add_from, increase_order,
  choose_leq,
}

abbrev pub one_more : Option ℕ → Option ℕ
one_more none = none
one_more (some k) = some (suc k)

-- The place of a variable in a list of literals.
abbrev pub index_of : ℕ → List Literal → Option ℕ
index_of v [] = none
index_of v (l ∷ ls) = if variable l == v then some 0 else one_more (index_of v ls)

-- The map holds the place of each variable, under both of its literals, and the two special
-- indexes are those of the mode.
pub record IsOrder (o : Order) : Type 0 where
  pub places : (l : Literal) → o.indexes l ≡ index_of (variable l) o.literals
  pub least : o.minimal ≡ minimal_index o.value_mode
  pub greatest : o.maximal ≡ maximal_index o.value_mode

pub new_order-IsOrder : (n : ℕ) (mode : ValueMode) → IsOrder (new_order n mode)
unfolding new_order
new_order-IsOrder n mode = record { places = λ l. refl; least = refl; greatest = refl }

index_of-append :
    (v : ℕ) (ls : List Literal) (l : Literal)
    → index_of v ls ≡ none
    → index_of v (ls ++ l ∷ []) ≡ (if variable l == v then some (length ls) else none)
index_of-append v [] l h = refl
index_of-append v (x ∷ ls) l h = ground (arith, index_of-append v ls l)

index_of-append_old :
    (v k : ℕ) (ls : List Literal) (l : Literal)
    → index_of v ls ≡ some k
    → index_of v (ls ++ l ∷ []) ≡ some k
index_of-append_old v k [] l h = cc
index_of-append_old v zero (x ∷ ls) l h = ground (arith, index_of-append_old v 0 ls l)
index_of-append_old v (suc k) (x ∷ ls) l h = ground (arith, index_of-append_old v k ls l)

-- Adding a literal that a well-formed order does not contain gives a well-formed order: the index
-- of both literals of a variable is its place in the list.
pub add-IsOrder :
    (l : Literal) (o : Order) → contains_literal o l ≡ false → IsOrder o → IsOrder (add l o)
unfolding add contains_literal
add-IsOrder l o new h = record {
  places = λ m. elim (Bool-cases (variable l == variable m)) [
    | inl same ↦ ground (
      arith,
      h.places l,
      index_of-append (variable m) o.literals l,
      insert_lem (negated l) m (length o.literals) (insert l (length o.literals) o.indexes),
      insert_lem l m (length o.literals) o.indexes,
      same_variable_cases l m,
    )
    | inr other ↦ ground (
      arith,
      h.places m,
      elsewhere m other (index_of (variable m) o.literals) refl,
      insert_lem (negated l) m (length o.literals) (insert l (length o.literals) o.indexes),
      insert_lem l m (length o.literals) o.indexes,
      variable-negated l,
    )
  ];
  least = h.least;
  greatest = h.greatest;
}
  where
    elsewhere :
        (m : Literal)
        → (variable l == variable m) ≡ false
        → (r : Option ℕ) → index_of (variable m) o.literals ≡ r
        → index_of (variable m) (o.literals ++ l ∷ []) ≡ index_of (variable m) o.literals
    elsewhere m other none e = ground (arith, index_of-append (variable m) o.literals l e)
    elsewhere m other (some k) e = index_of-append_old (variable m) k o.literals l e ∙ sym e

-- `contains` says whether the variable of the literal has a place.
pub contains_literal_lem :
    (o : Order) (l : Literal)
    → IsOrder o
    → contains_literal o l ≡ is_some (index_of (variable l) o.literals)
unfolding contains_literal
contains_literal_lem o l h = ground (arith, h.places l)

-- In a well-formed order leq of two literals whose variables have a place gives the first argument
-- if its place is not later than that of the second, and the second argument if it is; it fails
-- when the variable of either has no place.
pub leq_lem :
    (o : Order) (a b : Literal)
    → IsOrder o
    → ((i j : ℕ)
        → index_of (variable a) o.literals ≡ some i
        → index_of (variable b) o.literals ≡ some j
        → (i ≤ j → leq o a b ≡ some a) × (j < i → leq o a b ≡ some b))
      × (index_of (variable a) o.literals ≡ none → leq o a b ≡ none)
      × (index_of (variable b) o.literals ≡ none → leq o a b ≡ none)
unfolding leq
leq_lem o a b h = (
  λ i j at_a at_b.
      let found_a : o.indexes a ≡ some i = h.places a ∙ at_a in
      let found_b : o.indexes b ≡ some j = h.places b ∙ at_b in
      (λ le. rw (found_a, found_b) (ground arith), λ lt. rw (found_a, found_b) (ground arith)),
  λ none_a. let e : o.indexes a ≡ none = h.places a ∙ none_a in rw e refl,
  λ none_b. let e : o.indexes b ≡ none = h.places b ∙ none_b in rw e (without_second (o.indexes a)),
)
  where
    without_second : (r : Option ℕ) → choose_leq a b r none ≡ none
    without_second none = refl
    without_second (some i) = refl

-- The place of a variable, and whether one literal's variable comes no later than the other's.
abbrev pub place : Order → Literal → ℕ
place o l = Option.get_or (index_of (variable l) o.literals) 0

abbrev pub no_later : Order → Literal → Literal → Bool
no_later o a b = leb (place o a) (place o b)

pub leq_placed :
    (o : Order) (a b : Literal)
    → IsOrder o
    → is_some (index_of (variable a) o.literals) ≡ true
    → is_some (index_of (variable b) o.literals) ≡ true
    → leq o a b ≡ some (if no_later o a b then a else b)
unfolding leq
leq_placed o a b h pa pb = ground (arith, h.places a, h.places b)

-- The truth value that comes first.
abbrev pub minimal_truth : ValueMode → Bool
minimal_truth true_less_false = true
minimal_truth false_less_true = false

-- The tests of the code on the index of a truth value, in terms of the value of the literal.
by_mode :
    (mode : ValueMode) (t f : Bool) (v : Option Bool) (s : Bool)
    → t ≡ holds v s
    → f ≡ holds v (not s)
    → (==ℤ (minimal_index mode) true_literal_index && t
        || ==ℤ (minimal_index mode) false_literal_index && f)
      ≡ holds (signed s v) (minimal_truth mode)
unfolding xor
by_mode true_less_false t f none s e e' = ground arith
by_mode true_less_false t f (some true) true e e' = ground arith
by_mode true_less_false t f (some true) false e e' = ground arith
by_mode true_less_false t f (some false) true e e' = ground arith
by_mode true_less_false t f (some false) false e e' = ground arith
by_mode false_less_true t f none s e e' = ground arith
by_mode false_less_true t f (some true) true e e' = ground arith
by_mode false_less_true t f (some true) false e e' = ground arith
by_mode false_less_true t f (some false) true e e' = ground arith
by_mode false_less_true t f (some false) false e e' = ground arith

module _ (o : Order) (l : Literal) (a : Assignment) (h : IsOrder o) (k : IsAssignment a) where
  -- For a well-formed order and assignment a literal is minimal exactly when it has a value, and
  -- this is the one that the mode puts first.
  pub is_minimal_value_lem :
      is_minimal_value o l a ≡ holds (literal_value (valuation a) l) (minimal_truth o.value_mode)
  unfolding is_minimal_value
  is_minimal_value_lem = rw h.least (
      by_mode o.value_mode (literal_is_true a l) (literal_is_false a l) (valuation a (variable l))
        (is_positive l) (literal_is_true_lem a k l) (literal_is_false_lem a k l))

  pub is_maximal_value_lem :
      is_maximal_value o l a
      ≡ holds (literal_value (valuation a) l) (not (minimal_truth o.value_mode))
  unfolding is_maximal_value
  is_maximal_value_lem =
      rw (h.greatest, reversed o.value_mode, reversed_truth o.value_mode)
        (by_mode (reverse o.value_mode) (literal_is_true a l) (literal_is_false a l)
          (valuation a (variable l)) (is_positive l) (literal_is_true_lem a k l)
          (literal_is_false_lem a k l))
    where
      reverse : ValueMode → ValueMode
      reverse true_less_false = false_less_true
      reverse false_less_true = true_less_false

      reversed : (mode : ValueMode) → maximal_index mode ≡ minimal_index (reverse mode)
      reversed true_less_false = refl
      reversed false_less_true = refl

      reversed_truth : (mode : ValueMode) → not (minimal_truth mode) ≡ minimal_truth (reverse mode)
      reversed_truth true_less_false = refl
      reversed_truth false_less_true = refl

-- The increasing order places every variable of the problem at its own number, and no other.
from_next :
    (n v : ℕ) (o : Order)
    → IsOrder o
    → length o.literals ≡ v
    → ((w : ℕ) → index_of w o.literals ≡ (if ltb w v then some w else none))
    → let q = add_from n v o in
      IsOrder q × ((w : ℕ) → index_of w q.literals ≡ (if ltb w (v + n) then some w else none))
from_next zero v o h size placed = (h, λ w. let e : v + 0 ≡ v = omega arith in rw e (placed w))
from_next (suc n) v o h size placed =
    let l = literal v true in
    let (inv, placed') =
      from_next n (v + 1) (add l o)
        (add-IsOrder l o
          (ground (arith, contains_literal_lem o l h, variable-literal v true, placed v)) h)
        (unfold add in omega (arith, length-append o.literals (l ∷ []))) (unfold add in next) in
    let e : v + suc n ≡ v + 1 + n = omega arith in (inv, rw e placed')
  where
    next :
        (w : ℕ)
        → index_of w (o.literals ++ literal v true ∷ []) ≡ (if ltb w (v + 1) then some w else none)
    next w = elim (Bool-cases (ltb w v)) [
      | inl before ↦ ground (arith, placed w, index_of-append_old w w o.literals (literal v true))
      | inr after ↦
          ground (
            arith,
            placed w,
            index_of-append w o.literals (literal v true),
            variable-literal v true,
          )
    ]

-- The increasing order is well formed, and places each variable below the number of variables at
-- its own number, and no other.
pub increase_order_lem :
    (n : ℕ) (mode : ValueMode)
    → let o = increase_order n mode in
      IsOrder o × ((v : ℕ) → index_of v o.literals ≡ (if ltb v n then some v else none))
unfolding increase_order new_order
increase_order_lem n mode =
    let (inv, placed) =
      from_next n 0 (new_order n mode) (new_order-IsOrder n mode) refl (λ w. ground arith) in
    let e : 0 + n ≡ n = omega arith in (inv, rw e at placed)
