-- ===== src/Order/Placed.antt =====
-- Order.h: which variables have a place.
use sat_symmetry.Prelude.{
  ℕ, ◌≡◌, ◌∙◌, arith, Bool, true, ◌||◌, List, [], ◌∷◌, ◌++◌, ◌==◌, is_some, inl, inr, Bool-cases,
  Option-cases,
}
use sat_symmetry.Literal.{Literal, BooleanVariable, literal, variable}
use sat_symmetry.Literal.Laws.{variable-literal}
use sat_symmetry.Order.{Order, add}
use sat_symmetry.Order.Laws.{index_of}

index_of-append_some :
    (w : ℕ) (ls : List Literal) (l : Literal)
    → is_some (index_of w (ls ++ l ∷ [])) ≡ (is_some (index_of w ls) || variable l == w)
index_of-append_some w [] l = ground arith
index_of-append_some w (x ∷ ls) l = elim (Bool-cases (variable x == w)) [
  | inl here ↦ rw here
  | inr other ↦ rw other (elim (Option-cases (index_of w ls)) [
    | inl none_there ↦ ground (arith, index_of-append_some w ls l)
    | inr (k, there) ↦ ground (arith, index_of-append_some w ls l)
  ])
]

abbrev pub is_placed : Order → BooleanVariable → Bool
is_placed o v = is_some (index_of v o.literals)

pub is_placed-add :
    (o : Order) (v w : BooleanVariable)
    → is_placed (add (literal v true) o) w ≡ (is_placed o w || v == w)
unfolding add
is_placed-add o v w =
    index_of-append_some w o.literals (literal v true) ∙ rw (variable-literal v true)
