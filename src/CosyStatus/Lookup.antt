-- ===== src/CosyStatus/Lookup.antt =====
-- CosyStatus: pairs of literals, total assignments, and the lexicographic order that the
-- permutation acts on.
use mathlib.Core.Bool.{xor}
use mathlib.Core.Option
use sat_symmetry.Prelude.{
  ℕ, zero, suc, ◌≤◌, ◌<◌, ◌≡◌, ◌⊎◌, arith, Bool, true, false, not, some, List, [], ◌∷◌, get_or,
  length, All, is_some, inl, inr,
}
use sat_symmetry.Literal.{Literal, BooleanVariable, variable, is_positive, literal}
use sat_symmetry.Literal.Laws.{variable-literal, is_positive-literal}
use sat_symmetry.Assignment.{
  Assignment, IsAssignment, Valuation, valuation, literal_value, same_value,
  has_same_assignment_value,
}
use sat_symmetry.Assignment.Laws.{has_same_assignment_value_lem}
use sat_symmetry.Permutation.{Permutation, inverse_of}
use sat_symmetry.Order.{Order}
use sat_symmetry.Order.Laws.{index_of}
use sat_symmetry.CosyStatus.{CosyStatus, lookup_at}

-- The inverse of a literal, where it has one.
abbrev pub twin : Permutation → Literal → Literal
twin p l = Option.get_or (inverse_of p l) l

-- What every literal that is looked up has: an inverse, and both have a place in the order.
pub record IsLookup (p : Permutation) (o : Order) (l : Literal) : Type 0 where
  pub paired : inverse_of p l ≡ some (twin p l)
  pub placed : is_some (index_of (variable l) o.literals) ≡ true
  pub twin_placed : is_some (index_of (variable (twin p l)) o.literals) ≡ true

-- The pair at a place has one value.
abbrev pub agree_at : Permutation → Assignment → CosyStatus → ℕ → Bool
agree_at p a s i = has_same_assignment_value a (lookup_at s i) (twin p (lookup_at s i))

-- All pairs before the place that is looked at have one value.
abbrev pub Agreed : Permutation → Assignment → CosyStatus → Type 0
Agreed p a s = (i : ℕ) → i < s.lookup_index → agree_at p a s i ≡ true

pub record IsStatus (p : Permutation) (o : Order) (s : CosyStatus) : Type 0 where
  pub within : s.lookup_index ≤ length s.lookup_order
  pub lookups : All (IsLookup p o) s.lookup_order

-- A total assignment, and the truth of a literal under it.
abbrev pub Total : Type 0
Total = BooleanVariable → Bool

abbrev pub truth : Total → Literal → Bool
truth β l = not (xor (β (variable l)) (is_positive l))

-- The partial assignment has the value of `β` for this variable.
abbrev pub Fixes : Valuation → Total → BooleanVariable → Type 0
Fixes val β v = val v ≡ some (β v)

-- The image of a total assignment under the permutation.
abbrev pub permuted : Permutation → Total → Literal → Bool
permuted p β l = truth β (twin p l)

-- `u` comes before `v`: at the first literal where they differ, `u` has the value that is least.
abbrev pub LexLess : Bool → List Literal → (Literal → Bool) → (Literal → Bool) → Type 0
LexLess least [] u v = ⊥
LexLess least (l ∷ ls) u v =
    ((u l ≡ least) × (v l ≡ not least)) ⊎ ((u l ≡ v l) × LexLess least ls u v)

-- A first difference at a place decides.
pub LexLess-at :
    (least : Bool) (ls : List Literal) (i : ℕ) (u v : Literal → Bool)
    → i < length ls
    → ((j : ℕ) → j < i → u (get_or ls j 0) ≡ v (get_or ls j 0))
    → u (get_or ls i 0) ≡ least
    → v (get_or ls i 0) ≡ not least
    → LexLess least ls u v
LexLess-at least [] i u v h same hu hv = absurd (omega arith)
LexLess-at least (l ∷ ls) zero u v h same hu hv = inl (hu, hv)
LexLess-at least (l ∷ ls) (suc i) u v h same hu hv = inr (
  same 0 (omega arith),
  LexLess-at least ls i u v (omega arith) (λ j lt. same (suc j) (omega arith)) hu hv,
)

-- Where a variable is fixed, the value of its literals is their truth.
pub literal_value-truth :
    (val : Valuation) (β : Total) (l : Literal)
    → Fixes val β (variable l)
    → literal_value val l ≡ some (truth β l)
unfolding xor
literal_value-truth val β l e = rw e

pub same_value_eq : (b c : Bool) → same_value (some b) (some c) ≡ true → b ≡ c
unfolding xor
same_value_eq b c h = ground arith

pub same_value_ne : (b c : Bool) → same_value (some b) (some c) ≡ false → b ≡ not c
unfolding xor
same_value_ne b c h = ground arith

-- A pair that agrees has one truth under a total assignment that has its values.
pub agree-truth :
    (a : Assignment) (β : Total) (x y : Literal)
    → IsAssignment a
    → Fixes (valuation a) β (variable x)
    → Fixes (valuation a) β (variable y)
    → has_same_assignment_value a x y ≡ true
    → truth β x ≡ truth β y
agree-truth a β x y h fx fy same = same_value_eq (truth β x) (truth β y) (
    rw
      (
        has_same_assignment_value_lem a h x y,
        literal_value-truth (valuation a) β x fx,
        literal_value-truth (valuation a) β y fy,
      )
      at same)

pub differ-truth :
    (a : Assignment) (β : Total) (x y : Literal)
    → IsAssignment a
    → Fixes (valuation a) β (variable x)
    → Fixes (valuation a) β (variable y)
    → has_same_assignment_value a x y ≡ false
    → truth β x ≡ not (truth β y)
differ-truth a β x y h fx fy same = same_value_ne (truth β x) (truth β y) (
    rw
      (
        has_same_assignment_value_lem a h x y,
        literal_value-truth (valuation a) β x fx,
        literal_value-truth (valuation a) β y fy,
      )
      at same)

-- A total assignment under which the false literal of a variable is false has its value.
pub Fixes-of_false :
    (val : Valuation) (β : Total) (v : BooleanVariable) (b : Bool)
    → val v ≡ some b
    → truth β (literal v (not b)) ≡ false
    → Fixes val β v
unfolding xor
Fixes-of_false val β v b e h =
    ground (arith, variable-literal v (not b), is_positive-literal v (not b))
