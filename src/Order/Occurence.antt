-- ===== src/Order/Occurence.antt =====
-- Order.h, OccurenceOrder: the variables sorted by their occurences.
use mathlib.Core.List.{append_assoc, append-nil}
use sat_symmetry.Order.Placed.{is_placed, is_placed-add}
use sat_symmetry.Prelude.{
  ℕ, zero, suc, ◌+◌, ◌≡◌, refl, sym, ◌∙◌, arith, Bool, true, false, ◌||◌, ◌&&◌, List, [], ◌∷◌, ◌++◌,
  ◌==◌, ltb, leb, contains, All, All-implied, Bool-cases, inl, inr,
}
use sat_symmetry.Literal.{BooleanVariable, Literal, literal}
use sat_symmetry.Literal.Laws.{variable-literal}
use sat_symmetry.Order.{
  Order, ValueMode, new_order, contains_literal, add, order_lt, sort_insert, sort, range_from,
  add_variables, occurence_order,
}
use sat_symmetry.Order.Laws.{IsOrder, new_order-IsOrder, add-IsOrder, contains_literal_lem}

-- No variable stands twice.
abbrev pub AllApart : List BooleanVariable → Type 0
AllApart [] = Unit {0}
AllApart (v ∷ vs) = (contains vs v ≡ false) × AllApart vs

-- No later variable should come first.
abbrev pub IsSorted : (ℕ → ℕ → Bool) → List ℕ → Type 0
IsSorted lt [] = Unit {0}
IsSorted lt (a ∷ vs) = All (λ (b : ℕ). lt b a ≡ false) vs × IsSorted lt vs

module _ (lt : ℕ → ℕ → Bool) where
  contains-sort_insert :
      (a : ℕ) (bs : List ℕ) (w : ℕ) → contains (sort_insert lt a bs) w ≡ (a == w || contains bs w)
  contains-sort_insert a [] w = refl
  contains-sort_insert a (b ∷ bs) w = elim (Bool-cases (lt b a)) [
    | inl first ↦ rw first (ground (arith, contains-sort_insert a bs w))
    | inr last ↦ rw last
  ]

  sort_insert-AllApart :
      (a : ℕ) (bs : List ℕ) → contains bs a ≡ false → AllApart bs → AllApart (sort_insert lt a bs)
  sort_insert-AllApart a [] new h = (refl, tt)
  sort_insert-AllApart a (b ∷ bs) new h = elim (Bool-cases (lt b a)) [
    | inl first ↦ rw first (
      ground (arith, contains-sort_insert a bs b, h.0),
      sort_insert-AllApart a bs (ground arith) h.1,
    )
    | inr last ↦ rw last (new, h)
  ]

  contains-sort : (vs : List ℕ) (w : ℕ) → contains (sort lt vs) w ≡ contains vs w
  unfolding sort
  contains-sort [] w = refl
  contains-sort (a ∷ vs) w = contains-sort_insert a (sort lt vs) w ∙ rw (contains-sort vs w)

  sort-AllApart : (vs : List ℕ) → AllApart vs → AllApart (sort lt vs)
  unfolding sort
  sort-AllApart [] h = tt
  sort-AllApart (a ∷ vs) h =
      sort_insert-AllApart a (sort lt vs) (contains-sort vs a ∙ h.0) (sort-AllApart vs h.1)

module _ (values : List ℕ) where
  order_lt_trans :
      (a b c : ℕ)
      → order_lt values b a ≡ false
      → order_lt values c b ≡ false
      → order_lt values c a ≡ false
  unfolding order_lt
  order_lt_trans a b c h k = ground arith

  order_lt_asym : (a b : ℕ) → order_lt values b a ≡ true → order_lt values a b ≡ false
  unfolding order_lt
  order_lt_asym a b h = ground arith

  All-sort_insert :
      (P : ℕ → Type 0) (a : ℕ) (bs : List ℕ)
      → P a
      → All P bs
      → All P (sort_insert (order_lt values) a bs)
  All-sort_insert P a [] pa h = (pa, tt)
  All-sort_insert P a (b ∷ bs) pa h = elim (Bool-cases (order_lt values b a)) [
    | inl first ↦ rw first (h.0, All-sort_insert P a bs pa h.1)
    | inr last ↦ rw last (pa, h)
  ]

  sort_insert-IsSorted :
      (a : ℕ) (bs : List ℕ)
      → IsSorted (order_lt values) bs
      → IsSorted (order_lt values) (sort_insert (order_lt values) a bs)
  sort_insert-IsSorted a [] h = (tt, tt)
  sort_insert-IsSorted a (b ∷ bs) h = elim (Bool-cases (order_lt values b a)) [
    | inl first ↦ rw first (
      All-sort_insert (λ (c : ℕ). order_lt values c b ≡ false) a bs (order_lt_asym a b first) h.0,
      sort_insert-IsSorted a bs h.1,
    )
    | inr last ↦ rw last (
      (
        last,
        All-implied (λ (c : ℕ). order_lt values c b ≡ false)
            (λ (c : ℕ). order_lt values c a ≡ false) (λ c k. order_lt_trans a b c last k) bs h.0,
      ),
      h,
    )
  ]

  sort-IsSorted : (vs : List ℕ) → IsSorted (order_lt values) (sort (order_lt values) vs)
  unfolding sort
  sort-IsSorted [] = tt
  sort-IsSorted (a ∷ vs) = sort_insert-IsSorted a (sort (order_lt values) vs) (sort-IsSorted vs)

contains-range_from : (n v w : ℕ) → contains (range_from n v) w ≡ (leb v w && ltb w (v + n))
contains-range_from zero v w = ground arith
contains-range_from (suc n) v w = ground (arith, contains-range_from n (v + 1) w)

range_from-AllApart : (n v : ℕ) → AllApart (range_from n v)
range_from-AllApart zero v = tt
range_from-AllApart (suc n) v =
    (ground (arith, contains-range_from n (v + 1) v), range_from-AllApart n (v + 1))

abbrev pub positives : List BooleanVariable → List Literal
positives [] = []
positives (v ∷ vs) = literal v true ∷ positives vs

add_variables-IsOrder :
    (vs : List BooleanVariable) (o : Order)
    → AllApart vs
    → ((v : BooleanVariable) → contains vs v ≡ true → is_placed o v ≡ false)
    → IsOrder o
    → IsOrder (add_variables vs o)
      × ((w : BooleanVariable)
          → is_placed (add_variables vs o) w ≡ (is_placed o w || contains vs w))
      × ((add_variables vs o).literals ≡ o.literals ++ positives vs)
add_variables-IsOrder [] o apart new h = (h, λ w. ground arith, sym (append-nil o.literals))
add_variables-IsOrder (v ∷ vs) o apart new h =
    let l = literal v true in
    let fresh : contains_literal o l ≡ false =
      contains_literal_lem o l h ∙ rw (variable-literal v true) (new v (ground arith)) in
    let (h', placed, literals) =
      add_variables-IsOrder vs (add l o) apart.1
        (λ w on. ground (arith, is_placed-add o v w, new w, apart.0)) (add-IsOrder l o fresh h) in
    (
      h',
      λ w. ground (arith, placed w, is_placed-add o v w),
      literals ∙ unfold add in append_assoc o.literals (l ∷ []) (positives vs),
    )

-- The order by occurences is well formed, and its literals are the positive ones of exactly the
-- variables of the problem, each once, sorted: a variable that occurs more often comes before one
-- that occurs less often, and of two that occur equally often the one of smaller number.
pub occurence_order-IsOrder :
    (n : ℕ) (mode : ValueMode) (occurences : List ℕ)
    → let o = occurence_order n mode occurences in
      IsOrder o
      × ((v : BooleanVariable) → is_placed o v ≡ ltb v n)
      × ((vs : List BooleanVariable) × (o.literals ≡ positives vs)
          × IsSorted (order_lt occurences) vs
          × AllApart vs
          × ((v : BooleanVariable) → contains vs v ≡ ltb v n))
unfolding occurence_order
occurence_order-IsOrder n mode occurences =
    let lt = order_lt occurences in
    let vs = sort lt (range_from n 0) in
    let member : (v : BooleanVariable) → contains vs v ≡ ltb v n =
      λ v. ground (arith, contains-sort lt (range_from n 0) v, contains-range_from n 0 v) in
    let apart = sort-AllApart lt (range_from n 0) (range_from-AllApart n 0) in
    let (h, placed, literals) =
      add_variables-IsOrder vs (new_order n mode) apart (λ v on. unfold new_order in refl)
        (new_order-IsOrder n mode) in
    (
      h,
      λ v. placed v ∙ unfold new_order in member v,
      (
        vs,
        literals ∙ unfold new_order in refl,
        sort-IsSorted occurences (range_from n 0),
        apart,
        member,
      ),
    )
