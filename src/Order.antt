-- ===== src/Order.antt =====
-- include/cosy/Order.h and src/Order.cc: an order of the variables, and of the two truth values.
-- `none` of `leq` is the exception of `unordered_map::at`. Strings for display are left out.
pub mod Laws
pub mod Placed
pub mod Occurence
pub mod Tests
use sat_symmetry.Prelude.{
  ℕ, zero, suc, ◌+◌, ◌≡◌, Bool, true, false, not, ◌&&◌, ◌||◌, Option, none, some, List, [], ◌∷◌,
  ◌++◌, leb, ltb, ◌==◌, if◌then◌else◌, length, get_or, Map, empty_map, insert, has_key,
}
use sat_symmetry.Prelude.Int.{==ℤ}
use sat_symmetry.Literal.{
  Literal, LiteralIndex, true_literal_index, false_literal_index, literal, variable, negated,
}
use sat_symmetry.Assignment.{Assignment, literal_is_true, literal_is_false}

pub data OrderMode : Type 0 where
  increase occurence breakid auto : OrderMode

pub data ValueMode : Type 0 where
  true_less_false false_less_true : ValueMode

-- `_order` is `literals`.
pub record Order : Type 0 where
  pub num_vars : ℕ
  pub value_mode : ValueMode
  pub literals : List Literal
  pub indexes : Map ℕ
  pub minimal : LiteralIndex
  pub maximal : LiteralIndex

abbrev pub minimal_index : ValueMode → LiteralIndex
minimal_index true_less_false = true_literal_index
minimal_index false_less_true = false_literal_index

abbrev pub maximal_index : ValueMode → LiteralIndex
maximal_index true_less_false = false_literal_index
maximal_index false_less_true = true_literal_index

-- `Order(unsigned int num_vars, ValueMode mode)`
unfoldable pub new_order : ℕ → ValueMode → Order
new_order num_vars mode = record {
  num_vars = num_vars;
  value_mode = mode;
  literals = [];
  indexes = empty_map;
  minimal = minimal_index mode;
  maximal = maximal_index mode;
}

unfoldable pub contains_literal : Order → Literal → Bool
contains_literal o l = has_key o.indexes l

-- `CHECK(!contains(literal))` is left out: the lemmas on what calls `add` add only literals whose
-- variable has no place yet.
unfoldable pub add : Literal → Order → Order
add l o =
    let sz = length o.literals in
    record o {
      indexes = insert (negated l) sz (insert l sz o.indexes);
      literals = o.literals ++ l ∷ [];
    }

-- Two results of `at`, of which one may throw.
abbrev pub choose_leq : Literal → Literal → Option ℕ → Option ℕ → Option Literal
choose_leq a b none _ = none
choose_leq a b (some i) none = none
choose_leq a b (some i) (some j) = if leb i j then some a else some b

unfoldable pub leq : Order → Literal → Literal → Option Literal
leq o a b = choose_leq a b (o.indexes a) (o.indexes b)

unfoldable pub is_minimal_value : Order → Literal → Assignment → Bool
is_minimal_value o l assignment =
    ==ℤ o.minimal true_literal_index && literal_is_true assignment l
    || ==ℤ o.minimal false_literal_index && literal_is_false assignment l

unfoldable pub is_maximal_value : Order → Literal → Assignment → Bool
is_maximal_value o l assignment =
    ==ℤ o.maximal true_literal_index && literal_is_true assignment l
    || ==ℤ o.maximal false_literal_index && literal_is_false assignment l

-- for (BooleanVariable var(v); var < v + n; ++var) add(Literal(var, true));
abbrev pub add_from : ℕ → ℕ → Order → Order
add_from zero v o = o
add_from (suc n) v o = add_from n (v + 1) (add (literal v true) o)

unfoldable pub increase_order : ℕ → ValueMode → Order
unfolding new_order
increase_order num_vars mode = add_from num_vars 0 (new_order num_vars mode)

-- `OrderLt`: more occurrences first, then the smaller index.
unfoldable pub order_lt : List ℕ → ℕ → ℕ → Bool
order_lt values i j =
    if not (get_or values i 0 == get_or values j 0)
    then ltb (get_or values j 0) (get_or values i 0)
    else ltb i j

-- `std::sort` by a strict order.
abbrev pub sort_insert : (ℕ → ℕ → Bool) → ℕ → List ℕ → List ℕ
sort_insert lt a [] = a ∷ []
sort_insert lt a (b ∷ bs) = if lt b a then b ∷ sort_insert lt a bs else a ∷ b ∷ bs

unfoldable pub sort : (ℕ → ℕ → Bool) → List ℕ → List ℕ
sort lt [] = []
sort lt (a ∷ rest) = sort_insert lt a (sort lt rest)

abbrev pub range_from : ℕ → ℕ → List ℕ
range_from zero v = []
range_from (suc n) v = v ∷ range_from n (v + 1)

abbrev pub add_variables : List ℕ → Order → Order
add_variables [] o = o
add_variables (v ∷ vs) o = add_variables vs (add (literal v true) o)

-- `occurences` are those of the problem.
unfoldable pub occurence_order : ℕ → ValueMode → List ℕ → Order
unfolding new_order sort order_lt
occurence_order num_vars mode occurences =
    add_variables (sort (order_lt occurences) (range_from num_vars 0)) (new_order num_vars mode)
