-- ===== src/CnfModel.antt =====
-- include/cosy/CNFModel.h and src/CNFModel.cc: the clauses of the problem. A Clause is the list of
-- its literals. `hash` stands for `std::hash` of the text that compute_tag writes: the signed
-- values of the literals, each followed by a space.
pub mod Tests
use sat_symmetry.Prelude.{
  ℕ, zero, suc, ◌+◌, Bool, true, false, Option, none, some, List, [], ◌∷◌, ◌++◌, ◌==◌, ltb,
  if◌then◌else◌, length, get_or, set, resize, contains, map,
}
use sat_symmetry.Prelude.Int.{ℤ}
use sat_symmetry.Literal.{Literal, variable, is_positive, signed_value}
use sat_symmetry.Order.{sort}

pub record CnfModel : Type 0 where
  pub num_variables : ℕ
  pub num_clauses : ℕ
  pub num_unary_clauses : ℕ
  pub num_binary_clauses : ℕ
  pub num_ternary_clauses : ℕ
  pub num_large_clauses : ℕ
  pub clauses : List (List Literal)
  pub clauses_tag : List ℕ
  pub positive_occurences : List ℕ
  pub negative_occurences : List ℕ
  pub occurences : List ℕ

unfoldable pub new_cnf_model : CnfModel
new_cnf_model = record {
  num_variables = 0;
  num_clauses = 0;
  num_unary_clauses = 0;
  num_binary_clauses = 0;
  num_ternary_clauses = 0;
  num_large_clauses = 0;
  clauses = [];
  clauses_tag = [];
  positive_occurences = [];
  negative_occurences = [];
  occurences = [];
}

-- `numberOfVariables()`
unfoldable pub number_of_model_variables : CnfModel → ℕ
number_of_model_variables m = m.num_variables + 1

-- `std::unique` and `erase`: of equal literals side by side one is left.
abbrev pub skip_same : Literal → List Literal → List Literal
skip_same l [] = l ∷ []
skip_same l (k ∷ ls) = let rest = skip_same k ls in if l == k then rest else l ∷ rest

abbrev pub unique : List Literal → List Literal
unique [] = []
unique (l ∷ ls) = skip_same l ls

abbrev pub back : Literal → List Literal → Literal
back l [] = l
back l (k ∷ ls) = back k ls

abbrev pub increment : List ℕ → ℕ → List ℕ
increment counts i = set counts i (get_or counts i 0 + 1)

-- One round of the loop of compute_occurences.
unfoldable pub count_literal : Literal → CnfModel → CnfModel
unfolding number_of_model_variables
count_literal l m =
    let num_vars = number_of_model_variables m in
    let index = variable l in
    let resized =
      if ltb index num_vars
      then record m {
        positive_occurences = resize num_vars 0 m.positive_occurences;
        negative_occurences = resize num_vars 0 m.negative_occurences;
        occurences = resize num_vars 0 m.occurences;
      }
      else m in
    let signed =
      if is_positive l
      then record resized { positive_occurences = increment resized.positive_occurences index }
      else record resized { negative_occurences = increment resized.negative_occurences index } in
    record signed { occurences = increment signed.occurences index }

unfoldable pub compute_occurences : List Literal → CnfModel → CnfModel
compute_occurences [] m = m
compute_occurences (l ∷ ls) m = compute_occurences ls (count_literal l m)

unfoldable pub compute_sizes : List Literal → CnfModel → CnfModel
compute_sizes (_ ∷ []) m = record m { num_unary_clauses = m.num_unary_clauses + 1 }
compute_sizes (_ ∷ _ ∷ []) m = record m { num_binary_clauses = m.num_binary_clauses + 1 }
compute_sizes (_ ∷ _ ∷ _ ∷ []) m = record m { num_ternary_clauses = m.num_ternary_clauses + 1 }
compute_sizes _ m = record m { num_large_clauses = m.num_large_clauses + 1 }

module _ (hash : List ℤ → ℕ) where
  unfoldable pub compute_tag : List Literal → ℕ
  compute_tag literals = hash (map signed_value literals)

  -- What follows the sorting, for a clause that is not empty.
  unfoldable pub add_sorted_clause : Literal → List Literal → CnfModel → CnfModel
  unfolding compute_tag compute_occurences compute_sizes
  add_sorted_clause l ls m =
      let var = variable (back l ls) in
      let counted = record m {
        num_variables = if ltb m.num_variables var then var else m.num_variables;
        num_clauses = m.num_clauses + 1;
      } in
      let tag = compute_tag (l ∷ ls) in
      let added = record counted {
        clauses_tag = counted.clauses_tag ++ tag ∷ [];
        clauses = counted.clauses ++ (l ∷ ls) ∷ [];
      } in
      if contains counted.clauses_tag tag
      then counted
      else compute_sizes (l ∷ ls) (compute_occurences (l ∷ ls) added)

  abbrev pub add_if_any : List Literal → CnfModel → Option CnfModel
  add_if_any [] m = none
  add_if_any (l ∷ ls) m = some (add_sorted_clause l ls m)

  -- `none` is the failed CHECK that the clause has a literal.
  unfoldable pub add_model_clause : List Literal → CnfModel → Option CnfModel
  unfolding sort add_sorted_clause
  add_model_clause literals m = add_if_any (unique (sort ltb literals)) m
