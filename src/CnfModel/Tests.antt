-- ===== src/CnfModel/Tests.antt =====
-- Clauses added to an empty model, with the sum of the magnitudes for the hash.
use sat_symmetry.Prelude.{ℕ, ◌+◌, ◌≡◌, refl, some, List, [], ◌∷◌}
use sat_symmetry.Prelude.Int.{ℤ, pos, negsuc}
use sat_symmetry.Literal.{variable, is_positive, signed_value}
use sat_symmetry.Order.{sort}
use sat_symmetry.CnfModel.{
  new_cnf_model, add_model_clause, add_sorted_clause, compute_tag, compute_occurences,
  compute_sizes, count_literal, number_of_model_variables,
}

abbrev magnitudes : List ℤ → ℕ
magnitudes [] = 0
magnitudes (pos n ∷ vs) = n + magnitudes vs
magnitudes (negsuc n ∷ vs) = n + 1 + magnitudes vs

-- The literals 3, 0, 3 are sorted, and one of the two 3 is left.
first_clause :
    add_model_clause magnitudes (3 ∷ 0 ∷ 3 ∷ []) new_cnf_model
    ≡ some (record {
      num_variables = 1;
      num_clauses = 1;
      num_unary_clauses = 0;
      num_binary_clauses = 1;
      num_ternary_clauses = 0;
      num_large_clauses = 0;
      clauses = (0 ∷ 3 ∷ []) ∷ [];
      clauses_tag = 3 ∷ [];
      positive_occurences = 1 ∷ 0 ∷ [];
      negative_occurences = 0 ∷ 1 ∷ [];
      occurences = 1 ∷ 1 ∷ [];
    })
unfolding add_model_clause new_cnf_model sort add_sorted_clause compute_tag compute_occurences
    compute_sizes count_literal number_of_model_variables variable is_positive signed_value
first_clause = refl
