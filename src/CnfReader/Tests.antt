-- ===== src/CnfReader/Tests.antt =====
-- A small file, and the theorems applied to it: "p cnf 2 2", a comment, and two clauses.
use sat_symmetry.Prelude.{
  ℕ, ◌+◌, ◌≡◌, refl, arith, Bool, true, false, ◌&&◌, ◌||◌, List, [], ◌∷◌, ◌==◌, leb, replicate,
  length-replicate,
}
use sat_symmetry.Prelude.Int.{ℤ}
use sat_symmetry.Prelude.Outcome.{Outcome, done, check_failed, ◌>>=◌, check}
use sat_symmetry.Literal.{from_signed, signed_value, variable, is_positive}
use sat_symmetry.Order.{sort}
use sat_symmetry.CnfModel.{
  CnfModel, new_cnf_model, add_model_clause, number_of_model_variables, count_literal,
}
use sat_symmetry.StreamBuffer.{buffer_size}
use sat_symmetry.StreamBuffer.Tests.{by_one, all, by_one-IsFile}
use sat_symmetry.StreamBuffer.Input.{list_input}
use sat_symmetry.CnfReader.{
  load, load_file, load_lines, load_line, load_problem, load_clause, load_literals, check_next,
  counts_match,
}
use sat_symmetry.CnfReader.Printed.{Line, comment, clause, file_text, add_lines}
use sat_symmetry.StreamBuffer.Decimal.{decimal_digits}
use sat_symmetry.CnfReader.File.{load_file-file_text}

-- `isspace`
abbrev pub blank : ℕ → Bool
blank c = c == 32 || leb 9 c && leb c 13

abbrev pub lengths : List ℤ → ℕ
lengths [] = 0
lengths (v ∷ vs) = 1 + lengths vs

-- The clauses 1 -2 and 2.
abbrev pub lines : List Line
lines = comment (120 ∷ []) ∷ clause (0 ∷ 3 ∷ []) ∷ clause (2 ∷ []) ∷ []

abbrev pub characters : List ℕ
characters =
    112 ∷ 32 ∷ 99 ∷ 110 ∷ 102 ∷ 32 ∷ 50 ∷ 32 ∷ 50 ∷ 10 ∷ 99 ∷ 120 ∷ 10 ∷ 49 ∷ 32 ∷ 45 ∷ 50 ∷ 32 ∷ 48
    ∷ 10 ∷ 50 ∷ 32 ∷ 48 ∷ 10 ∷ []

pub printed : characters ≡ file_text 2 2 lines
unfolding decimal_digits signed_value
printed = refl

-- The result of a load, with the number of clauses of the model.
abbrev outcome_ok : Outcome (Bool × CnfModel) → Outcome (Bool × ℕ)
outcome_ok r = r >>= λ (ok, m). done (ok, m.num_clauses)

abbrev reads : List ℕ → Outcome (Bool × ℕ)
reads cs = outcome_ok (load (list_input blank) lengths 30 new_cnf_model cs)

accepted : reads characters ≡ done (true, 2)
unfolding load load_lines load_line load_problem load_clause load_literals check_next counts_match
    from_signed signed_value new_cnf_model add_model_clause sort number_of_model_variables variable
    count_literal is_positive
accepted = refl

-- A clause line without a number fails.
refused : reads (120 ∷ 10 ∷ []) ≡ check_failed
unfolding load load_lines load_line load_problem load_clause load_literals check_next counts_match
    from_signed signed_value new_cnf_model add_model_clause sort number_of_model_variables variable
    count_literal is_positive
refused = refl

-- A file with no variables and no clauses is refused: an empty model counts one variable.
empty_refused : reads (112 ∷ 32 ∷ 99 ∷ 110 ∷ 102 ∷ 32 ∷ 48 ∷ 32 ∷ 48 ∷ 10 ∷ []) ≡ done (false, 0)
unfolding load load_lines load_line load_problem load_clause load_literals check_next counts_match
    from_signed signed_value new_cnf_model add_model_clause sort number_of_model_variables variable
    count_literal is_positive
empty_refused = refl

load_file-file_text_example :
    load_file by_one blank lengths 30 (replicate buffer_size 0) characters new_cnf_model ≡ (
      check (add_lines lengths lines new_cnf_model) >>= λ m.
      done (number_of_model_variables m == 2 && m.num_clauses == 2, m))
load_file-file_text_example =
    load_file-file_text by_one blank all by_one-IsFile lengths 30 (replicate buffer_size 0)
      characters (length-replicate {A = ℕ} buffer_size 0) new_cnf_model 2 2 lines (λ c. refl)
      printed
      (
        ((omega arith, omega arith), tt),
        ((omega arith, (omega arith, tt)), ((omega arith, tt), tt)),
      )
      (omega arith) (omega arith) (omega arith)
