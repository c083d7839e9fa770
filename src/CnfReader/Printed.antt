-- ===== src/CnfReader/Printed.antt =====
-- The text of a file in DIMACS format: decimal numbers, lines, and the model of the lines.
use sat_symmetry.Prelude.{ℕ, ◌<◌, ◌^◌, Option, some, List, [], ◌∷◌, ◌++◌, All, ◌≢◌, ◌>>=◌}
use sat_symmetry.Prelude.Int.{ℤ}
use sat_symmetry.StreamBuffer.Decimal.{number, decimal}
use sat_symmetry.Literal.{Literal, signed_value}
use sat_symmetry.CnfModel.{CnfModel, add_model_clause}

-- The literals, each with a space behind it, a zero and a newline.
abbrev pub clause_line : List Literal → List ℕ → List ℕ
clause_line [] rest = 48 ∷ 10 ∷ rest
clause_line (l ∷ ls) rest = number (signed_value l) ++ 32 ∷ clause_line ls rest

pub data Line : Type 0 where
  comment : List ℕ → Line
  clause : List Literal → Line

abbrev pub text : List Line → List ℕ
text [] = []
text (comment cs ∷ lines) = 99 ∷ (cs ++ 10 ∷ text lines)
text (clause ls ∷ lines) = clause_line ls (text lines)

-- "p cnf ", and the two numbers.
abbrev pub file_text : ℕ → ℕ → List Line → List ℕ
file_text vars clauses lines =
    112 ∷ 32 ∷ 99 ∷ 110 ∷ 102 ∷ 32 ∷ (decimal vars ++ 32 ∷ (decimal clauses ++ 10 ∷ text lines))

-- A comment contains neither a newline nor a null character, and the indexes of the literals are
-- values of an `int`.
abbrev pub IsLine : Line → Type 0
IsLine (comment cs) = All (λ c. (c ≢ 0) × (c ≢ 10)) cs
IsLine (clause ls) = All (λ (l : Literal). l < 2 ^ 31) ls

-- The clauses are added in their order; `none` where one of them is empty.
abbrev pub add_lines : (List ℤ → ℕ) → List Line → CnfModel → Option CnfModel
add_lines hash [] m = some m
add_lines hash (comment cs ∷ lines) m = add_lines hash lines m
add_lines hash (clause ls ∷ lines) m = add_model_clause hash ls m >>= λ m'. add_lines hash lines m'
