-- ===== src/CnfReader.antt =====
-- include/cosy/CNFReader.h and src/CNFReader.cc: a model from a file in DIMACS format. The file is
-- an Input; the loops take a fuel. `check_failed` is a failed CHECK, of the reader or of addClause.
pub mod Follows
pub mod Printed
pub mod Lines
pub mod RoundTrip
pub mod Ends
pub mod File
pub mod Tests
use sat_symmetry.Prelude.{
  ℕ, zero, suc, ◌-◌, ◌%◌, ◌^◌, Bool, true, false, ◌&&◌, Option, List, [], ◌∷◌, ◌++◌, ◌==◌,
}
use sat_symmetry.Prelude.Int.{ℤ, pos, negsuc, ==ℤ}
use sat_symmetry.Prelude.Outcome.{Outcome, done, check_failed, stuck, ◌>>=◌, run, check}
use sat_symmetry.Literal.{Literal, from_signed}
use sat_symmetry.CnfModel.{CnfModel, number_of_model_variables, add_model_clause}
use sat_symmetry.StreamBuffer.Input.{Input, stream_input}
use sat_symmetry.StreamBuffer.{open_stream}

-- The variables of `load`, and the model that it fills.
pub record Loading : Type 0 where
  pub expected_num_vars : ℕ
  pub expected_num_clauses : ℕ
  pub model : CnfModel

-- `unsigned int expected_num_vars = 0, expected_num_clauses = 0;`
abbrev pub begin_loading : CnfModel → Loading
begin_loading model = record { expected_num_vars = 0; expected_num_clauses = 0; model = model }

-- The conversion of an `int` to `unsigned int`.
abbrev pub to_unsigned : ℤ → ℕ
to_unsigned (pos n) = n % 2 ^ 32
to_unsigned (negsuc n) = 2 ^ 32 - 1 - n % 2 ^ 32

-- The two comparisons that follow the loop.
unfoldable pub counts_match : Loading → Bool
counts_match st =
    number_of_model_variables st.model == st.expected_num_vars
    && st.model.num_clauses == st.expected_num_clauses

module _ {ℓ} {S : Type ℓ} (input : Input S) where
  -- `++in; CHECK_EQ(*in, c);`
  unfoldable pub check_next : ℕ → S → Outcome S
  check_next expected s = do
    s1 ← run (input.advance s)
    (c, s2) ← run (input.peek s1)
    elim (c == expected) [ true ↦ done s2 | false ↦ check_failed ]

  -- The line of the problem: " cnf" behind the p, and two numbers.
  unfoldable pub load_problem : Loading → S → Outcome (Loading × S)
  unfolding check_next
  load_problem st s = do
    s1 ← check_next 32 s
    s2 ← check_next 99 s1
    s3 ← check_next 110 s2
    s4 ← check_next 102 s3
    s5 ← run (input.advance s4)
    (vars, s6) ← run (input.take_int s5)
    (clauses, s7) ← run (input.take_int s6)
    s8 ← run (input.pass_line s7)
    done (
      record st {
        expected_num_vars = to_unsigned vars;
        expected_num_clauses = to_unsigned clauses;
      },
      s8,
    )

  -- The `do` loop over the numbers of a clause.
  unfoldable pub load_literals : ℕ → List Literal → S → Outcome (List Literal × S)
  load_literals zero literals s = stuck
  load_literals (suc fuel) literals s = do
    (n, s1) ← run (input.take_int s)
    elim (==ℤ n (pos 0)) [
      | true ↦ done (literals, s1)
      | false ↦ check (from_signed n) >>= λ l. load_literals fuel (literals ++ l ∷ []) s1
    ]

  module _ (hash : List ℤ → ℕ) where
    unfoldable pub load_clause : ℕ → Loading → S → Outcome (Loading × S)
    unfolding load_literals
    load_clause fuel st s = do
      (literals, s1) ← load_literals fuel [] s
      model ← check (add_model_clause hash literals st.model)
      s2 ← run (input.pass_line s1)
      done (record st { model = model }, s2)

    -- One round of the loop over the lines.
    unfoldable pub load_line : ℕ → Loading → S → Outcome (Loading × S)
    unfolding load_problem load_clause
    load_line fuel st s = do
      (c, s1) ← run (input.peek s)
      elim (c == 99) [
        | true ↦ run (input.pass_line s1) >>= λ s2. done (st, s2)
        | false ↦ run (input.peek s1) >>= λ (c', s2). elim (c' == 112) [
          | true ↦ load_problem st s2
          | false ↦ load_clause fuel st s2
        ]
      ]

    unfoldable pub load_lines : ℕ → Loading → S → Outcome Loading
    unfolding load_line
    load_lines zero st s = stuck
    load_lines (suc fuel) st s = do
      (c, s1) ← run (input.peek s)
      elim (c == 0) [
        | true ↦ done st
        | false ↦ load_line (suc fuel) st s1 >>= λ (st', s2).
            run (input.pass_spaces s2) >>= λ s3. load_lines fuel st' s3
      ]

    -- The result is what `load` returns, and the model.
    unfoldable pub load : ℕ → CnfModel → S → Outcome (Bool × CnfModel)
    unfolding load_lines counts_match
    load fuel model s = do
      st ← load_lines fuel (begin_loading model) s
      done (counts_match st, st.model)

-- `load` of a file: the stream is opened, and read with loops of a fuel.
module _ {F : Type 0} (gzread : F → ℕ → Option (List ℕ) × F) (is_space : ℕ → Bool)
    (hash : List ℤ → ℕ) where
  unfoldable pub load_file : ℕ → List ℕ → F → CnfModel → Outcome (Bool × CnfModel)
  unfolding load
  load_file fuel buffer file model = do
    s ← run (open_stream gzread is_space buffer file)
    load (stream_input gzread is_space fuel) hash fuel model s
