-- ===== src/CnfReader/RoundTrip.antt =====
-- CNFReader.cc: a printed file is read back, line by line.
use sat_symmetry.Prelude.{
  ℕ, zero, suc, ◌%◌, ◌^◌, ◌<◌, ◌≡◌, ◌≢◌, refl, ap, ◌∙◌, arith, Bool, false, ◌&&◌, inl, inr, List,
  [], ◌∷◌, ◌++◌, ◌==◌, length, length-append, All, Option-cases,
}
use sat_symmetry.Prelude.Int.{ℤ, pos}
use sat_symmetry.Prelude.Outcome.{Outcome, done, ◌>>=◌, check}
use sat_symmetry.CnfModel.{CnfModel, number_of_model_variables, add_model_clause}
use sat_symmetry.StreamBuffer.Characters.{front, without, without_line, int_of}
use sat_symmetry.StreamBuffer.Input.{list_input}
use sat_symmetry.CnfReader.{
  Loading, begin_loading, to_unsigned, counts_match, check_next, load_problem, load_line,
  load_lines, load,
}
use sat_symmetry.CnfReader.Printed.{
  clause_line, Line, comment, clause, text, file_text, IsLine, add_lines,
}
use sat_symmetry.StreamBuffer.Decimal.{IsBlank, decimal}
use sat_symmetry.StreamBuffer.Decimal.{without-front, int_of-space, int_of-decimal}
use sat_symmetry.CnfReader.Lines.{
  clause_line-front, length-clause_line, load_line-clause, load_line-comment,
}

module _ (is_space : ℕ → Bool) (blank : IsBlank is_space) (hash : List ℤ → ℕ) where
  without-text : (lines : List Line) → without is_space (text lines) ≡ text lines
  without-text [] = refl
  without-text (comment cs ∷ lines) =
      without-front is_space blank 99 (cs ++ 10 ∷ text lines) (omega arith) (omega arith)
  without-text (clause ls ∷ lines) =
      let (c, cs, e, low, high) = clause_line-front ls (text lines) in
      rw e (without-front is_space blank c cs (omega arith) (omega arith))

  -- A line that is read in one round.
  load_lines-line :
      (fuel : ℕ) (st : Loading) (cs : List ℕ)
      → front cs ≢ 0
      → load_lines (list_input is_space) hash (suc fuel) st cs ≡ (
          load_line (list_input is_space) hash (suc fuel) st cs >>= λ (st', rest).
          load_lines (list_input is_space) hash fuel st' (without is_space rest))
  unfolding load_lines
  load_lines-line fuel st cs ne =
      let more : (front cs == 0) ≡ false = ground arith in rw (load_lines, ◌>>=◌, more)

  load_lines-end :
      (fuel : ℕ) (st : Loading) → load_lines (list_input is_space) hash (suc fuel) st [] ≡ done st
  unfolding load_lines
  load_lines-end fuel st = refl

  load_lines-text :
      (fuel : ℕ) (st : Loading) (lines : List Line)
      → length (text lines) < fuel
      → All IsLine lines
      → load_lines (list_input is_space) hash fuel st (text lines)
        ≡ (check (add_lines hash lines st.model) >>= λ m. done (record st { model = m }))
  load_lines-text zero st lines lt h = absurd (omega arith)
  load_lines-text (suc fuel) st [] lt h = load_lines-end fuel st
  load_lines-text (suc fuel) st (comment cs ∷ lines) lt h =
      load_lines-line fuel st (text (comment cs ∷ lines)) (omega arith)
      ∙ rw
          (
            load_line-comment is_space blank hash (suc fuel) st cs (text lines) h.0,
            without-text lines,
          )
          (load_lines-text fuel st lines (omega (arith, length-append cs (10 ∷ text lines))) h.1)
  load_lines-text (suc fuel) st (clause ls ∷ lines) lt h =
      let (c, cs, e, low, high) = clause_line-front ls (text lines) in
      let short = length-clause_line ls (text lines) in
      let there : front (clause_line ls (text lines)) ≢ 0 = rw e (omega arith) in
      load_lines-line fuel st (clause_line ls (text lines)) there
      ∙ rw
          (load_line-clause is_space blank hash (suc fuel) st ls (text lines)
            (omega (arith, short)))
          (elim (Option-cases (add_model_clause hash ls st.model)) [
            | inl empty ↦ rw empty
            | inr (m, added) ↦
                rw (added, without-text lines)
                  (load_lines-text fuel (record st { model = m }) lines (omega (arith, short)) h.1)
          ])

  -- The line of the problem.
  load_line-problem :
      (fuel : ℕ) (st : Loading) (vars clauses : ℕ) (lines : List Line)
      → load_line (list_input is_space) hash fuel st (file_text vars clauses lines)
        ≡ done (
          record st { expected_num_vars = vars % 2 ^ 32; expected_num_clauses = clauses % 2 ^ 32 },
          text lines,
        )
  unfolding load_line load_problem check_next
  load_line-problem fuel st vars clauses lines =
      let more = decimal clauses ++ 10 ∷ text lines in
      let space = int_of-space is_space blank in
      let first =
        space (decimal vars ++ 32 ∷ more)
        ∙ int_of-decimal is_space blank vars 32 more (omega arith) in
      let second =
        space more ∙ int_of-decimal is_space blank clauses 10 (text lines) (omega arith) in
      ap
        (λ (p : ℤ × List ℕ).
          let (n, rest) = int_of is_space p.1 in
          done (
            record st { expected_num_vars = to_unsigned p.0; expected_num_clauses = to_unsigned n },
            without_line rest,
          ))
        first
      ∙ ap
          (λ (p : ℤ × List ℕ). done (
            record st {
              expected_num_vars = to_unsigned (pos vars);
              expected_num_clauses = to_unsigned p.0;
            },
            without_line p.1,
          ))
          second

  load_lines-file_text :
      (fuel : ℕ) (model : CnfModel) (vars clauses : ℕ) (lines : List Line)
      → length (file_text vars clauses lines) < fuel
      → All IsLine lines
      → load_lines
          (list_input is_space)
          hash
          fuel
          (begin_loading model)
          (file_text vars clauses lines)
        ≡ (check (add_lines hash lines model) >>= λ m. done (record {
          expected_num_vars = vars % 2 ^ 32;
          expected_num_clauses = clauses % 2 ^ 32;
          model = m;
        }))
  load_lines-file_text zero model vars clauses lines lt h = absurd (omega arith)
  load_lines-file_text (suc fuel) model vars clauses lines lt h =
      let st : Loading = record {
        expected_num_vars = vars % 2 ^ 32;
        expected_num_clauses = clauses % 2 ^ 32;
        model = model;
      } in
      let room : length (text lines) < fuel = omega (
        arith,
        lt,
        length-append (decimal vars) (32 ∷ (decimal clauses ++ 10 ∷ text lines)),
        length-append (decimal clauses) (10 ∷ text lines),
      ) in
      load_lines-line fuel (begin_loading model) (file_text vars clauses lines) (omega arith)
      ∙ rw
          (
            load_line-problem (suc fuel) (begin_loading model) vars clauses lines,
            without-text lines,
          )
          (load_lines-text fuel st lines room h)

  -- With a fuel above its length the text of a problem gives the model of its lines.
  pub load-file_text :
      (fuel : ℕ) (model : CnfModel) (vars clauses : ℕ) (lines : List Line)
      → length (file_text vars clauses lines) < fuel
      → All IsLine lines
      → load (list_input is_space) hash fuel model (file_text vars clauses lines) ≡ (
          check (add_lines hash lines model) >>= λ m.
          done
            (number_of_model_variables m == vars % 2 ^ 32 && m.num_clauses == clauses % 2 ^ 32, m))
  unfolding load counts_match
  load-file_text fuel model vars clauses lines lt h =
      ap (λ (r : Outcome Loading). r >>= λ st. done (counts_match st, st.model))
        (load_lines-file_text fuel model vars clauses lines lt h)
      ∙ elim (Option-cases (add_lines hash lines model)) [
        | inl empty ↦ rw empty
        | inr (m, added) ↦ rw added
      ]
