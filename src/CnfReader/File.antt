-- ===== src/CnfReader/File.antt =====
-- CNFReader.cc: load of a file, over the buffer.
use mathlib.Core.Path.{subst}
use sat_symmetry.Prelude.{
  arith, ℕ, ◌%◌, ◌^◌, ◌<◌, ◌≡◌, ◌≢◌, ◌∙◌, Bool, ◌&&◌, Option, List, ◌==◌, length, All,
}
use sat_symmetry.Prelude.Int.{ℤ}
use sat_symmetry.Prelude.Outcome.{done, stuck, ◌>>=◌, check, Ends-ne-stuck}
use sat_symmetry.CnfModel.{CnfModel, number_of_model_variables}
use sat_symmetry.StreamBuffer.{buffer_size}
use sat_symmetry.StreamBuffer.Laws.{IsFile}
use sat_symmetry.StreamBuffer.Input.{stream_input, list_input}
use sat_symmetry.StreamBuffer.Input.Stream.{Left, stream-IsFollower, open_stream-Left}
use sat_symmetry.CnfReader.{load, load_file}
use sat_symmetry.CnfReader.Follows.{load-Follows}
use sat_symmetry.CnfReader.Ends.{load-Ends}
use sat_symmetry.CnfReader.Printed.{Line, IsLine, file_text, add_lines}
use sat_symmetry.StreamBuffer.Decimal.{IsBlank}
use sat_symmetry.CnfReader.RoundTrip.{load-file_text}

module _ {F : Type 0} (gzread : F → ℕ → Option (List ℕ) × F) (is_space : ℕ → Bool)
    (content : F → List ℕ) (file : IsFile gzread content) (hash : List ℤ → ℕ) (fuel : ℕ)
    (buffer : List ℕ) (f : F) (room : length buffer ≡ buffer_size) (model : CnfModel) where
  pub load_file-total :
      length (content f) < fuel
      → (load_file gzread is_space hash fuel buffer f model
          ≡ load (list_input is_space) hash fuel model (content f))
        × (load_file gzread is_space hash fuel buffer f model ≢ stuck)
  unfolding load_file
  load_file-total enough =
      let (s, opened, left) =
        open_stream-Left gzread is_space content fuel buffer f file room enough in
      let same =
        load-Follows (stream_input gzread is_space fuel) (list_input is_space)
          (Left gzread is_space content fuel) (stream-IsFollower gzread is_space content fuel file)
          hash fuel model s (content f) left in
      (
        rw (opened, same),
        rw (opened, same) (Ends-ne-stuck (load-Ends is_space hash fuel model (content f) enough)),
      )

  -- The numbers of the header as they are stored.
  load_file-printed :
      (vars clauses : ℕ) (lines : List Line)
      → IsBlank is_space
      → content f ≡ file_text vars clauses lines
      → All IsLine lines
      → length (content f) < fuel
      → load_file gzread is_space hash fuel buffer f model ≡ (
          check (add_lines hash lines model) >>= λ m.
          done
            (number_of_model_variables m == vars % 2 ^ 32 && m.num_clauses == clauses % 2 ^ 32, m))
  load_file-printed vars clauses lines blank printed good enough =
      (load_file-total enough).0
      ∙ rw printed (
          load-file_text is_space blank hash fuel model vars clauses lines
            (subst (λ cs. length cs < fuel) printed enough) good)

  -- Where gzread gives the characters of the file in pieces, without an error and no empty piece
  -- before the end, and with fuel above the number of characters, load of the text of a problem (a
  -- header with two numbers below 2 ^ 31, comments without newlines and null characters, and
  -- clauses of literals with indexes below 2 ^ 31) adds the clauses to the model in their order,
  -- fails where a clause is empty, and otherwise returns whether the numbers of variables and
  -- clauses of the model are those of the header.
  pub load_file-file_text :
      (vars clauses : ℕ) (lines : List Line)
      → IsBlank is_space
      → content f ≡ file_text vars clauses lines
      → All IsLine lines
      → length (content f) < fuel
      → vars < 2 ^ 31
      → clauses < 2 ^ 31
      → load_file gzread is_space hash fuel buffer f model ≡ (
          check (add_lines hash lines model) >>= λ m.
          done (number_of_model_variables m == vars && m.num_clauses == clauses, m))
  load_file-file_text vars clauses lines blank printed good enough few_vars few_clauses =
      let same_vars : vars % 2 ^ 32 ≡ vars = omega arith in
      let same_clauses : clauses % 2 ^ 32 ≡ clauses = omega arith in
      rw (same_vars, same_clauses) at
        (load_file-printed vars clauses lines blank printed good enough)
