-- ===== src/CnfReader/Lines.antt =====
-- CNFReader.cc: a printed line is read back.
use mathlib.Core.List.{append_assoc, append-nil}
use sat_symmetry.Prelude.{
  ℕ, zero, suc, ◌+◌, ◌≤◌, ◌<◌, ◌≡◌, ◌≢◌, refl, sym, ap, ◌∙◌, arith, Bool, true, false, not, ◌&&◌,
  List, [], ◌∷◌, ◌++◌, ◌==◌, length, length-append, All,
}
use sat_symmetry.Prelude.Int.{ℤ, pos, negsuc, ==ℤ}
use sat_symmetry.Prelude.Outcome.{Outcome, done, ◌>>=◌, run, check}
use sat_symmetry.Literal.{Literal, from_signed, signed_value}
use sat_symmetry.Literal.Laws.{from_signed-signed_value, signed_value-ne-zero}
use sat_symmetry.CnfModel.{add_model_clause}
use sat_symmetry.StreamBuffer.{newline}
use sat_symmetry.StreamBuffer.Characters.{front, without, int_of}
use sat_symmetry.StreamBuffer.Input.{list_input}
use sat_symmetry.CnfReader.{Loading, load_literals, load_clause, load_line}
use sat_symmetry.CnfReader.Printed.{clause_line}
use sat_symmetry.StreamBuffer.Decimal.{IsBlank, decimal, decimal_digits, number}
use sat_symmetry.StreamBuffer.Decimal.{decimal-front, int_of-space, int_of-decimal, int_of-number}

-- A clause begins with a digit or a minus.
pub clause_line-front :
    (ls : List Literal) (rest : List ℕ)
    → (c : ℕ) × (cs : List ℕ) × (clause_line ls rest ≡ c ∷ cs) × (32 < c) × (c ≤ 57)
clause_line-front [] rest = (48, 10 ∷ rest, refl, omega arith, omega arith)
clause_line-front (l ∷ ls) rest = number-front (signed_value l) (32 ∷ clause_line ls rest)
  where
    number-front :
        (v : ℤ) (rest : List ℕ)
        → (c : ℕ) × (cs : List ℕ) × (number v ++ rest ≡ c ∷ cs) × (32 < c) × (c ≤ 57)
    number-front (pos n) rest =
        let (d, ds, e, low, high) = decimal-front n in
        (d, ds ++ rest, ap (λ w. w ++ rest) e, omega arith, high)
    number-front (negsuc n) rest = (45, decimal (suc n) ++ rest, refl, omega arith, omega arith)

-- A line is not empty.
pub length-clause_line :
    (ls : List Literal) (rest : List ℕ) → length ls + length rest < length (clause_line ls rest)
length-clause_line [] rest = omega arith
length-clause_line (l ∷ ls) rest = omega (
  arith,
  length-clause_line ls rest,
  length-append (number (signed_value l)) (32 ∷ clause_line ls rest),
)

without_comment :
    (cs rest : List ℕ)
    → All (λ c. (c ≢ 0) × (c ≢ 10)) cs
    → without (λ c. not (c == newline)) (cs ++ 10 ∷ rest) ≡ 10 ∷ rest
without_comment [] rest h = refl
without_comment (c ∷ cs) rest h =
    let more : (not (c == 0) && not (c == newline)) ≡ true = ground (arith, h.0.0, h.0.1) in
    rw more (without_comment cs rest h.1)

module _ (is_space : ℕ → Bool) (blank : IsBlank is_space) where
  take_literal :
      (fuel : ℕ) (acc : List Literal) (cs rest : List ℕ) (n : ℤ)
      → int_of is_space cs ≡ (n, rest)
      → load_literals (list_input is_space) (suc fuel) acc cs ≡ elim (==ℤ n (pos 0)) [
        | true ↦ done (acc, rest)
        | false ↦ check (from_signed n) >>= λ l.
            load_literals (list_input is_space) fuel (acc ++ l ∷ []) rest
      ]
  unfolding load_literals
  take_literal fuel acc cs rest n e =
      ap
        (λ (p : ℤ × List ℕ). elim (==ℤ p.0 (pos 0)) as (λ _. Outcome (List Literal × List ℕ)) [
          | true ↦ done (acc, p.1)
          | false ↦ check (from_signed p.0) >>= λ l.
              load_literals (list_input is_space) fuel (acc ++ l ∷ []) p.1
        ])
        e

  load_literals-space :
      (fuel : ℕ) (acc : List Literal) (cs : List ℕ)
      → load_literals (list_input is_space) fuel acc (32 ∷ cs)
        ≡ load_literals (list_input is_space) fuel acc cs
  unfolding load_literals
  load_literals-space zero acc cs = refl
  load_literals-space (suc fuel) acc cs =
      take_literal fuel acc (32 ∷ cs) (int_of is_space cs).1 (int_of is_space cs).0
        (int_of-space is_space blank cs)
      ∙ sym (take_literal fuel acc cs (int_of is_space cs).1 (int_of is_space cs).0 refl)

  load_literals-clause_line :
      (fuel : ℕ) (acc ls : List Literal) (rest : List ℕ)
      → length ls < fuel
      → load_literals (list_input is_space) fuel acc (clause_line ls rest)
        ≡ done (acc ++ ls, 10 ∷ rest)
  unfolding decimal_digits
  load_literals-clause_line zero acc ls rest lt = absurd (omega arith)
  load_literals-clause_line (suc fuel) acc [] rest lt =
      take_literal fuel acc (48 ∷ 10 ∷ rest) (10 ∷ rest) (pos 0)
        (int_of-decimal is_space blank 0 10 rest (omega arith))
      ∙ rw (append-nil acc)
  load_literals-clause_line (suc fuel) acc (l ∷ ls) rest lt =
      take_literal fuel acc (clause_line (l ∷ ls) rest) (32 ∷ clause_line ls rest) (signed_value l)
        (int_of-number is_space blank (signed_value l) 32 (clause_line ls rest) (omega arith))
      ∙ rw (
        signed_value-ne-zero l,
        from_signed-signed_value l,
        load_literals-space fuel (acc ++ l ∷ []) (clause_line ls rest),
        load_literals-clause_line fuel (acc ++ l ∷ []) ls rest (omega arith),
        append_assoc acc (l ∷ []) ls,
      )

  module _ (hash : List ℤ → ℕ) where
    pub load_line-clause :
        (fuel : ℕ) (st : Loading) (ls : List Literal) (rest : List ℕ)
        → length ls < fuel
        → load_line (list_input is_space) hash fuel st (clause_line ls rest) ≡ (
            check (add_model_clause hash ls st.model) >>= λ m. done (record st { model = m }, rest))
    unfolding load_line load_clause
    load_line-clause fuel st ls rest lt =
        let (c, cs, e, low, high) = clause_line-front ls rest in
        let front_eq : front (clause_line ls rest) ≡ c = ap front e in
        let no_comment : (c == 99) ≡ false = ground arith in
        let no_problem : (c == 112) ≡ false = ground arith in
        rw (
          front_eq,
          ◌>>=◌,
          no_comment,
          run,
          front_eq,
          ◌>>=◌,
          no_problem,
          load_literals-clause_line fuel [] ls rest lt,
        )

    pub load_line-comment :
        (fuel : ℕ) (st : Loading) (cs rest : List ℕ)
        → All (λ c. (c ≢ 0) × (c ≢ 10)) cs
        → load_line (list_input is_space) hash fuel st (99 ∷ (cs ++ 10 ∷ rest)) ≡ done (st, rest)
    unfolding load_line
    load_line-comment fuel st cs rest h = rw (without_comment cs rest h)
