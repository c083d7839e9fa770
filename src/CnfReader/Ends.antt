-- ===== src/CnfReader/Ends.antt =====
-- CNFReader.cc: each round of a loop passes a character, so the loops end within their fuel.
use sat_symmetry.Prelude.{
  ℕ, zero, suc, ◌+◌, ◌-◌, ◌*◌, ◌≤◌, ◌<◌, ◌≡◌, ◌≢◌, refl, ap, ◌∙◌, arith, Bool, true, false, not,
  ◌&&◌, ◌⊎◌, inl, inr, none, List, [], ◌∷◌, ◌++◌, ◌==◌, length, Bool-cases,
}
use sat_symmetry.Prelude.Int.{ℤ, pos, ==ℤ}
use sat_symmetry.Prelude.Outcome.{
  Ends, ended, failed, Ends-bind, Ends-check, Ends-implied, Ends-test,
}
use sat_symmetry.Literal.{Literal, from_signed}
use sat_symmetry.Order.{sort}
use sat_symmetry.CnfModel.{CnfModel, add_model_clause}
use sat_symmetry.StreamBuffer.{newline, is_digit, with_sign}
use sat_symmetry.StreamBuffer.Characters.{
  front, rest_of, without, without_line, sign_of, digits_of, int_of,
}
use sat_symmetry.StreamBuffer.Reading.{length-without, length-rest_of, length-sign_of}
use sat_symmetry.StreamBuffer.Input.{list_input}
use sat_symmetry.StreamBuffer.Input.Stream.{length-without_line, length-digits_of, length-int_of}
use sat_symmetry.CnfReader.{
  Loading, begin_loading, check_next, load_problem, load_literals, load_clause, load_line,
  load_lines, load,
}

digits_of-shorter :
    (cs : List ℕ) → ((digits_of 0 cs).0 ≡ 0) ⊎ (length (digits_of 0 cs).1 < length cs)
digits_of-shorter [] = inl refl
digits_of-shorter (c ∷ cs) = elim (Bool-cases (not (c == 0) && is_digit c)) [
  | inl more ↦ inr (rw more (omega (arith, length-digits_of (0 * 10 + (c - 48)) cs)))
  | inr stop ↦ inl (rw stop)
]

with_sign-zero : (negative : Bool) → with_sign negative 0 ≡ pos 0
with_sign-zero true = refl
with_sign-zero false = refl

-- Without a digit the number is 0.
pub int_of-shorter :
    (is_space : ℕ → Bool) (cs : List ℕ)
    → ==ℤ (int_of is_space cs).0 (pos 0) ≡ false
    → length (int_of is_space cs).1 < length cs
int_of-shorter is_space cs ne =
    let signed = sign_of (without is_space cs) in
    elim (digits_of-shorter signed.1) [
      | inl no_digit ↦
          let zero_int : (int_of is_space cs).0 ≡ pos 0 =
            ap (with_sign signed.0) no_digit ∙ with_sign-zero signed.0 in
          cc (ap (λ v. ==ℤ v (pos 0)) zero_int)
      | inr less ↦
          omega (arith, less, length-without is_space cs, length-sign_of (without is_space cs))
    ]

without_line-shorter : (cs : List ℕ) → front cs ≢ 0 → length (without_line cs) < length cs
without_line-shorter [] ne = absurd (ne refl)
without_line-shorter (c ∷ cs) ne = elim (Bool-cases (not (c == 0) && not (c == newline))) [
  | inl more ↦ rw more (omega (arith, length-without_line cs))
  | inr stop ↦ rw stop (omega arith)
]

add_model_clause-nil : (hash : List ℤ → ℕ) (m : CnfModel) → add_model_clause hash [] m ≡ none
unfolding add_model_clause sort
add_model_clause-nil hash m = refl

module _ (is_space : ℕ → Bool) where
  check_next-Ends :
      (c : ℕ) (cs : List ℕ) → Ends (λ cs'. cs' ≡ rest_of cs) (check_next (list_input is_space) c cs)
  unfolding check_next
  check_next-Ends c cs = Ends-test (front (rest_of cs) == c) (λ e. ended refl) (λ e. failed)

  load_problem-Ends :
      (st : Loading) (cs : List ℕ)
      → front cs ≢ 0
      → Ends
          (λ (r : Loading × List ℕ). length r.1 < length cs)
          (load_problem (list_input is_space) st cs)
  unfolding load_problem
  load_problem-Ends st [] ne = absurd (ne refl)
  load_problem-Ends st (c ∷ cs) ne = Ends-bind (check_next-Ends 32 (c ∷ cs)) λ cs1 e1.
      Ends-bind (check_next-Ends 99 cs1) λ cs2 e2. Ends-bind (check_next-Ends 110 cs2) λ cs3 e3.
        Ends-bind (check_next-Ends 102 cs3) λ cs4 e4.
          let cs5 = (int_of is_space (rest_of cs4)).1 in
          let cs6 = (int_of is_space cs5).1 in
          ended (
            omega (
              arith,
              ap length e1,
              ap length e2,
              ap length e3,
              ap length e4,
              length-rest_of cs1,
              length-rest_of cs2,
              length-rest_of cs3,
              length-rest_of cs4,
              length-int_of is_space (rest_of cs4),
              length-int_of is_space cs5,
              length-without_line cs6,
            ))

  load_literals-Ends :
      (fuel : ℕ) (literals : List Literal) (cs : List ℕ)
      → length cs < fuel
      → Ends
          (λ (r : List Literal × List ℕ).
            (length r.1 ≤ length cs) × ((r.0 ≡ literals) ⊎ (length r.1 < length cs)))
          (load_literals (list_input is_space) fuel literals cs)
  unfolding load_literals
  load_literals-Ends zero literals cs lt = absurd (omega arith)
  load_literals-Ends (suc fuel) literals cs lt =
      let left = (int_of is_space cs).1 in
      Ends-test (==ℤ (int_of is_space cs).0 (pos 0))
        (λ _. ended (length-int_of is_space cs, inl refl))
        (λ more.
          let less = int_of-shorter is_space cs more in
          Ends-check (from_signed (int_of is_space cs).0) λ l found.
            Ends-implied (load_literals-Ends fuel (literals ++ l ∷ []) left (omega (arith, less)))
              (λ r h. (omega (arith, less, h.0), inr (omega (arith, less, h.0)))))

  module _ (hash : List ℤ → ℕ) where
    load_clause-Ends :
        (fuel : ℕ) (st : Loading) (cs : List ℕ)
        → length cs < fuel
        → Ends
            (λ (r : Loading × List ℕ). length r.1 < length cs)
            (load_clause (list_input is_space) hash fuel st cs)
    unfolding load_clause
    load_clause-Ends fuel st cs lt = Ends-bind (load_literals-Ends fuel [] cs lt) λ r h.
        Ends-check (add_model_clause hash r.0 st.model) λ m added. elim h.1 [
          | inl empty ↦ cc (
            add_model_clause-nil hash st.model,
            ap (λ ls. add_model_clause hash ls st.model) empty,
            added,
          )
          | inr less ↦ ended (omega (arith, less, length-without_line r.1))
        ]

    load_line-Ends :
        (fuel : ℕ) (st : Loading) (cs : List ℕ)
        → length cs < fuel
        → front cs ≢ 0
        → Ends
            (λ (r : Loading × List ℕ). length r.1 < length cs)
            (load_line (list_input is_space) hash fuel st cs)
    unfolding load_line
    load_line-Ends fuel st cs lt ne =
        Ends-test (front cs == 99) (λ _. ended (without_line-shorter cs ne))
          λ _.
            Ends-test (front cs == 112) (λ _. load_problem-Ends st cs ne)
              (λ _. load_clause-Ends fuel st cs lt)

    load_lines-Ends :
        (fuel : ℕ) (st : Loading) (cs : List ℕ)
        → length cs < fuel
        → Ends (λ st'. Unit {0}) (load_lines (list_input is_space) hash fuel st cs)
    unfolding load_lines
    load_lines-Ends zero st cs lt = absurd (omega arith)
    load_lines-Ends (suc fuel) st cs lt =
        Ends-test (front cs == 0) (λ _. ended tt)
          λ more. Ends-bind (load_line-Ends (suc fuel) st cs lt (ground arith)) λ r less.
            load_lines-Ends fuel r.0 (without is_space r.1)
              (omega (arith, less, length-without is_space r.1))

    -- With a fuel above the number of characters load gives a result or fails at a CHECK.
    pub load-Ends :
        (fuel : ℕ) (model : CnfModel) (cs : List ℕ)
        → length cs < fuel
        → Ends (λ r. Unit {0}) (load (list_input is_space) hash fuel model cs)
    unfolding load
    load-Ends fuel model cs lt =
        Ends-bind (load_lines-Ends fuel (begin_loading model) cs lt) λ st h. ended tt
