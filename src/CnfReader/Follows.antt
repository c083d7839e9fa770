-- ===== src/CnfReader/Follows.antt =====
-- CNFReader.cc: inputs that give the same answers give the same model.
use sat_symmetry.Prelude.{ℕ, zero, suc, ◌≡◌, refl, List, [], ◌∷◌, ◌++◌, ◌==◌}
use sat_symmetry.Prelude.Int.{ℤ, pos, ==ℤ}
use sat_symmetry.Literal.{Literal, from_signed}
use sat_symmetry.CnfModel.{CnfModel, add_model_clause}
use sat_symmetry.StreamBuffer.Input.{Input}
use sat_symmetry.StreamBuffer.Input.Follows.{
  Follows, Same, Follows-eq, Follows-bind, Follows-bind_value, Follows-check, Follows-test,
  IsFollower,
}
use sat_symmetry.CnfReader.{
  Loading, begin_loading, check_next, load_problem, load_literals, load_clause, load_line,
  load_lines, load,
}

module _ {S T : Type 0} (i : Input S) (j : Input T) (R : S → T → Type 0)
    (f : IsFollower i j R) where
  pub check_next-Follows :
      (c : ℕ) (s : S) (t : T) → R s t → Follows R (check_next i c s) (check_next j c t)
  unfolding check_next
  check_next-Follows c s t h = Follows-bind R R _ _ _ _ (f.advance s t h) λ s1 t1 h1.
      Follows-bind_value R R _ _ _ _ (f.peek s1 t1 h1)
        λ c' s2 t2 h2. Follows-test R (c' == c) _ _ _ _ (s2, refl, h2) refl

  load_problem-Follows :
      (st : Loading) (s : S) (t : T)
      → R s t
      → Follows (Same R) (load_problem i st s) (load_problem j st t)
  unfolding load_problem
  load_problem-Follows st s t h =
      Follows-bind R (Same R) _ _ _ _ (check_next-Follows 32 s t h) λ s1 t1 h1.
        Follows-bind R (Same R) _ _ _ _ (check_next-Follows 99 s1 t1 h1) λ s2 t2 h2.
          Follows-bind R (Same R) _ _ _ _ (check_next-Follows 110 s2 t2 h2) λ s3 t3 h3.
            Follows-bind R (Same R) _ _ _ _ (check_next-Follows 102 s3 t3 h3) λ s4 t4 h4.
              Follows-bind R (Same R) _ _ _ _ (f.advance s4 t4 h4) λ s5 t5 h5.
                Follows-bind_value R (Same R) _ _ _ _ (f.take_int s5 t5 h5) λ v s6 t6 h6.
                  Follows-bind_value R (Same R) _ _ _ _ (f.take_int s6 t6 h6) λ n s7 t7 h7.
                    Follows-bind R (Same R) _ _ _ _ (f.pass_line s7 t7 h7)
                      λ s8 t8 h8. ((_, s8), refl, (refl, h8))

  load_literals-Follows :
      (fuel : ℕ) (literals : List Literal) (s : S) (t : T)
      → R s t
      → Follows (Same R) (load_literals i fuel literals s) (load_literals j fuel literals t)
  unfolding load_literals
  load_literals-Follows zero literals s t h = refl
  load_literals-Follows (suc fuel) literals s t h =
      Follows-bind_value R (Same R) _ _ _ _ (f.take_int s t h) λ n s1 t1 h1.
        Follows-test (Same R) (==ℤ n (pos 0)) _ _ _ _ ((literals, s1), refl, (refl, h1))
          (Follows-check R (Same R) (from_signed n) _ _
            λ l. load_literals-Follows fuel (literals ++ l ∷ []) s1 t1 h1)

  module _ (hash : List ℤ → ℕ) where
    load_clause-Follows :
        (fuel : ℕ) (st : Loading) (s : S) (t : T)
        → R s t
        → Follows (Same R) (load_clause i hash fuel st s) (load_clause j hash fuel st t)
    unfolding load_clause
    load_clause-Follows fuel st s t h =
        Follows-bind_value R (Same R) _ _ _ _ (load_literals-Follows fuel [] s t h) λ ls s1 t1 h1.
          Follows-check R (Same R) (add_model_clause hash ls st.model) _ _ λ m.
            Follows-bind R (Same R) _ _ _ _ (f.pass_line s1 t1 h1)
              λ s2 t2 h2. ((_, s2), refl, (refl, h2))

    load_line-Follows :
        (fuel : ℕ) (st : Loading) (s : S) (t : T)
        → R s t
        → Follows (Same R) (load_line i hash fuel st s) (load_line j hash fuel st t)
    unfolding load_line
    load_line-Follows fuel st s t h =
        Follows-bind_value R (Same R) _ _ _ _ (f.peek s t h) λ c s1 t1 h1.
          Follows-test (Same R) (c == 99) _ _ _ _
            (Follows-bind R (Same R) _ _ _ _ (f.pass_line s1 t1 h1)
              λ s2 t2 h2. ((st, s2), refl, (refl, h2)))
            (Follows-bind_value R (Same R) _ _ _ _ (f.peek s1 t1 h1) λ c' s2 t2 h2.
              Follows-test (Same R) (c' == 112) _ _ _ _ (load_problem-Follows st s2 t2 h2)
                (load_clause-Follows fuel st s2 t2 h2))

    load_lines-Follows :
        (fuel : ℕ) (st : Loading) (s : S) (t : T)
        → R s t
        → Follows ◌≡◌ (load_lines i hash fuel st s) (load_lines j hash fuel st t)
    unfolding load_lines
    load_lines-Follows zero st s t h = refl
    load_lines-Follows (suc fuel) st s t h =
        Follows-bind_value R ◌≡◌ _ _ _ _ (f.peek s t h) λ c s1 t1 h1.
          Follows-test ◌≡◌ (c == 0) _ _ _ _ (st, refl, refl)
            (Follows-bind_value R ◌≡◌ _ _ _ _ (load_line-Follows (suc fuel) st s1 t1 h1)
              λ st' s2 t2 h2.
                Follows-bind R ◌≡◌ _ _ _ _ (f.pass_spaces s2 t2 h2)
                  λ s3 t3 h3. load_lines-Follows fuel st' s3 t3 h3)

    -- An input that follows another one loads the same model, or fails as that does.
    pub load-Follows :
        (fuel : ℕ) (model : CnfModel) (s : S) (t : T)
        → R s t
        → load i hash fuel model s ≡ load j hash fuel model t
    unfolding load
    load-Follows fuel model s t h = Follows-eq _ _ (
        Follows-bind ◌≡◌ ◌≡◌ _ _ _ _ (load_lines-Follows fuel (begin_loading model) s t h)
          (λ a b e. (_, refl, rw e)))
