-- ===== src/SaucyReader/RoundTrip.antt =====
-- SaucyReader.cc: printed generators are read back.
use sat_symmetry.Prelude.{
  ℕ, zero, suc, ◌+◌, ◌≤◌, ◌<◌, ◌≡◌, ◌≢◌, refl, ◌∙◌, arith, Bool, true, false, inl, inr, List, [],
  ◌∷◌, ◌==◌, length, length-append, All, Option-cases,
}
use sat_symmetry.Prelude.Outcome.{done, ◌>>=◌, run}
use sat_symmetry.Permutation.{new_permutation}
use sat_symmetry.Permutation.Cycles.{add_cycles}
use sat_symmetry.Group.{Group, add_permutation}
use sat_symmetry.StreamBuffer.Characters.{front, rest_of}
use sat_symmetry.StreamBuffer.Decimal.{IsBlank}
use sat_symmetry.StreamBuffer.Input.{list_input}
use sat_symmetry.SaucyReader.{check_here, pass_separator, load_generator, load_generators, load}
use sat_symmetry.SaucyReader.Printed.{
  Cycle, Generator, node_text, nodes_text, cycle_text, generator_text, generators_text, file_text,
  IsGenerator, add_generators,
}
use sat_symmetry.SaucyReader.Cycles.{length-nodes_text, load_cycles-text}

module _ (is_space : ℕ → Bool) (blank : IsBlank is_space) (n : ℕ) where
  -- What is left behind the separator.
  abbrev generators_left : List Generator → List ℕ
  generators_left [] = 10 ∷ 93 ∷ []
  generators_left (g ∷ gs) = generator_text n g (generators_text n gs)

  pass_separator-text :
      (gs : List Generator)
      → pass_separator (list_input is_space) (generators_text n gs) ≡ done (generators_left gs)
  unfolding pass_separator check_here
  pass_separator-text [] = refl
  pass_separator-text (g ∷ gs) = refl

  generators_text-front : (gs : List Generator) → front (generators_text n gs) ≢ 40
  generators_text-front [] = omega arith
  generators_text-front (g ∷ gs) = omega arith

  generator_text-front :
      (g : Generator) (rest : List ℕ) → IsGenerator n g → front (generator_text n g rest) ≡ 40
  generator_text-front [] rest h = absurd (h.0 refl)
  generator_text-front ([] ∷ cs) rest h = absurd (omega (arith, h.1.0.0))
  generator_text-front ((l ∷ ls) ∷ cs) rest h = refl

  load_generator-text :
      (fuel : ℕ) (g : Generator) (gs : List Generator) (group : Group)
      → length (generators_left (g ∷ gs)) < fuel
      → IsGenerator n g
      → load_generator (list_input is_space) fuel n group (generators_left (g ∷ gs)) ≡ (
          run (add_permutation (add_cycles g (new_permutation n)) group) >>= λ group'.
          done (group', generators_left gs))
  unfolding load_generator check_here
  load_generator-text fuel g gs group lt h = rw (
    generator_text-front g (generators_text n gs) h,
    load_cycles-text is_space blank n fuel g (new_permutation n) (generators_text n gs) lt
        (generators_text-front gs) h.1,
    pass_separator-text gs,
  )

  load_generators-generator :
      (fuel : ℕ) (group : Group) (cs : List ℕ)
      → front cs ≡ 40
      → load_generators (list_input is_space) (suc fuel) n group cs ≡ (
          load_generator (list_input is_space) (suc fuel) n group cs >>= λ (group', rest).
          load_generators (list_input is_space) fuel n group' rest)
  unfolding load_generators
  load_generators-generator fuel group cs e =
      let more : (front cs == 10) ≡ false = ground (arith, e) in rw (load_generators, ◌>>=◌, more)

  load_generators-end :
      (fuel : ℕ) (group : Group) (cs : List ℕ)
      → load_generators (list_input is_space) (suc fuel) n group (10 ∷ cs) ≡ done (group, 10 ∷ cs)
  unfolding load_generators
  load_generators-end fuel group cs = refl

  length-cycle_text :
      (c : Cycle) (rest : List ℕ) → length c + length rest ≤ length (cycle_text n c rest)
  length-cycle_text [] rest = omega arith
  length-cycle_text (l ∷ ls) rest = omega (
    arith,
    length-nodes_text is_space blank n ls rest,
    length-append (node_text n l) (nodes_text n ls rest),
  )

  length-generator_text :
      (g : Generator) (rest : List ℕ) → length rest ≤ length (generator_text n g rest)
  length-generator_text [] rest = omega arith
  length-generator_text (c ∷ cs) rest =
      omega (arith, length-cycle_text c (generator_text n cs rest), length-generator_text cs rest)

  length-generators_left :
      (g : Generator) (gs : List Generator)
      → IsGenerator n g
      → length (generators_left gs) < length (generators_left (g ∷ gs))
  length-generators_left [] gs h = absurd (h.0 refl)
  length-generators_left ([] ∷ cs) gs h = absurd (omega (arith, h.1.0.0))
  length-generators_left ((l ∷ ls) ∷ cs) gs h = omega (
    arith,
    length-cycle_text (l ∷ ls) (generator_text n cs (generators_text n gs)),
    length-generator_text cs (generators_text n gs),
    left_behind gs,
  )
    where
      left_behind :
          (gs : List Generator) → length (generators_left gs) ≤ length (generators_text n gs)
      left_behind [] = omega arith
      left_behind (g ∷ gs) = omega arith

  load_generators-text :
      (fuel : ℕ) (gs : List Generator) (group : Group)
      → length (generators_left gs) < fuel
      → All (IsGenerator n) gs
      → load_generators (list_input is_space) fuel n group (generators_left gs)
        ≡ (run (add_generators n gs group) >>= λ group'. done (group', 10 ∷ 93 ∷ []))
  load_generators-text zero gs group lt h = absurd (omega arith)
  load_generators-text (suc fuel) [] group lt h = load_generators-end fuel group (93 ∷ [])
  load_generators-text (suc fuel) (g ∷ gs) group lt h =
      load_generators-generator fuel group (generators_left (g ∷ gs))
        (generator_text-front g (generators_text n gs) h.0)
      ∙ rw (load_generator-text (suc fuel) g gs group lt h.0)
          (elim (Option-cases (add_permutation (add_cycles g (new_permutation n)) group)) [
            | inl outside ↦ rw outside
            | inr (group', added) ↦ rw added (
                load_generators-text fuel gs group'
                  (omega (arith, lt, length-generators_left g gs h.0)) h.1)
          ])

  load-left :
      (fuel : ℕ) (group : Group) (cs : List ℕ)
      → front cs ≡ 40
      → load (list_input is_space) fuel n group (91 ∷ 10 ∷ cs) ≡ (
          load_generators (list_input is_space) fuel n group cs >>= λ (group', rest).
          check_here (list_input is_space) 93 (rest_of rest) >>= λ rest'. done (true, group'))
  unfolding load check_here
  load-left fuel group cs e = rw e

  -- With a fuel above its length the text of the generators gives the group of the generators.
  pub load-file_text :
      (fuel : ℕ) (gs : List Generator) (group : Group)
      → length (file_text n gs) < fuel
      → All (IsGenerator n) gs
      → load (list_input is_space) fuel n group (file_text n gs)
        ≡ (run (add_generators n gs group) >>= λ group'. done (true, group'))
  unfolding check_here
  load-file_text fuel [] group lt h = unfold load in refl
  load-file_text fuel (g ∷ gs) group lt h =
      load-left fuel group (generators_left (g ∷ gs))
        (generator_text-front g (generators_text n gs) h.0)
      ∙ rw (load_generators-text fuel (g ∷ gs) group (omega arith) h)
          (elim (Option-cases (add_generators n (g ∷ gs) group)) [
            | inl outside ↦ rw outside
            | inr (group', added) ↦ rw added
          ])
