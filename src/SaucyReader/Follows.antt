-- ===== src/SaucyReader/Follows.antt =====
-- SaucyReader.cc: inputs that give the same answers give the same group.
use sat_symmetry.Prelude.{ℕ, zero, suc, ◌≡◌, refl, true, ◌==◌}
use sat_symmetry.Prelude.Int.{pos, ==ℤ}
use sat_symmetry.Literal.{from_signed}
use sat_symmetry.Permutation.{Permutation, new_permutation}
use sat_symmetry.Group.{Group, add_permutation}
use sat_symmetry.StreamBuffer.Input.{Input}
use sat_symmetry.StreamBuffer.Input.Follows.{
  Follows, Same, Follows-eq, Follows-bind, Follows-bind_value, Follows-check, Follows-run,
  Follows-test, IsFollower,
}
use sat_symmetry.SaucyReader.{
  graph_node_to_int, check_here, load_node, load_nodes, load_cycle, load_cycles, pass_separator,
  load_generator, load_generators, load,
}

module _ {S T : Type 0} (i : Input S) (j : Input T) (R : S → T → Type 0)
    (f : IsFollower i j R) where
  check_here-Follows :
      (c : ℕ) (s : S) (t : T) → R s t → Follows R (check_here i c s) (check_here j c t)
  unfolding check_here
  check_here-Follows c s t h =
      Follows-bind_value R R _ _ _ _ (f.peek s t h)
        λ c' s1 t1 h1. Follows-test R (c' == c) _ _ _ _ (s1, refl, h1) refl

  load_node-Follows :
      (n : ℕ) (p : Permutation) (s : S) (t : T)
      → R s t
      → Follows (Same R) (load_node i n p s) (load_node j n p t)
  unfolding load_node
  load_node-Follows n p s t h =
      Follows-bind_value R (Same R) _ _ _ _ (f.take_int s t h) λ v s1 t1 h1.
        Follows-test (Same R) (==ℤ (graph_node_to_int v n) (pos 0)) _ _ _ _
          ((p, s1), refl, (refl, h1))
          (Follows-check R (Same R) (from_signed (graph_node_to_int v n)) _ _
            λ l. ((_, s1), refl, (refl, h1)))

  load_nodes-Follows :
      (fuel n : ℕ) (p : Permutation) (s : S) (t : T)
      → R s t
      → Follows (Same R) (load_nodes i fuel n p s) (load_nodes j fuel n p t)
  unfolding load_nodes
  load_nodes-Follows zero n p s t h = refl
  load_nodes-Follows (suc fuel) n p s t h =
      Follows-bind_value R (Same R) _ _ _ _ (f.peek s t h) λ c s1 t1 h1.
        Follows-test (Same R) (c == 41) _ _ _ _ ((p, s1), refl, (refl, h1))
          (Follows-bind R (Same R) _ _ _ _ (check_here-Follows 44 s1 t1 h1) λ s2 t2 h2.
            Follows-bind R (Same R) _ _ _ _ (f.advance s2 t2 h2) λ s3 t3 h3.
              Follows-bind_value R (Same R) _ _ _ _ (load_node-Follows n p s3 t3 h3)
                λ p' s4 t4 h4. load_nodes-Follows fuel n p' s4 t4 h4)

  load_cycle-Follows :
      (fuel n : ℕ) (p : Permutation) (s : S) (t : T)
      → R s t
      → Follows (Same R) (load_cycle i fuel n p s) (load_cycle j fuel n p t)
  unfolding load_cycle
  load_cycle-Follows fuel n p s t h = Follows-bind R (Same R) _ _ _ _ (f.advance s t h) λ s1 t1 h1.
      Follows-bind_value R (Same R) _ _ _ _ (load_node-Follows n p s1 t1 h1) λ p1 s2 t2 h2.
        Follows-bind_value R (Same R) _ _ _ _ (load_nodes-Follows fuel n p1 s2 t2 h2) λ p2 s3 t3 h3.
          Follows-bind R (Same R) _ _ _ _ (check_here-Follows 41 s3 t3 h3) λ s4 t4 h4.
            Follows-bind R (Same R) _ _ _ _ (f.advance s4 t4 h4)
              λ s5 t5 h5. ((_, s5), refl, (refl, h5))

  load_cycles-Follows :
      (fuel n : ℕ) (p : Permutation) (s : S) (t : T)
      → R s t
      → Follows (Same R) (load_cycles i fuel n p s) (load_cycles j fuel n p t)
  unfolding load_cycles
  load_cycles-Follows zero n p s t h = refl
  load_cycles-Follows (suc fuel) n p s t h =
      Follows-bind_value R (Same R) _ _ _ _ (f.peek s t h) λ c s1 t1 h1.
        Follows-test (Same R) (c == 40) _ _ _ _
          (Follows-bind_value R (Same R) _ _ _ _ (load_cycle-Follows (suc fuel) n p s1 t1 h1)
            λ p' s2 t2 h2. load_cycles-Follows fuel n p' s2 t2 h2)
          ((p, s1), refl, (refl, h1))

  pass_separator-Follows :
      (s : S) (t : T) → R s t → Follows R (pass_separator i s) (pass_separator j t)
  unfolding pass_separator
  pass_separator-Follows s t h = Follows-bind_value R R _ _ _ _ (f.peek s t h) λ c s1 t1 h1.
      Follows-test R (c == 44) _ _ _ _
        (Follows-bind R R _ _ _ _ (f.advance s1 t1 h1) λ s2 t2 h2.
          Follows-bind R R _ _ _ _ (check_here-Follows 10 s2 t2 h2) λ s3 t3 h3. f.advance s3 t3 h3)
        (s1, refl, h1)

  load_generator-Follows :
      (fuel n : ℕ) (g : Group) (s : S) (t : T)
      → R s t
      → Follows (Same R) (load_generator i fuel n g s) (load_generator j fuel n g t)
  unfolding load_generator
  load_generator-Follows fuel n g s t h =
      Follows-bind R (Same R) _ _ _ _ (check_here-Follows 40 s t h) λ s1 t1 h1.
        Follows-bind_value R (Same R) _ _ _ _
          (load_cycles-Follows fuel n (new_permutation n) s1 t1 h1)
          λ p s2 t2 h2. Follows-run R (Same R) (add_permutation p g) _ _ λ g'.
            Follows-bind R (Same R) _ _ _ _ (pass_separator-Follows s2 t2 h2)
              λ s3 t3 h3. ((g', s3), refl, (refl, h3))

  load_generators-Follows :
      (fuel n : ℕ) (g : Group) (s : S) (t : T)
      → R s t
      → Follows (Same R) (load_generators i fuel n g s) (load_generators j fuel n g t)
  unfolding load_generators
  load_generators-Follows zero n g s t h = refl
  load_generators-Follows (suc fuel) n g s t h =
      Follows-bind_value R (Same R) _ _ _ _ (f.peek s t h) λ c s1 t1 h1.
        Follows-test (Same R) (c == 10) _ _ _ _ ((g, s1), refl, (refl, h1))
          (Follows-bind_value R (Same R) _ _ _ _ (load_generator-Follows (suc fuel) n g s1 t1 h1)
            λ g' s2 t2 h2. load_generators-Follows fuel n g' s2 t2 h2)

  -- An input that follows another one loads the same group, or fails as that does.
  pub load-Follows :
      (fuel n : ℕ) (g : Group) (s : S) (t : T) → R s t → load i fuel n g s ≡ load j fuel n g t
  unfolding load
  load-Follows fuel n g s t h = Follows-eq _ _ (
      Follows-bind R ◌≡◌ _ _ _ _ (check_here-Follows 91 s t h) λ s1 t1 h1.
        Follows-bind R ◌≡◌ _ _ _ _ (f.advance s1 t1 h1) λ s2 t2 h2.
          Follows-bind R ◌≡◌ _ _ _ _ (check_here-Follows 10 s2 t2 h2) λ s3 t3 h3.
            Follows-bind R ◌≡◌ _ _ _ _ (f.advance s3 t3 h3) λ s4 t4 h4.
              Follows-bind_value R ◌≡◌ _ _ _ _ (f.peek s4 t4 h4) λ c s5 t5 h5.
                Follows-test ◌≡◌ (c == 93) _ _ _ _ ((true, g), refl, refl)
                  (Follows-bind_value R ◌≡◌ _ _ _ _ (load_generators-Follows fuel n g s5 t5 h5)
                    λ g' s6 t6 h6. Follows-bind R ◌≡◌ _ _ _ _ (f.advance s6 t6 h6) λ s7 t7 h7.
                      Follows-bind R ◌≡◌ _ _ _ _ (check_here-Follows 93 s7 t7 h7)
                        λ s8 t8 h8. ((true, g'), refl, refl)))
