-- ===== src/SaucyReader/Ends.antt =====
-- SaucyReader.cc: each round of a loop passes a character, so the loops end within their fuel; and
-- what is read can be added to the group.
use sat_symmetry.Prelude.{
  ℕ, zero, suc, ◌≤◌, ◌<◌, ◌≡◌, ◌≢◌, refl, ap, arith, Bool, List, [], ◌∷◌, ◌==◌, length,
}
use sat_symmetry.Prelude.Int.{pos, ==ℤ}
use sat_symmetry.Prelude.Outcome.{
  Ends, ended, failed, Ends-bind, Ends-check, Ends-implied, Ends-test,
}
use sat_symmetry.Literal.{from_signed}
use sat_symmetry.Permutation.{Permutation, new_permutation}
use sat_symmetry.Group.{Group}
use sat_symmetry.StreamBuffer.Characters.{front, rest_of, int_of}
use sat_symmetry.StreamBuffer.Reading.{length-rest_of}
use sat_symmetry.StreamBuffer.Input.{list_input}
use sat_symmetry.StreamBuffer.Input.Stream.{length-int_of}
use sat_symmetry.SaucyReader.{
  graph_node_to_int, check_here, load_node, load_nodes, load_cycle, load_cycles, pass_separator,
  load_generator, load_generators, load,
}
use sat_symmetry.SaucyReader.Nodes.{
  IsRead, from_signed-IsNamed, new_permutation-IsRead, add-IsRead, close-IsRead, add_read_total,
}

-- To pass a character that is there makes the list shorter.
rest_of-shorter : (cs : List ℕ) → front cs ≢ 0 → length (rest_of cs) < length cs
rest_of-shorter [] ne = absurd (ne refl)
rest_of-shorter (c ∷ cs) ne = omega arith

module _ (is_space : ℕ → Bool) (n : ℕ) where
  -- A permutation that is read, and no more characters than before.
  abbrev ReadWithin : ℕ → Permutation × List ℕ → Type 0
  ReadWithin k r = IsRead n r.0 × (length r.1 ≤ k)

  check_here-Ends :
      (c : ℕ) (cs : List ℕ)
      → Ends (λ cs'. (cs' ≡ cs) × (front cs ≡ c)) (check_here (list_input is_space) c cs)
  unfolding check_here
  check_here-Ends c cs = Ends-test (front cs == c) (λ e. ended (refl, ground arith)) (λ e. failed)

  load_node-Ends :
      (p : Permutation) (cs : List ℕ)
      → IsRead n p
      → Ends (ReadWithin (length cs)) (load_node (list_input is_space) n p cs)
  unfolding load_node
  load_node-Ends p cs h =
      let parsed = (int_of is_space cs).0 in
      let less = length-int_of is_space cs in
      Ends-test (==ℤ (graph_node_to_int parsed n) (pos 0)) (λ _. ended (h, less))
        λ _.
          Ends-check (from_signed (graph_node_to_int parsed n))
            λ l found. ended (add-IsRead n l p (from_signed-IsNamed n parsed l found) h, less)

  load_nodes-Ends :
      (fuel : ℕ) (p : Permutation) (cs : List ℕ)
      → length cs < fuel
      → IsRead n p
      → Ends (ReadWithin (length cs)) (load_nodes (list_input is_space) fuel n p cs)
  unfolding load_nodes
  load_nodes-Ends zero p cs lt h = absurd (omega arith)
  load_nodes-Ends (suc fuel) p cs lt h =
      Ends-test (front cs == 41) (λ _. ended (h, omega arith))
        λ _. Ends-bind (check_here-Ends 44 cs) λ cs1 same.
          let less = rest_of-shorter cs (omega (arith, same.1)) in
          let passed : length (rest_of cs1) ≡ length (rest_of cs) =
            ap (λ ds. length (rest_of ds)) same.0 in
          Ends-bind (load_node-Ends p (rest_of cs1) h) λ r step.
            Ends-implied (load_nodes-Ends fuel r.0 r.1 (omega (arith, less, passed, step.1)) step.0)
              λ r' later. (later.0, omega (arith, less, passed, step.1, later.1))

  load_cycle-Ends :
      (fuel : ℕ) (p : Permutation) (cs : List ℕ)
      → length cs ≤ fuel
      → front cs ≢ 0
      → IsRead n p
      → Ends
          (λ (r : Permutation × List ℕ). IsRead n r.0 × (length r.1 < length cs))
          (load_cycle (list_input is_space) fuel n p cs)
  unfolding load_cycle
  load_cycle-Ends fuel p cs le ne h =
      let less = rest_of-shorter cs ne in
      Ends-bind (load_node-Ends p (rest_of cs) h) λ r first.
        Ends-bind (load_nodes-Ends fuel r.0 r.1 (omega (arith, less, first.1)) first.0) λ r' all.
          Ends-bind (check_here-Ends 41 r'.1) λ cs1 same.
            let passed : length (rest_of cs1) ≡ length (rest_of r'.1) =
              ap (λ ds. length (rest_of ds)) same.0 in
            ended (
              close-IsRead n r'.0 all.0,
              omega (arith, less, first.1, all.1, passed, length-rest_of r'.1),
            )

  load_cycles-Ends :
      (fuel : ℕ) (p : Permutation) (cs : List ℕ)
      → length cs < fuel
      → IsRead n p
      → Ends
          (λ (r : Permutation × List ℕ).
            ReadWithin (length cs) r × (front cs ≡ 40 → length r.1 < length cs))
          (load_cycles (list_input is_space) fuel n p cs)
  unfolding load_cycles
  load_cycles-Ends zero p cs lt h = absurd (omega arith)
  load_cycles-Ends (suc fuel) p cs lt h =
      Ends-test (front cs == 40)
        (λ more.
          Ends-bind (load_cycle-Ends (suc fuel) p cs (omega arith) (ground arith) h) λ r step.
            Ends-implied (load_cycles-Ends fuel r.0 r.1 (omega (arith, step.1)) step.0) λ r' later.
              (
                (later.0.0, omega (arith, step.1, later.0.1)),
                λ _. omega (arith, step.1, later.0.1),
              ))
        (λ stop. ended ((h, omega arith), λ e. absurd (ground arith)))

  pass_separator-Ends :
      (cs : List ℕ) → Ends (λ cs'. length cs' ≤ length cs) (pass_separator (list_input is_space) cs)
  unfolding pass_separator
  pass_separator-Ends cs =
      Ends-test (front cs == 44)
        (λ _. Ends-bind (check_here-Ends 10 (rest_of cs)) λ cs1 same. ended (
          omega (
            arith,
            ap (λ ds. length (rest_of ds)) same.0,
            length-rest_of cs,
            length-rest_of (rest_of cs),
          )))
        (λ _. ended (omega arith))

  load_generator-Ends :
      (fuel : ℕ) (g : Group) (cs : List ℕ)
      → length cs < fuel
      → Ends
          (λ (r : Group × List ℕ). length r.1 < length cs)
          (load_generator (list_input is_space) fuel n g cs)
  unfolding load_generator
  load_generator-Ends fuel g cs lt = Ends-bind (check_here-Ends 40 cs) λ cs1 same.
      let size : length cs1 ≡ length cs = ap length same.0 in
      let begins : front cs1 ≡ 40 = rw (same.0) (same.1) in
      Ends-bind
        (load_cycles-Ends fuel (new_permutation n) cs1 (omega (arith, size))
          (new_permutation-IsRead n))
        λ r read.
          let (g', added) = add_read_total n r.0 g read.0.0 in
          rw added (
            Ends-bind (pass_separator-Ends r.1)
              λ cs2 less. ended (omega (arith, less, size, read.1 begins)))

  load_generators-Ends :
      (fuel : ℕ) (g : Group) (cs : List ℕ)
      → length cs < fuel
      → Ends (λ r. Unit {0}) (load_generators (list_input is_space) fuel n g cs)
  unfolding load_generators
  load_generators-Ends zero g cs lt = absurd (omega arith)
  load_generators-Ends (suc fuel) g cs lt =
      Ends-test (front cs == 10) (λ _. ended tt)
        λ _.
          Ends-bind (load_generator-Ends (suc fuel) g cs lt)
            λ r less. load_generators-Ends fuel r.0 r.1 (omega (arith, less))

  -- With a fuel above the number of characters load gives a result or fails at a CHECK.
  pub load-Ends :
      (fuel : ℕ) (g : Group) (cs : List ℕ)
      → length cs < fuel
      → Ends (λ r. Unit {0}) (load (list_input is_space) fuel n g cs)
  unfolding load
  load-Ends fuel g cs lt = Ends-bind (check_here-Ends 91 cs) λ cs1 same.
      Ends-bind (check_here-Ends 10 (rest_of cs1)) λ cs2 same2.
        let size : length (rest_of cs2) ≤ length cs =
          omega
            (arith, ap length same.0, ap length same2.0, length-rest_of cs1, length-rest_of cs2) in
        Ends-test (front (rest_of cs2) == 93) (λ _. ended tt)
          λ _.
            Ends-bind (load_generators-Ends fuel g (rest_of cs2) (omega (arith, size)))
              λ r _. Ends-bind (check_here-Ends 93 (rest_of r.1)) λ cs3 _. ended tt
