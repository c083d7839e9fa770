-- ===== src/SaucyReader/Cycles.antt =====
-- SaucyReader.cc: the printed cycles of a generator are read back.
use sat_symmetry.Prelude.{
  ℕ, zero, suc, ◌+◌, ◌<◌, ◌≡◌, ◌≢◌, refl, ap, ◌∙◌, arith, Bool, true, false, List, [], ◌∷◌, ◌++◌,
  ◌==◌, length, length-append, All,
}
use sat_symmetry.Prelude.Int.{ℤ, pos, ==ℤ}
use sat_symmetry.Prelude.Outcome.{Outcome, done, ◌>>=◌, check}
use sat_symmetry.Literal.{Literal, variable, from_signed, signed_value}
use sat_symmetry.Literal.Laws.{
  from_signed-signed_value, signed_value-ne-zero, signed_value_lem, variable_lem, is_positive_lem,
}
use sat_symmetry.Permutation.{Permutation, add_to_current_cycle, add_all}
use sat_symmetry.Permutation.Cycles.{add_cycle, add_cycles}
use sat_symmetry.CnfGraph.{literal2node}
use sat_symmetry.StreamBuffer.Characters.{front, int_of}
use sat_symmetry.StreamBuffer.Decimal.{IsBlank, int_of-decimal}
use sat_symmetry.StreamBuffer.Input.{list_input}
use sat_symmetry.SaucyReader.{
  graph_node_to_int, check_here, load_node, load_nodes, load_cycle, load_cycles,
}
use sat_symmetry.SaucyReader.Printed.{
  Generator, node_text, nodes_text, cycle_text, generator_text, IsCycle,
}

-- The number of a node stands for its literal.
graph_node_to_int-literal2node :
    (l : Literal) (n : ℕ)
    → variable l < n
    → graph_node_to_int (pos (literal2node l n + 1)) n ≡ signed_value l
unfolding graph_node_to_int literal2node
graph_node_to_int-literal2node l n lt =
    ground (arith, signed_value_lem l, variable_lem l, is_positive_lem l)

-- What follows a node is no digit.
nodes_text-front :
    (n : ℕ) (ls : List Literal) (rest : List ℕ)
    → (c : ℕ) × (cs : List ℕ) × (nodes_text n ls rest ≡ c ∷ cs) × (c < 48)
nodes_text-front n [] rest = (41, rest, refl, omega arith)
nodes_text-front n (l ∷ ls) rest = (44, node_text n l ++ nodes_text n ls rest, refl, omega arith)

module _ (is_space : ℕ → Bool) (blank : IsBlank is_space) (n : ℕ) where
  load_node-text :
      (l : Literal) (ls : List Literal) (p : Permutation) (rest : List ℕ)
      → variable l < n
      → load_node (list_input is_space) n p (node_text n l ++ nodes_text n ls rest)
        ≡ done (add_to_current_cycle l p, nodes_text n ls rest)
  unfolding load_node
  load_node-text l ls p rest lt =
      let (c, cs, e, low) = nodes_text-front n ls rest in
      let read : int_of is_space (node_text n l ++ nodes_text n ls rest)
          ≡ (pos (literal2node l n + 1), nodes_text n ls rest) =
        rw e (int_of-decimal is_space blank (literal2node l n + 1) c cs low) in
      ap
        (λ (r : ℤ × List ℕ).
          elim (==ℤ (graph_node_to_int r.0 n) (pos 0)) as (λ _. Outcome (Permutation × List ℕ)) [
            | true ↦ done (p, r.1)
            | false ↦ check (from_signed (graph_node_to_int r.0 n)) >>= λ l'.
                done (add_to_current_cycle l' p, r.1)
          ])
        read
      ∙ rw (
        graph_node_to_int-literal2node l n lt,
        signed_value-ne-zero l,
        graph_node_to_int-literal2node l n lt,
        from_signed-signed_value l,
      )

  load_nodes-text :
      (fuel : ℕ) (ls : List Literal) (p : Permutation) (rest : List ℕ)
      → length ls < fuel
      → All (λ l. variable l < n) ls
      → load_nodes (list_input is_space) fuel n p (nodes_text n ls rest)
        ≡ done (add_all ls p, 41 ∷ rest)
  unfolding load_nodes add_all check_here
  load_nodes-text zero ls p rest lt h = absurd (omega arith)
  load_nodes-text (suc fuel) [] p rest lt h = refl
  load_nodes-text (suc fuel) (l ∷ ls) p rest lt h =
      rw (load_node-text l ls p rest h.0)
        (load_nodes-text fuel ls (add_to_current_cycle l p) rest (omega arith) h.1)

  load_cycle-text :
      (fuel : ℕ) (l : Literal) (ls : List Literal) (p : Permutation) (rest : List ℕ)
      → length ls < fuel
      → variable l < n
      → All (λ l. variable l < n) ls
      → load_cycle (list_input is_space) fuel n p (cycle_text n (l ∷ ls) rest)
        ≡ done (add_cycle (l ∷ ls) p, rest)
  unfolding load_cycle add_all check_here
  load_cycle-text fuel l ls p rest lt first others = rw (
    load_node-text l ls p rest first,
    load_nodes-text fuel ls (add_to_current_cycle l p) rest lt others,
  )

  pub length-nodes_text :
      (ls : List Literal) (rest : List ℕ) → length ls + length rest < length (nodes_text n ls rest)
  length-nodes_text [] rest = omega arith
  length-nodes_text (l ∷ ls) rest =
      omega (arith, length-nodes_text ls rest, length-append (node_text n l) (nodes_text n ls rest))

  -- A loop that ends, and one that goes on with a cycle.
  load_cycles-end :
      (fuel : ℕ) (p : Permutation) (cs : List ℕ)
      → front cs ≢ 40
      → load_cycles (list_input is_space) (suc fuel) n p cs ≡ done (p, cs)
  unfolding load_cycles
  load_cycles-end fuel p cs ne =
      let stop : (front cs == 40) ≡ false = ground arith in rw (load_cycles, ◌>>=◌, stop)

  load_cycles-cycle :
      (fuel : ℕ) (p : Permutation) (cs : List ℕ)
      → load_cycles (list_input is_space) (suc fuel) n p (40 ∷ cs) ≡ (
          load_cycle (list_input is_space) (suc fuel) n p (40 ∷ cs) >>= λ (p', rest).
          load_cycles (list_input is_space) fuel n p' rest)
  unfolding load_cycles
  load_cycles-cycle fuel p cs = refl

  pub load_cycles-text :
      (fuel : ℕ) (g : Generator) (p : Permutation) (rest : List ℕ)
      → length (generator_text n g rest) < fuel
      → front rest ≢ 40
      → All (IsCycle n) g
      → load_cycles (list_input is_space) fuel n p (generator_text n g rest)
        ≡ done (add_cycles g p, rest)
  load_cycles-text zero g p rest lt ne h = absurd (omega arith)
  load_cycles-text (suc fuel) [] p rest lt ne h = load_cycles-end fuel p rest ne
  load_cycles-text (suc fuel) ([] ∷ cs) p rest lt ne h = absurd (omega (arith, h.0.0))
  load_cycles-text (suc fuel) ((l ∷ ls) ∷ cs) p rest lt ne h =
      let others = generator_text n cs rest in
      let long = length-nodes_text ls others in
      let whole = length-append (node_text n l) (nodes_text n ls others) in
      load_cycles-cycle fuel p (node_text n l ++ nodes_text n ls others)
      ∙ rw (load_cycle-text (suc fuel) l ls p others (omega (arith, long, whole)) h.0.1.0 h.0.1.1)
          (load_cycles-text fuel cs (add_cycle (l ∷ ls) p) rest (omega (arith, long, whole)) ne h.1)
