-- ===== src/SaucyReader.antt =====
-- include/cosy/SaucyReader.h and src/SaucyReader.cc: a group from a file of generators, each a
-- list of cycles of nodes of the graph. The file is an Input; the loops take a fuel.
-- `check_failed` is a failed CHECK; `stuck` is fuel that has run out, a read outside of the buffer,
-- or an index outside of the watchers of the group. `num_vars` is below 2 ^ 31.
pub mod Nodes
pub mod Ends
pub mod Follows
pub mod Printed
pub mod Cycles
pub mod RoundTrip
pub mod File
pub mod Tests
use sat_symmetry.Prelude.{
  ℕ, zero, suc, ◌+◌, ◌-◌, ◌*◌, Bool, true, false, Option, List, ◌==◌, leb, if◌then◌else◌,
}
use sat_symmetry.Prelude.Int.{ℤ, pos, negsuc, ==ℤ}
use sat_symmetry.Prelude.Outcome.{Outcome, done, check_failed, stuck, ◌>>=◌, run, check}
use sat_symmetry.Literal.{from_signed}
use sat_symmetry.Permutation.{
  Permutation, new_permutation, add_to_current_cycle, close_current_cycle,
}
use sat_symmetry.Group.{Group, add_permutation}
use sat_symmetry.StreamBuffer.{open_stream, with_sign}
use sat_symmetry.StreamBuffer.Input.{Input, stream_input}

-- `graphNodeToInt`: 0 stands for the node of a clause.
unfoldable pub graph_node_to_int : ℤ → ℕ → ℤ
graph_node_to_int (negsuc k) num_vars = negsuc k
graph_node_to_int (pos node) num_vars =
    if leb node num_vars
    then pos node
    else if leb node (2 * num_vars)
    then with_sign true (node - num_vars)
    else pos 0

module _ {S : Type 0} (input : Input S) where
  -- `CHECK_EQ(*in, c);`
  unfoldable pub check_here : ℕ → S → Outcome S
  check_here expected s = do
    (c, s1) ← run (input.peek s)
    elim (c == expected) [ true ↦ done s1 | false ↦ check_failed ]

  -- A node is read; the literal that it stands for, if any, goes to the cycle.
  unfoldable pub load_node : ℕ → Permutation → S → Outcome (Permutation × S)
  unfolding graph_node_to_int
  load_node num_vars generator s = do
    (parsed, s1) ← run (input.take_int s)
    let cnf_int = graph_node_to_int parsed num_vars
    elim (==ℤ cnf_int (pos 0)) [
      | true ↦ done (generator, s1)
      | false ↦ check (from_signed cnf_int) >>= λ l. done (add_to_current_cycle l generator, s1)
    ]

  -- `while (*in != ')')`
  unfoldable pub load_nodes : ℕ → ℕ → Permutation → S → Outcome (Permutation × S)
  unfolding check_here load_node
  load_nodes zero num_vars generator s = stuck
  load_nodes (suc fuel) num_vars generator s = do
    (c, s1) ← run (input.peek s)
    elim (c == 41) [
      | true ↦ done (generator, s1)
      | false ↦ check_here 44 s1 >>= λ s2. run (input.advance s2) >>= λ s3.
          load_node num_vars generator s3 >>= λ (generator', s4).
          load_nodes fuel num_vars generator' s4
    ]

  -- The body of `while (*in == '(')`.
  unfoldable pub load_cycle : ℕ → ℕ → Permutation → S → Outcome (Permutation × S)
  unfolding load_nodes
  load_cycle fuel num_vars generator s = do
    s1 ← run (input.advance s)
    (first, s2) ← load_node num_vars generator s1
    (all, s3) ← load_nodes fuel num_vars first s2
    s4 ← check_here 41 s3
    s5 ← run (input.advance s4)
    done (close_current_cycle all, s5)

  unfoldable pub load_cycles : ℕ → ℕ → Permutation → S → Outcome (Permutation × S)
  unfolding load_cycle
  load_cycles zero num_vars generator s = stuck
  load_cycles (suc fuel) num_vars generator s = do
    (c, s1) ← run (input.peek s)
    elim (c == 40) [
      | true ↦ load_cycle (suc fuel) num_vars generator s1 >>= λ (generator', s2).
          load_cycles fuel num_vars generator' s2
      | false ↦ done (generator, s1)
    ]

  -- `if (*in == ',') { ++in; CHECK_EQ(*in, '\n'); ++in; }`
  unfoldable pub pass_separator : S → Outcome S
  unfolding check_here
  pass_separator s = do
    (c, s1) ← run (input.peek s)
    elim (c == 44) [
      | true ↦ run (input.advance s1) >>= λ s2. check_here 10 s2 >>= λ s3. run (input.advance s3)
      | false ↦ done s1
    ]

  -- The body of `while (*in != '\n')`.
  unfoldable pub load_generator : ℕ → ℕ → Group → S → Outcome (Group × S)
  unfolding load_cycles pass_separator
  load_generator fuel num_vars g s = do
    s1 ← check_here 40 s
    (generator, s2) ← load_cycles fuel num_vars (new_permutation num_vars) s1
    g' ← run (add_permutation generator g)
    s3 ← pass_separator s2
    done (g', s3)

  unfoldable pub load_generators : ℕ → ℕ → Group → S → Outcome (Group × S)
  unfolding load_generator
  load_generators zero num_vars g s = stuck
  load_generators (suc fuel) num_vars g s = do
    (c, s1) ← run (input.peek s)
    elim (c == 10) [
      | true ↦ done (g, s1)
      | false ↦ load_generator (suc fuel) num_vars g s1 >>= λ (g', s2).
          load_generators fuel num_vars g' s2
    ]

  -- The result is what `load` returns, and the group.
  unfoldable pub load : ℕ → ℕ → Group → S → Outcome (Bool × Group)
  unfolding load_generators
  load fuel num_vars g s = do
    s1 ← check_here 91 s
    s2 ← run (input.advance s1)
    s3 ← check_here 10 s2
    s4 ← run (input.advance s3)
    (c, s5) ← run (input.peek s4)
    elim (c == 93) [
      | true ↦ done (true, g)
      | false ↦ load_generators fuel num_vars g s5 >>= λ (g', s6).
          run (input.advance s6) >>= λ s7. check_here 93 s7 >>= λ s8. done (true, g')
    ]

-- `load` of a file: the stream is opened, and read with loops of a fuel.
unfoldable pub load_file :
    {F : Type 0}
    → (F → ℕ → Option (List ℕ) × F)
    → (ℕ → Bool)
    → ℕ
    → List ℕ
    → F
    → ℕ
    → Group
    → Outcome (Bool × Group)
unfolding load
load_file gzread is_space fuel buffer file num_vars g = do
  s ← run (open_stream gzread is_space buffer file)
  load (stream_input gzread is_space fuel) fuel num_vars g s
