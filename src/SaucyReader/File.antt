-- ===== src/SaucyReader/File.antt =====
-- SaucyReader.cc: load of a file, over the buffer.
use mathlib.Core.Path.{subst}
use sat_symmetry.Prelude.{
  ℕ, ◌*◌, ◌^◌, ◌<◌, ◌≡◌, ◌≢◌, ◌∙◌, refl, Bool, true, Option, some, List, [], ◌∷◌, length, All,
}
use sat_symmetry.Prelude.Outcome.{done, stuck, Ends-ne-stuck, ◌>>=◌, run}
use sat_symmetry.Literal.{Literal, variable}
use sat_symmetry.Permutation.{new_permutation}
use sat_symmetry.Permutation.Cycles.{add_cycles}
use sat_symmetry.Group.{Group}
use sat_symmetry.Group.Total.{All-add_cycles, size-add_cycles, add_permutation_total}
use sat_symmetry.StreamBuffer.{buffer_size}
use sat_symmetry.StreamBuffer.Laws.{IsFile}
use sat_symmetry.StreamBuffer.Decimal.{IsBlank}
use sat_symmetry.StreamBuffer.Input.{stream_input, list_input}
use sat_symmetry.StreamBuffer.Input.Stream.{Left, stream-IsFollower, open_stream-Left}
use sat_symmetry.SaucyReader.{load, load_file}
use sat_symmetry.SaucyReader.Ends.{load-Ends}
use sat_symmetry.SaucyReader.Follows.{load-Follows}
use sat_symmetry.SaucyReader.Printed.{Generator, IsCycle, IsGenerator, file_text, add_generators}
use sat_symmetry.SaucyReader.RoundTrip.{load-file_text}

new_cycles : (n : ℕ) → (new_permutation n).cycles ≡ []
unfolding new_permutation
new_cycles n = refl

new_size : (n : ℕ) → (new_permutation n).size ≡ n
unfolding new_permutation
new_size n = refl

cycles_in_range :
    (n : ℕ) (g : Generator) → All (IsCycle n) g → All (All (λ (l : Literal). variable l < n)) g
cycles_in_range n [] h = tt
cycles_in_range n (c ∷ cs) h = (h.0.1, cycles_in_range n cs h.1)

-- Generators in range are all added.
add_generators_total :
    (n : ℕ) (gs : List Generator) (group : Group)
    → All (IsGenerator n) gs
    → (group' : Group) × (add_generators n gs group ≡ some group')
add_generators_total n [] group h = (group, refl)
add_generators_total n (g ∷ gs) group h =
    let p = add_cycles g (new_permutation n) in
    let size : p.size ≡ n = size-add_cycles g (new_permutation n) ∙ new_size n in
    let inside =
      All-add_cycles (λ (l : Literal). variable l < n) g (new_permutation n) (rw (new_cycles n) tt)
        (cycles_in_range n g h.0.1) in
    let (group1, added) = add_permutation_total p group (rw size inside) in
    let (group2, rest) = add_generators_total n gs group1 h.1 in (group2, rw added rest)

module _ {F : Type 0} (gzread : F → ℕ → Option (List ℕ) × F) (is_space : ℕ → Bool)
    (content : F → List ℕ) (file : IsFile gzread content) (fuel : ℕ) (buffer : List ℕ) (f : F)
    (room : length buffer ≡ buffer_size) (num_vars : ℕ) (group : Group) where
  load_file-same :
      length (content f) < fuel
      → load_file gzread is_space fuel buffer f num_vars group
        ≡ load (list_input is_space) fuel num_vars group (content f)
  unfolding load_file
  load_file-same enough =
      let (s, opened, left) =
        open_stream-Left gzread is_space content fuel buffer f file room enough in
      rw opened (
        load-Follows (stream_input gzread is_space fuel) (list_input is_space)
          (Left gzread is_space content fuel) (stream-IsFollower gzread is_space content fuel file)
          fuel num_vars group s (content f) left)

  -- Where gzread gives the characters of the file in pieces, without an error and no empty piece
  -- before the end, and with fuel above the number of characters, load of a file of generators
  -- over the buffer gives what load gives over the list of its characters, and it ends: with a
  -- result, or at a failed CHECK, and no index lies outside of the group's vectors.
  pub load_file-load :
      length (content f) < fuel
      → (load_file gzread is_space fuel buffer f num_vars group
          ≡ load (list_input is_space) fuel num_vars group (content f))
        × (load_file gzread is_space fuel buffer f num_vars group ≢ stuck)
  load_file-load enough = (
    load_file-same enough,
    rw (load_file-same enough)
        (Ends-ne-stuck (load-Ends is_space num_vars fuel group (content f) enough)),
  )

  -- Where gzread gives the characters of the file in pieces, without an error and no empty piece
  -- before the end, and with fuel above the number of characters, load of the text of generators
  -- (lists of one or more cycles, each of two or more literals of the variables in range, where
  -- twice the number of variables is below 2 ^ 31) returns true, and the permutations of these
  -- cycles are added to the group in their order; none of them leads outside of the group's
  -- vectors.
  pub load_file-generators :
      (gs : List Generator)
      → IsBlank is_space
      → content f ≡ file_text num_vars gs
      → All (IsGenerator num_vars) gs
      → length (content f) < fuel
      → 2 * num_vars < 2 ^ 31
      → (group' : Group) × (add_generators num_vars gs group ≡ some group')
        × (load_file gzread is_space fuel buffer f num_vars group ≡ done (true, group'))
  load_file-generators gs blank printed good enough few =
      let (group', added) = add_generators_total num_vars gs group good in
      let read : load (list_input is_space) fuel num_vars group (content f)
          ≡ (run (add_generators num_vars gs group) >>= λ g. done (true, g)) =
        rw printed (
          load-file_text is_space blank num_vars fuel gs group
            (subst (λ cs. length cs < fuel) printed enough) good) in
      (group', added, load_file-same enough ∙ read ∙ rw added)
