-- ===== src/SaucyReader/Tests.antt =====
-- The file of one generator, which swaps the variables 1 and 2, and the theorems applied to it.
use sat_symmetry.Prelude.{
  ℕ, ◌≡◌, ◌≢◌, refl, arith, true, some, List, [], ◌∷◌, replicate, length-replicate,
}
use sat_symmetry.Prelude.Outcome.{done, stuck}
use sat_symmetry.Literal.{variable, is_positive}
use sat_symmetry.CnfGraph.{literal2node}
use sat_symmetry.Group.{Group, new_group}
use sat_symmetry.StreamBuffer.{buffer_size}
use sat_symmetry.StreamBuffer.Tests.{by_one, all, by_one-IsFile}
use sat_symmetry.StreamBuffer.Decimal.{decimal_digits}
use sat_symmetry.StreamBuffer.Input.{list_input}
use sat_symmetry.SaucyReader.{load, load_file}
use sat_symmetry.SaucyReader.Printed.{Generator, file_text, add_generators}
use sat_symmetry.SaucyReader.File.{load_file-load, load_file-generators}
use sat_symmetry.CnfReader.Tests.{blank}

abbrev pub swap : Generator
swap = (0 ∷ 2 ∷ []) ∷ (1 ∷ 3 ∷ []) ∷ []

-- "[", "(1,2)(3,4)", "]", each on a line.
abbrev pub characters : List ℕ
characters = 91 ∷ 10 ∷ 40 ∷ 49 ∷ 44 ∷ 50 ∷ 41 ∷ 40 ∷ 51 ∷ 44 ∷ 52 ∷ 41 ∷ 10 ∷ 93 ∷ []

pub printed : characters ≡ file_text 2 (swap ∷ [])
unfolding decimal_digits literal2node variable is_positive
printed = refl

load_file-load_example :
    (load_file by_one blank 20 (replicate buffer_size 0) characters 2 new_group
      ≡ load (list_input blank) 20 2 new_group characters)
    × (load_file by_one blank 20 (replicate buffer_size 0) characters 2 new_group ≢ stuck)
load_file-load_example =
    load_file-load by_one blank all by_one-IsFile 20 (replicate buffer_size 0) characters
      (length-replicate {A = ℕ} buffer_size 0) 2 new_group (omega arith)

load_file-generators_example :
    (group : Group) × (add_generators 2 (swap ∷ []) new_group ≡ some group)
    × (load_file by_one blank 20 (replicate buffer_size 0) characters 2 new_group
        ≡ done (true, group))
unfolding variable
load_file-generators_example =
    load_file-generators by_one blank all by_one-IsFile 20 (replicate buffer_size 0) characters
      (length-replicate {A = ℕ} buffer_size 0) 2 new_group (swap ∷ []) (λ c. refl) printed
      (
        (
          λ e. cc,
          (
            (omega arith, (omega arith, (omega arith, tt))),
            ((omega arith, (omega arith, (omega arith, tt))), tt),
          ),
        ),
        tt,
      )
      (omega arith) (omega arith)
