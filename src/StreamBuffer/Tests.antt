-- ===== src/StreamBuffer/Tests.antt =====
-- A file that is read one character at a time, and the theorems applied to it.
use sat_symmetry.Prelude.{
  ℕ, ◌≤◌, ◌≡◌, ◌++◌, length, refl, arith, Bool, none, ltb, get_or, if◌then◌else◌, Option, some,
  List, [], ◌∷◌, ◌==◌, replicate, length-replicate,
}
use sat_symmetry.StreamBuffer.{StreamBuffer, buffer_size, read, read_int}
use sat_symmetry.StreamBuffer.Error.{failed, read-failed}
use sat_symmetry.StreamBuffer.Laws.{IsFile, IsStream, IsAt}
use sat_symmetry.StreamBuffer.Characters.{int_of}
use sat_symmetry.StreamBuffer.Reading.{read_int-IsAt}

-- One character, or the end.
unfoldable pub by_one : List ℕ → ℕ → Option (List ℕ) × List ℕ
by_one [] n = (some [], [])
by_one (c ∷ cs) n = (some (c ∷ []), cs)

abbrev pub all : List ℕ → List ℕ
all cs = cs

pub by_one-IsFile : IsFile by_one all
unfolding by_one
by_one-IsFile = record { reads = reads }
  where
    reads :
        (cs : List ℕ)
        → (bs : List ℕ) × (cs' : List ℕ) × (by_one cs buffer_size ≡ (some bs, cs'))
          × (cs ≡ bs ++ cs')
          × (length bs ≤ buffer_size)
          × (bs ≡ [] → cs' ≡ [])
    reads [] = ([], [], refl, refl, omega arith, λ e. e)
    reads (c ∷ cs) = (c ∷ [], cs, refl, refl, omega arith, λ e. cc)

abbrev is_blank : ℕ → Bool
is_blank c = c == 32

-- " -12 7", of which nothing is in the buffer yet.
abbrev characters : List ℕ
characters = 32 ∷ 45 ∷ 49 ∷ 50 ∷ 32 ∷ 55 ∷ []

abbrev stream : StreamBuffer (List ℕ)
stream = record { file = characters; buffer = replicate buffer_size 0; index = 0; size = 0 }

stream-IsStream : IsStream by_one is_blank all stream
stream-IsStream = record { room = length-replicate {A = ℕ} buffer_size 0; filled = omega arith }

read_int-IsAt_example :
    (s' : StreamBuffer (List ℕ)) × (read_int by_one is_blank 7 stream
      ≡ some ((int_of is_blank characters).0, s'))
    × IsAt by_one is_blank all (int_of is_blank characters).1 s'
read_int-IsAt_example =
    read_int-IsAt by_one is_blank all by_one-IsFile 7 stream characters stream-IsStream refl
      (omega arith) (omega arith)

-- A file that cannot be read.
broken : List ℕ → ℕ → Option (List ℕ) × List ℕ
broken cs n = (none, cs)

read-failed_example :
    (read broken is_blank stream
      ≡ some (get_or stream.buffer 0 0, failed broken is_blank stream characters 0))
    × (read broken is_blank (failed broken is_blank stream characters 4096) ≡ (
        if ltb 4096 buffer_size
        then some (get_or stream.buffer 4096 0, failed broken is_blank stream characters 4096)
        else none))
unfolding broken
read-failed_example =
    read-failed broken is_blank stream characters 4096 (length-replicate {A = ℕ} buffer_size 0)
      (omega arith) refl (omega arith)
