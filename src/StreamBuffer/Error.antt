-- ===== src/StreamBuffer/Error.antt =====
-- StreamBuffer.cc, read, when gzread fails.
use sat_symmetry.Prelude.{
  ℕ, zero, suc, ◌-◌, ◌^◌, ◌≤◌, ◌<◌, ◌≡◌, ap, arith, Bool, true, false, Option, none, some, List, [],
  ◌∷◌, ltb, leb, if◌then◌else◌, length, get_elem?, get_or, Bool-cases, inl, inr,
}
use sat_symmetry.StreamBuffer.{StreamBuffer, buffer_size, fill, refill, current, read}

get_elem?-inside :
    (xs : List ℕ) (i : ℕ)
    → get_elem? xs i ≡ (if ltb i (length xs) then some (get_or xs i 0) else none)
get_elem?-inside [] i = ground arith
get_elem?-inside (x ∷ xs) zero = ground arith
get_elem?-inside (x ∷ xs) (suc i) = ground (arith, get_elem?-inside xs i)

module _ {ℓ} {F : Type ℓ} (gzread : F → ℕ → Option (List ℕ) × F) (is_space : ℕ → Bool) where
  -- The stream after an error, with another index.
  abbrev pub failed : StreamBuffer F → F → ℕ → StreamBuffer F
  failed s f k = record { file = f; buffer = s.buffer; index = k; size = 2 ^ 32 - 1 }

  failed-current :
      (s : StreamBuffer F) (f : F) (k : ℕ)
      → length s.buffer ≡ buffer_size
      → k < 2 ^ 32 - 1
      → current (failed s f k)
        ≡ (if ltb k buffer_size then some (get_or s.buffer k 0, failed s f k) else none)
  failed-current s f k room lt =
      let inside : leb (2 ^ 32 - 1) k ≡ false = ground arith in
      rw (inside, get_elem?-inside s.buffer k, room)
        (elim (Bool-cases (ltb k buffer_size)) [ inl below ↦ rw below | inr above ↦ rw above ])

  -- Where the buffer is used up and gzread fails, read gives the first character of the old
  -- content of the buffer, not the end; at each later index below 2 ^ 32 - 1 it gives the old
  -- character, and from the size of the buffer on it reads outside of it.
  pub read-failed :
      (s : StreamBuffer F) (f : F) (k : ℕ)
      → length s.buffer ≡ buffer_size
      → s.size ≤ s.index
      → gzread s.file buffer_size ≡ (none, f)
      → k < 2 ^ 32 - 1
      → (read gzread is_space s ≡ some (get_or s.buffer 0 0, failed s f 0))
        × (read gzread is_space (failed s f k)
            ≡ (if ltb k buffer_size then some (get_or s.buffer k 0, failed s f k) else none))
  unfolding read refill
  read-failed s f k room spent error lt =
      let spent' : leb s.size s.index ≡ true = ground arith in
      let inside : leb (2 ^ 32 - 1) k ≡ false = ground arith in
      let filled : refill gzread is_space s ≡ failed s f 0 = ap (λ r. fill r s) error in
      (
        rw (spent', filled) (failed-current s f 0 room (omega arith)),
        rw inside (failed-current s f k room lt),
      )
