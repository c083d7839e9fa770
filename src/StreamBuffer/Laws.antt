-- ===== src/StreamBuffer/Laws.antt =====
-- StreamBuffer.cc: reading a character, and the loops over the characters.
use mathlib.Core.Path.{subst}
use sat_symmetry.Prelude.{
  ℕ, zero, suc, ◌+◌, ◌-◌, ◌*◌, ◌≤◌, ◌<◌, ◌≡◌, refl, sym, ap, arith, Bool, false, not, ◌&&◌, Option,
  some, List, [], ◌∷◌, ◌++◌, ◌==◌, leb, length, length-append, drop, take, Bool-cases, inl, inr,
  ◌>>=◌,
}
use sat_symmetry.StreamBuffer.{
  StreamBuffer, buffer_size, is_digit, fill, refill, current, read, step, next, skip_while,
  read_digits,
}
use sat_symmetry.StreamBuffer.Characters.{
  front, rest_of, without, digits_of, take-get, drop_all, take-append, length-drop,
}

-- What zlib promises for a file without errors: `content` are the characters that are left.
pub record IsFile {ℓ} {F : Type ℓ} (gzread : F → ℕ → Option (List ℕ) × F) (content : F → List ℕ)
    : Type ℓ where
  pub reads :
      (f : F)
      → (bs : List ℕ) × (f' : F) × (gzread f buffer_size ≡ (some bs, f'))
        × (content f ≡ bs ++ content f')
        × (length bs ≤ buffer_size)
        × (bs ≡ [] → content f' ≡ [])

module _ {ℓ} {F : Type ℓ} (gzread : F → ℕ → Option (List ℕ) × F) (is_space : ℕ → Bool)
    (content : F → List ℕ) where
  abbrev pub remaining : StreamBuffer F → List ℕ
  remaining s = drop s.index (take s.size s.buffer) ++ content s.file

  pub record IsStream (s : StreamBuffer F) : Type 0 where
    pub room : length s.buffer ≡ buffer_size
    pub filled : s.size ≤ buffer_size

  -- A stream with the characters `cs` left, after a read: the next step passes the first one.
  pub record IsAt (cs : List ℕ) (s : StreamBuffer F) : Type ℓ where
    pub stream : IsStream s
    pub here : remaining s ≡ cs
    pub stepped : remaining (step s) ≡ rest_of cs

  current-IsAt :
      (s : StreamBuffer F)
      → IsStream s
      → s.index < s.size
      → (current s ≡ some (front (remaining s), s)) × IsAt (remaining s) s
  current-IsAt s h lt =
      let (c, found, e) = take-get s.buffer s.index s.size lt (omega (arith, h.room, h.filled)) in
      let inside : leb s.size s.index ≡ false = ground arith in
      let later : s.index + 1 ≡ suc s.index = omega arith in
      (rw (inside, found, e), record { stream = h; here = refl; stepped = rw (later, e) })

  module _ (file : IsFile gzread content) where
    refill-IsStream :
        (s : StreamBuffer F)
        → IsStream s
        → IsStream (refill gzread is_space s)
          × (remaining (refill gzread is_space s) ≡ content s.file)
          × ((refill gzread is_space s).index ≡ 0)
          × ((refill gzread is_space s).size ≡ 0 → content (refill gzread is_space s).file ≡ [])
    unfolding refill
    refill-IsStream s h =
        let (bs, f', made, split, le, end) = file.reads s.file in
        let filled : fill (some bs, f') s ≡ refill gzread is_space s =
          ap (λ r. fill r s) (sym made) in
        subst
          (λ (t : StreamBuffer F).
            IsStream t
            × (remaining t ≡ content s.file)
            × (t.index ≡ 0)
            × (t.size ≡ 0 → content t.file ≡ []))
          filled
          (
            record {
              room = omega (
                arith,
                h.room,
                length-append bs (drop (length bs) s.buffer),
                length-drop (length bs) s.buffer,
              );
              filled = le;
            },
            rw (take-append bs (drop (length bs) s.buffer)) (sym split),
            refl,
            λ e. end (nil_of bs e),
          )
      where
        nil_of : (xs : List ℕ) → length xs ≡ 0 → xs ≡ []
        nil_of [] e = refl
        nil_of (x ∷ xs) e = absurd (omega arith)

    read-IsAt :
        (s : StreamBuffer F)
        → IsStream s
        → (s' : StreamBuffer F) × (read gzread is_space s ≡ some (front (remaining s), s'))
          × IsAt (remaining s) s'
    unfolding read
    read-IsAt s h = elim (Bool-cases (leb s.size s.index)) [
      | inr inside ↦ let (got, at) = current-IsAt s h (ground arith) in (s, rw inside got, at)
      | inl spent ↦
          let t = refill gzread is_space s in
          let (h', all, zero_index, end) = refill-IsStream s h in
          let gone : drop s.index (take s.size s.buffer) ≡ [] =
            drop_all s.buffer s.index s.size (ground arith) in
          let same : remaining s ≡ remaining t = rw gone (sym all) in
          rw same (elim (Bool-cases (leb t.size t.index)) [
            | inr inside ↦ let (got, at) = current-IsAt t h' (ground arith) in (t, rw spent got, at)
            | inl empty ↦
                let none_read : t.size ≡ 0 = ground (arith, zero_index) in
                let ended = end none_read in
                let nothing : (i : ℕ) → drop i (take t.size t.buffer) ≡ [] =
                  λ i. drop_all t.buffer i t.size (omega (arith, none_read)) in
                let left : remaining t ≡ [] = rw (nothing t.index, ended) in
                (
                  t,
                  rw (spent, empty, left),
                  record {
                    stream = h';
                    here = refl;
                    stepped = rw (left, nothing (t.index + 1), ended);
                  },
                )
          ])
    ]

    -- `operator++` passes one character, if there is one.
    pub next-IsAt :
        (s : StreamBuffer F) (cs : List ℕ)
        → IsAt cs s
        → (s' : StreamBuffer F) × (next gzread is_space s ≡ some s') × IsAt (rest_of cs) s'
    unfolding next
    next-IsAt s cs at =
        let (s', got, at') =
          read-IsAt (step s) record { room = at.stream.room; filled = at.stream.filled } in
        (s', rw got, rw at.stepped at at')

    -- A read where the characters that are left are known.
    pub read-front :
        (s : StreamBuffer F) (cs : List ℕ)
        → IsStream s
        → remaining s ≡ cs
        → (s' : StreamBuffer F) × (read gzread is_space s ≡ some (front cs, s')) × IsAt cs s'
    read-front s cs h e = let (s', got, at) = read-IsAt s h in (s', rw e at got, rw e at at)

    step-IsStream : (s : StreamBuffer F) → IsStream s → IsStream (step s)
    step-IsStream s h = record { room = h.room; filled = h.filled }

    pub skip_while-IsAt :
        (fuel : ℕ) (goes_on : ℕ → Bool) (s : StreamBuffer F) (cs : List ℕ)
        → IsStream s
        → remaining s ≡ cs
        → length cs < fuel
        → (s' : StreamBuffer F) × (skip_while gzread is_space fuel goes_on s ≡ some s')
          × IsAt (without goes_on cs) s'
    unfolding skip_while
    skip_while-IsAt zero goes_on s cs h e enough = absurd (omega arith)
    skip_while-IsAt (suc fuel) goes_on s [] h e enough =
        let (s', got, at) = read-front s [] h e in (s', rw (skip_while, got), at)
    skip_while-IsAt (suc fuel) goes_on s (c ∷ cs) h e enough =
        let (s', got, at) = read-front s (c ∷ cs) h e in
        elim (Bool-cases (not (c == 0) && goes_on c)) [
          | inl more ↦
              let (s'', made, at') =
                skip_while-IsAt fuel goes_on (step s') cs (step-IsStream s' at.stream) at.stepped
                  (omega arith) in
              (s'', rw (skip_while, got, ◌>>=◌, more, made), rw more at')
          | inr done ↦ (s', rw (skip_while, got, ◌>>=◌, done), rw done at)
        ]

    pub read_digits-IsAt :
        (fuel value : ℕ) (s : StreamBuffer F) (cs : List ℕ)
        → IsStream s
        → remaining s ≡ cs
        → length cs < fuel
        → (s' : StreamBuffer F) × (read_digits gzread is_space fuel value s
            ≡ some ((digits_of value cs).0, s'))
          × IsAt (digits_of value cs).1 s'
    unfolding read_digits
    read_digits-IsAt zero value s cs h e enough = absurd (omega arith)
    read_digits-IsAt (suc fuel) value s [] h e enough =
        let (s', got, at) = read-front s [] h e in (s', rw (read_digits, got), at)
    read_digits-IsAt (suc fuel) value s (c ∷ cs) h e enough =
        let (s', got, at) = read-front s (c ∷ cs) h e in
        elim (Bool-cases (not (c == 0) && is_digit c)) [
          | inl more ↦
              let (s'', passed, at'') = next-IsAt s' (c ∷ cs) at in
              let (s3, made, at3) =
                read_digits-IsAt fuel (value * 10 + (c - 48)) s'' cs at''.stream at''.here
                  (omega arith) in
              (s3, rw (read_digits, got, ◌>>=◌, more, passed, made), rw more at3)
          | inr done ↦ (s', rw (read_digits, got, ◌>>=◌, done), rw done at)
        ]
