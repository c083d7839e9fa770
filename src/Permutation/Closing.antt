-- ===== src/Permutation/Closing.antt =====
-- Permutation.cc, closeCurrentCycle: image and inverse once a cycle is closed.
use sat_symmetry.Prelude.{
  ℕ, ◌-◌, ◌≡◌, refl, ap, arith, false, not, ◌==◌, if◌then◌else◌, Bool-cases, inl, inr, List, [],
  ◌∷◌, ◌++◌, length, get_or, length-append, has_key-insert,
}
use sat_symmetry.Permutation.{Permutation, close_current_cycle, link, back_or_zero}
use sat_symmetry.Permutation.Building.{
  IsBuilding, is_open, last_written, first_open, contains-get_or, get_or-append_left,
  get_or-append_last, back_or_zero-append, link-Inverted,
}

back_or_zero_lem : (n : ℕ) (ns : List ℕ) → get_or (n ∷ ns) (length ns) 0 ≡ back_or_zero (n ∷ ns)
back_or_zero_lem n [] = refl
back_or_zero_lem n (m ∷ ns) = back_or_zero_lem m ns

pub begins_at :
    (ns : List ℕ) (m : ℕ)
    → (if length (ns ++ m ∷ []) - 1 == 0
        then 0
        else get_or (ns ++ m ∷ []) (length (ns ++ m ∷ []) - 1 - 1) 0)
      ≡ back_or_zero ns
begins_at [] m = refl
begins_at (n ∷ ns) m =
    let i = length (ns ++ m ∷ []) in
    let size = length-append ns (m ∷ []) in
    ground (
      arith,
      size,
      get_or-append_left (n ∷ ns) (m ∷ []) (i - 1) 0,
      ap (λ (j : ℕ). get_or (n ∷ ns) j 0) (i_eq n ns m),
      back_or_zero_lem n ns,
    )
  where
    i_eq : (n : ℕ) (ns : List ℕ) (m : ℕ) → length (ns ++ m ∷ []) - 1 ≡ length ns
    i_eq n ns m = omega (arith, length-append ns (m ∷ []))

-- Closing links the last literal to the first one of the cycle.
pub close_lem :
    (p : Permutation)
    → close_current_cycle p ≡ (
        if is_open p
        then link
            (last_written p)
            (first_open p)
            (record p { cycles_lim = p.cycles_lim ++ length p.cycles ∷ [] })
        else p)
unfolding close_current_cycle
close_lem p = elim (Bool-cases (is_open p)) [
  | inl opened ↦ rw (test, opened, ends, begins)
  | inr closed ↦ rw (test, closed)
]
  where
    test : (back_or_zero p.cycles_lim == length p.cycles) ≡ not (is_open p)
    test = ground arith

    n : ℕ
    n = length (p.cycles_lim ++ length p.cycles ∷ []) - 1

    ends : get_or (p.cycles_lim ++ length p.cycles ∷ []) n 0 ≡ length p.cycles
    ends =
        get_or-append_last p.cycles_lim (length p.cycles) n 0
          (omega (arith, length-append p.cycles_lim (length p.cycles ∷ [])))

    begins :
        (if n == 0 then 0 else get_or (p.cycles_lim ++ length p.cycles ∷ []) (n - 1) 0)
        ≡ back_or_zero p.cycles_lim
    begins = begins_at p.cycles_lim (length p.cycles)

pub close-IsBuilding : (p : Permutation) → IsBuilding p → IsBuilding (close_current_cycle p)
close-IsBuilding p h = elim (Bool-cases (is_open p)) [
  | inl opened ↦
      let begin_in =
        contains-get_or p.cycles (back_or_zero p.cycles_lim) 0 (ground (arith, h.limit)) in
      let last_in = contains-get_or p.cycles (length p.cycles - 1) 0 (ground (arith, h.limit)) in
      let limited = record p { cycles_lim = p.cycles_lim ++ length p.cycles ∷ [] } in
      let back = back_or_zero-append p.cycles_lim (length p.cycles) in
      let both =
        link-Inverted (last_written p) (first_open p) limited
          (ground (arith, h.has_image (last_written p)))
          (ground (arith, h.has_inverse (first_open p))) (h.inverse_image, h.image_inverse) in
      rw (close_lem, opened)
        (record {
          limit = omega (arith, back);
          inverse_image = both.0;
          image_inverse = both.1;
          has_image = λ e. ground (
            arith,
            h.has_image e,
            back,
            last_in,
            has_key-insert (last_written p) e (first_open p) p.image,
          );
          has_inverse = λ i. ground (
            arith,
            h.has_inverse i,
            back,
            begin_in,
            has_key-insert (first_open p) i (last_written p) p.inverse,
          );
        })
  | inr closed ↦ rw (close_lem, closed) h
]

-- A closed cycle leaves no cycle open.
pub close_closes : (p : Permutation) → is_open (close_current_cycle p) ≡ false
close_closes p = elim (Bool-cases (is_open p)) [
  | inl opened ↦
      rw (close_lem, opened) (ground (arith, back_or_zero-append p.cycles_lim (length p.cycles)))
  | inr closed ↦ rw (close_lem, closed) closed
]
