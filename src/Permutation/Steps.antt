-- ===== src/Permutation/Steps.antt =====
-- Permutation.cc: what one literal, and the end of a cycle, do to the images.
use sat_symmetry.Prelude.{
  ◌-◌, ◌≡◌, arith, true, ◌&&◌, ◌==◌, if◌then◌else◌, Bool-cases, inl, inr, some, [], ◌∷◌, ◌++◌,
  length, length-append, insert_lem,
}
use sat_symmetry.Literal.{Literal}
use sat_symmetry.Permutation.{Permutation, add_to_current_cycle, close_current_cycle, back_or_zero}
use sat_symmetry.Permutation.Building.{
  IsBuilding, is_open, last_written, first_open, add_lem, get_or-append_last, get_or-append_left,
}
use sat_symmetry.Permutation.Closing.{close_lem}
use sat_symmetry.Permutation.Cycles.{add_lists}

module _ (x : Literal) (p : Permutation) (h : IsBuilding p) where
  pub is_open-add : is_open (add_to_current_cycle x p) ≡ true
  is_open-add =
      let (cycles, lims) = add_lists x p in
      rw (cycles, lims) (ground (arith, length-append p.cycles (x ∷ []), h.limit))

  pub last_written-add : last_written (add_to_current_cycle x p) ≡ x
  last_written-add =
      let (cycles, lims) = add_lists x p in
      rw cycles (
        get_or-append_last p.cycles x (length (p.cycles ++ x ∷ []) - 1) 0
          (omega (arith, length-append p.cycles (x ∷ []))))

  pub first_open-add :
      first_open (add_to_current_cycle x p) ≡ (if is_open p then first_open p else x)
  first_open-add =
      let (cycles, lims) = add_lists x p in
      let first = back_or_zero p.cycles_lim in
      rw (cycles, lims)
        (ground (
          arith,
          h.limit,
          get_or-append_left p.cycles (x ∷ []) first 0,
          get_or-append_last p.cycles x first 0,
        ))

  pub image-add :
      (e : Literal)
      → (add_to_current_cycle x p).image e
        ≡ (if is_open p && last_written p == e then some x else p.image e)
  image-add e = elim (Bool-cases (is_open p)) [
    | inl opened ↦
        rw (add_lem x p h.limit, opened) (ground (arith, insert_lem (last_written p) e x p.image))
    | inr closed ↦ rw (add_lem x p h.limit, closed)
  ]

pub image-close :
    (p : Permutation) (e : Literal)
    → (close_current_cycle p).image e
      ≡ (if is_open p && last_written p == e then some (first_open p) else p.image e)
image-close p e = elim (Bool-cases (is_open p)) [
  | inl opened ↦
      rw (close_lem p, opened)
        (ground (arith, insert_lem (last_written p) e (first_open p) p.image))
  | inr closed ↦ rw (close_lem p, closed)
]
