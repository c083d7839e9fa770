-- ===== src/Permutation/Around.antt =====
-- Permutation.cc: how the literals of a cycle that is added are mapped.
use sat_symmetry.Prelude.{
  ℕ, zero, suc, ◌+◌, ◌-◌, ◌≡◌, ◌≢◌, refl, ap, arith, sym, ◌∙◌, true, false, Bool-cases, inl, inr,
  some, List, [], ◌∷◌, ◌++◌, length, get_or, take, drop, length-append, insert_lem,
}
use sat_symmetry.Literal.{Literal}
use sat_symmetry.Permutation.{
  Permutation, add_to_current_cycle, close_current_cycle, number_of_cycles, cycle, add_all,
  back_or_zero,
}
use sat_symmetry.Permutation.Building.{
  IsBuilding, is_open, last_written, first_open, add_lem, add-IsBuilding, get_or-append_last,
}
use sat_symmetry.Permutation.Closing.{close_lem, begins_at}
use sat_symmetry.Permutation.Cycles.{
  Fresh, Follows, add_cycle, add_lists, add_all_lists, add_all-IsBuilding, close_cycles,
}

-- A later literal leaves the images that are there.
add_keeps :
    (x : Literal) (p : Permutation) (e i : Literal)
    → IsBuilding p
    → p.image e ≡ some i
    → (add_to_current_cycle x p).image e ≡ some i
add_keeps x p e i h said = elim (Bool-cases (is_open p)) [
  | inl opened ↦
      rw (add_lem x p h.limit, opened)
        (ground (arith, h.has_image e, insert_lem (last_written p) e x p.image))
  | inr closed ↦ rw (add_lem x p h.limit, closed) said
]

add_all_keeps :
    (xs : List Literal) (p : Permutation) (e i : Literal)
    → Fresh p.cycles xs
    → IsBuilding p
    → p.image e ≡ some i
    → (add_all xs p).image e ≡ some i
unfolding add_all
add_all_keeps [] p e i f h said = said
add_all_keeps (x ∷ xs) p e i f h said =
    add_all_keeps xs (add_to_current_cycle x p) e i (rw ((add_lists x p).0) f.1)
      (add-IsBuilding x p f.0 h) (add_keeps x p e i h said)

close_keeps :
    (p : Permutation) (e i : Literal)
    → IsBuilding p
    → p.image e ≡ some i
    → (close_current_cycle p).image e ≡ some i
close_keeps p e i h said = elim (Bool-cases (is_open p)) [
  | inl opened ↦
      rw (close_lem p, opened)
        (ground (arith, h.has_image e, insert_lem (last_written p) e (first_open p) p.image))
  | inr closed ↦ rw (close_lem p, closed) said
]

-- The images that the literals of an open cycle get.
add_all-Follows :
    (xs : List Literal) (p : Permutation) (x : Literal)
    → Fresh p.cycles xs
    → IsBuilding p
    → is_open p ≡ true
    → last_written p ≡ x
    → Follows (add_all xs p) x xs × (last_written (add_all xs p) ≡ get_or (x ∷ xs) (length xs) 0)
unfolding add_all
add_all-Follows [] p x f h opened e = (tt, e)
add_all-Follows (y ∷ ys) p x f h opened e =
    let q = add_to_current_cycle y p in
    let (cycles, lims) = add_lists y p in
    let f' : Fresh q.cycles ys = rw cycles f.1 in
    let building = add-IsBuilding y p f.0 h in
    let size = length-append p.cycles (y ∷ []) in
    let opened' : is_open q ≡ true = rw (cycles, lims) (ground (arith, size, h.limit)) in
    let last : last_written q ≡ y =
      rw cycles
        (get_or-append_last p.cycles y (length (p.cycles ++ y ∷ []) - 1) 0 (omega (arith, size))) in
    let said : q.image x ≡ some y =
      rw (add_lem y p h.limit, opened) (ground (arith, insert_lem (last_written p) x y p.image)) in
    let (later, ends) = add_all-Follows ys q y f' building opened' last in
    ((add_all_keeps ys q x y f' building said, later), ends)

Follows-close :
    (xs : List Literal) (p : Permutation) (x first : Literal)
    → IsBuilding p
    → Follows p x xs
    → is_open p ≡ true
    → last_written p ≡ get_or (x ∷ xs) (length xs) 0
    → first_open p ≡ first
    → Follows (close_current_cycle p) x (xs ++ first ∷ [])
Follows-close [] p x first h f opened last begins = (
  rw (close_lem p, opened) (ground (arith, insert_lem (last_written p) x (first_open p) p.image)),
  tt,
)
Follows-close (y ∷ ys) p x first h f opened last begins =
    (close_keeps p x y h f.0, Follows-close ys p y first h f.1 opened last begins)

drop-append {ℓ} : {A : Type ℓ} (xs ys : List A) (n : ℕ) → n ≡ length xs → drop n (xs ++ ys) ≡ ys
drop-append [] ys zero e = refl
drop-append [] ys (suc n) e = absurd (omega arith)
drop-append (x ∷ xs) ys zero e = absurd (omega arith)
drop-append (x ∷ xs) ys (suc n) e = drop-append xs ys n (omega arith)

take_all {ℓ} : {A : Type ℓ} (xs : List A) (n : ℕ) → n ≡ length xs → take n xs ≡ xs
take_all [] zero e = refl
take_all [] (suc n) e = refl
take_all (x ∷ xs) zero e = absurd (omega arith)
take_all (x ∷ xs) (suc n) e = ap (◌∷◌ x) (take_all xs n (omega arith))

-- What closing an open cycle does to the lists.
close_lists :
    (q : Permutation)
    → is_open q ≡ true
    → ((close_current_cycle q).cycles_lim ≡ q.cycles_lim ++ length q.cycles ∷ [])
      × (cycle (close_current_cycle q) (length q.cycles_lim)
          ≡ drop (back_or_zero q.cycles_lim) q.cycles)
unfolding cycle
close_lists q opened =
    let lims : (close_current_cycle q).cycles_lim ≡ q.cycles_lim ++ length q.cycles ∷ [] =
      rw (close_lem q, opened) in
    let n = length q.cycles_lim in
    let size = length-append q.cycles_lim (length q.cycles ∷ []) in
    let last : length (q.cycles_lim ++ length q.cycles ∷ []) - 1 ≡ n = omega (arith, size) in
    let begins = rw last at (begins_at q.cycles_lim (length q.cycles)) in
    (
      lims,
      rw (
        lims,
        close_cycles q,
        begins,
        get_or-append_last q.cycles_lim (length q.cycles) n 0 refl,
        take_all q.cycles (length q.cycles) refl,
      ),
    )

-- A cycle of two or more new literals, added to a well-formed permutation with no open cycle,
-- becomes its last cycle, and its literals are mapped around it, the last one to the first.
pub add_cycle_lem :
    (x : Literal) (xs : List Literal) (p : Permutation)
    → xs ≢ []
    → Fresh p.cycles (x ∷ xs)
    → IsBuilding p
    → is_open p ≡ false
    → let q = add_cycle (x ∷ xs) p in
      (number_of_cycles q ≡ number_of_cycles p + 1)
      × (cycle q (number_of_cycles p) ≡ x ∷ xs)
      × Follows q x (xs ++ x ∷ [])
unfolding add_all number_of_cycles
add_cycle_lem x xs p ne f h closed =
    let p' = add_to_current_cycle x p in
    let q = add_all xs p' in
    let (cycles, lims) = add_lists x p in
    let (all_cycles, all_lims) = add_all_lists (x ∷ xs) p in
    let building = add-IsBuilding x p f.0 h in
    let all_building = add_all-IsBuilding (x ∷ xs) p f h in
    let size = length-append p.cycles (x ∷ []) in
    let all_size = length-append p.cycles (x ∷ xs) in
    let opened : is_open p' ≡ true = rw (cycles, lims) (ground (arith, size, h.limit)) in
    let all_opened : is_open q ≡ true =
      rw (all_cycles, all_lims) (ground (arith, all_size, h.limit)) in
    let last : last_written p' ≡ x =
      rw cycles
        (get_or-append_last p.cycles x (length (p.cycles ++ x ∷ []) - 1) 0 (omega (arith, size))) in
    let begins : first_open q ≡ x =
      rw (all_cycles, all_lims)
        (first_new p.cycles x xs (back_or_zero p.cycles_lim) (ground arith)) in
    let (follows, ends) = add_all-Follows xs p' x (rw cycles f.1) building opened last in
    let (lims', slice) = close_lists q all_opened in
    (
      rw lims'
          (omega (arith, length-append q.cycles_lim (length q.cycles ∷ []), ap length all_lims)),
      ap (λ (n : ℕ). cycle (close_current_cycle q) n) (sym (ap length all_lims))
          ∙ slice
          ∙ rw (all_cycles, all_lims) (drop-append p.cycles (x ∷ xs) _ (ground arith)),
      Follows-close xs q x x all_building follows all_opened ends begins,
    )
  where
    first_new :
        (old : List Literal) (x : Literal) (xs : List Literal) (n : ℕ)
        → n ≡ length old
        → get_or (old ++ x ∷ xs) n 0 ≡ x
    first_new [] x xs zero e = refl
    first_new [] x xs (suc n) e = absurd (omega arith)
    first_new (y ∷ old) x xs zero e = absurd (omega arith)
    first_new (y ∷ old) x xs (suc n) e = first_new old x xs n (omega arith)
