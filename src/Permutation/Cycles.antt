-- ===== src/Permutation/Cycles.antt =====
-- Permutation.cc: permutations built from cycles.
use sat_symmetry.Prelude.{
  ℕ, ◌≤◌, ◌≡◌, ◌↔◌, All, length, refl, arith, sym, ◌∙◌, false, not, some, List, [], ◌∷◌, ◌++◌,
  contains,
}
use mathlib.Core.List.{append_assoc, append-nil}
use sat_symmetry.Literal.{Literal}
use sat_symmetry.Permutation.{
  Permutation, new_permutation, add_to_current_cycle, close_current_cycle, image_of, inverse_of,
  is_trivial_image, is_trivial_inverse, add_all, support,
}
use sat_symmetry.Permutation.Building.{
  IsBuilding, is_open, add-IsBuilding, new_permutation-IsBuilding,
}
use sat_symmetry.Permutation.Closing.{close-IsBuilding, close_closes}

-- None of the literals occurs before, nor twice.
abbrev pub Fresh : List Literal → List Literal → Type 0
Fresh old [] = Unit {0}
Fresh old (x ∷ xs) = (contains old x ≡ false) × Fresh (old ++ x ∷ []) xs

abbrev pub add_cycle : List Literal → Permutation → Permutation
add_cycle xs p = close_current_cycle (add_all xs p)

-- The permutation with the given cycles, as the readers and the finders build it.
abbrev pub add_cycles : List (List Literal) → Permutation → Permutation
add_cycles [] p = p
add_cycles (c ∷ cs) p = add_cycles cs (add_cycle c p)

abbrev pub AllFresh : List Literal → List (List Literal) → Type 0
AllFresh old [] = Unit {0}
AllFresh old (c ∷ cs) = Fresh old c × AllFresh (old ++ c) cs

-- Each literal is mapped to the next one.
abbrev pub Follows : Permutation → Literal → List Literal → Type 0
Follows p x [] = Unit {0}
Follows p x (y ∷ ys) = (p.image x ≡ some y) × Follows p y ys

pub add_lists :
    (x : Literal) (p : Permutation)
    → ((add_to_current_cycle x p).cycles ≡ p.cycles ++ x ∷ [])
      × ((add_to_current_cycle x p).cycles_lim ≡ p.cycles_lim)
unfolding add_to_current_cycle
add_lists x p = ground arith

pub add_all_lists :
    (xs : List Literal) (p : Permutation)
    → ((add_all xs p).cycles ≡ p.cycles ++ xs) × ((add_all xs p).cycles_lim ≡ p.cycles_lim)
unfolding add_all
add_all_lists [] p = (sym (append-nil p.cycles), refl)
add_all_lists (x ∷ xs) p =
    let (cycles, lims) = add_all_lists xs (add_to_current_cycle x p) in
    let (cycles', lims') = add_lists x p in
    (cycles ∙ rw cycles' (append_assoc p.cycles (x ∷ []) xs), lims ∙ lims')

pub add_all-IsBuilding :
    (xs : List Literal) (p : Permutation)
    → Fresh p.cycles xs
    → IsBuilding p
    → IsBuilding (add_all xs p)
unfolding add_all
add_all-IsBuilding [] p f h = h
add_all-IsBuilding (x ∷ xs) p f h =
    add_all-IsBuilding xs (add_to_current_cycle x p) (rw ((add_lists x p).0) f.1)
      (add-IsBuilding x p f.0 h)

pub add_cycle-IsBuilding :
    (xs : List Literal) (p : Permutation)
    → Fresh p.cycles xs
    → IsBuilding p
    → IsBuilding (add_cycle xs p)
add_cycle-IsBuilding xs p f h = close-IsBuilding (add_all xs p) (add_all-IsBuilding xs p f h)

pub close_cycles : (p : Permutation) → (close_current_cycle p).cycles ≡ p.cycles
unfolding close_current_cycle
close_cycles p = ground arith

pub add_cycles-IsBuilding :
    (cs : List (List Literal)) (p : Permutation)
    → AllFresh p.cycles cs
    → is_open p ≡ false
    → IsBuilding p
    → IsBuilding (add_cycles cs p) × (is_open (add_cycles cs p) ≡ false)
add_cycles-IsBuilding [] p f closed h = (h, closed)
add_cycles-IsBuilding (c ∷ cs) p f closed h =
    let same : (add_cycle c p).cycles ≡ p.cycles ++ c =
      close_cycles (add_all c p) ∙ (add_all_lists c p).0 in
    add_cycles-IsBuilding cs (add_cycle c p) (rw same f.1) (close_closes (add_all c p))
      (add_cycle-IsBuilding c p f.0 h)

-- In a permutation built from disjoint cycles of two or more literals without repetition, image
-- and inverse are inverse to one another, and exactly the literals of the support have an image,
-- and exactly these an inverse.
pub image_of-inverse_of :
    (n : ℕ) (cs : List (List Literal))
    → AllFresh [] cs
    → All (λ (c : List Literal). 2 ≤ length c) cs
    → let p = add_cycles cs (new_permutation n) in
      ((e i : Literal) → (image_of p e ≡ some i) ↔ (inverse_of p i ≡ some e))
      × ((e : Literal) → is_trivial_image p e ≡ not (contains (support p) e))
      × ((i : Literal) → is_trivial_inverse p i ≡ not (contains (support p) i))
unfolding image_of inverse_of is_trivial_image is_trivial_inverse
image_of-inverse_of n cs f long =
    let p = add_cycles cs (new_permutation n) in
    let (h, closed) =
      add_cycles-IsBuilding cs (new_permutation n) (unfold new_permutation in f)
        (unfold new_permutation in refl) (new_permutation-IsBuilding n) in
    (
      λ e i. (h.inverse_image e i, h.image_inverse e i),
      λ e. ground (arith, h.has_image e, closed),
      λ i. ground (arith, h.has_inverse i, closed),
    )
