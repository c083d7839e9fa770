-- ===== src/Group/Kept.antt =====
-- Group.cc: a permutation that commutes with negation is kept.
use sat_symmetry.Prelude.{
  ℕ, zero, suc, ◌+◌, ◌<◌, ◌≡◌, refl, arith, true, false, not, some, List, [], ◌∷◌, ◌++◌, ◌==◌,
  length, take, get_or, contains, All,
}
use sat_symmetry.Literal.{Literal, variable}
use sat_symmetry.Permutation.{
  Permutation, number_of_cycles, cycle, cycle_begin, image_of, is_trivial_image, back_or_zero,
}
use sat_symmetry.Permutation.Building.{is_open}
use sat_symmetry.Group.{
  Group, add_permutation, is_permutation_spurious, any_spurious, any_spurious_cycle,
  is_spurious_element,
}
use sat_symmetry.Group.Laws.{CommutesAt}
use sat_symmetry.Group.Watch.{add_permutation_lem}
use sat_symmetry.Group.Total.{All-take, All-drop}

element_commutes :
    (p : Permutation) (e : Literal) → CommutesAt p e → is_spurious_element p e ≡ false
unfolding is_spurious_element is_trivial_image image_of
element_commutes p e (x, here, there) = rw (here, there) (ground arith)

any_spurious-false :
    (p : Permutation) (es : List Literal) → All (CommutesAt p) es → any_spurious p es ≡ false
unfolding any_spurious
any_spurious-false p [] h = refl
any_spurious-false p (e ∷ es) h = rw (element_commutes p e h.0) (any_spurious-false p es h.1)

any_spurious_cycle-false :
    (p : Permutation) (n c : ℕ) → All (CommutesAt p) p.cycles → any_spurious_cycle p n c ≡ false
unfolding any_spurious_cycle cycle
any_spurious_cycle-false p zero c h = refl
any_spurious_cycle-false p (suc n) c h =
    let part = any_spurious-false p (cycle p c) (
      All-drop (CommutesAt p) (cycle_begin p c) (take (get_or p.cycles_lim c 0) p.cycles)
        (All-take (CommutesAt p) (get_or p.cycles_lim c 0) p.cycles h)) in
    rw part (any_spurious_cycle-false p n (c + 1) h)

pub All-contains :
    {P : Literal → Type 0} (es : List Literal)
    → ((e : Literal) → contains es e ≡ true → P e)
    → All P es
All-contains [] h = tt
All-contains (e ∷ es) h =
    (h e (ground arith), All-contains es (λ x there. h x (ground (arith, there))))

-- A permutation with no open cycle and a literal has a cycle.
has_cycle :
    (p : Permutation) (e : Literal)
    → is_open p ≡ false
    → contains p.cycles e ≡ true
    → (number_of_cycles p == 0) ≡ false
unfolding number_of_cycles
has_cycle p e closed there = by_lists p.cycles p.cycles_lim closed there
  where
    by_lists :
        (cycles : List Literal) (lims : List ℕ)
        → not (back_or_zero lims == length cycles) ≡ false
        → contains cycles e ≡ true
        → (length lims == 0) ≡ false
    by_lists [] lims closed there = cc
    by_lists (x ∷ xs) [] closed there = ground arith
    by_lists (x ∷ xs) (l ∷ ls) closed there = ground arith

pub add_permutation_kept :
    (p : Permutation) (g : Group) (e : Literal)
    → is_open p ≡ false
    → contains p.cycles e ≡ true
    → ((e : Literal) → contains p.cycles e ≡ true → CommutesAt p e)
    → All (λ (l : Literal). variable l < p.size) p.cycles
    → (g' : Group) × (add_permutation p g ≡ some g') × (g'.permutations ≡ g.permutations ++ p ∷ [])
unfolding is_permutation_spurious cycle
add_permutation_kept p g e closed there commutes inside =
    let fine : is_permutation_spurious p ≡ false =
      any_spurious_cycle-false p (number_of_cycles p) 0 (All-contains p.cycles commutes) in
    let (g', added, last, _) = add_permutation_lem p g (has_cycle p e closed there) fine (λ i le lt.
      All-drop (λ l. variable l < p.size) (cycle_begin p i)
        (take (get_or p.cycles_lim i 0) p.cycles)
        (All-take (λ l. variable l < p.size) (get_or p.cycles_lim i 0) p.cycles inside)) in
    (g', added, last)
