-- ===== src/Group/Total.antt =====
-- Group.cc: a permutation of variables in range is added without an index outside of the watchers.
use sat_symmetry.Prelude.{
  ℕ, zero, suc, ◌<◌, ◌≡◌, refl, ◌∙◌, arith, some, List, [], ◌∷◌, ◌==◌, take, drop, get_or, All,
  All-append, Bool-cases, inl, inr,
}
use sat_symmetry.Literal.{Literal, variable}
use sat_symmetry.Permutation.{
  Permutation, number_of_cycles, cycle, cycle_begin, close_current_cycle, add_all,
  add_to_current_cycle,
}
use sat_symmetry.Permutation.Cycles.{add_cycle, add_cycles, add_all_lists, close_cycles}
use sat_symmetry.Group.{Group, add_permutation, is_permutation_spurious}
use sat_symmetry.Group.Watch.{add_permutation_lem}

module _ (P : Literal → Type 0) where
  pub All-take : (n : ℕ) (ls : List Literal) → All P ls → All P (take n ls)
  All-take zero ls h = tt
  All-take (suc n) [] h = tt
  All-take (suc n) (l ∷ ls) h = (h.0, All-take n ls h.1)

  pub All-drop : (n : ℕ) (ls : List Literal) → All P ls → All P (drop n ls)
  All-drop zero ls h = h
  All-drop (suc n) [] h = tt
  All-drop (suc n) (l ∷ ls) h = All-drop n ls h.1

  pub All-add_cycles :
      (cs : List (List Literal)) (p : Permutation)
      → All P p.cycles
      → All (All P) cs
      → All P (add_cycles cs p).cycles
  All-add_cycles [] p h hs = h
  All-add_cycles (c ∷ cs) p h hs =
      All-add_cycles cs (add_cycle c p)
        (rw (close_cycles (add_all c p), (add_all_lists c p).0) (All-append P p.cycles c h hs.0))
        hs.1

-- The size is that of the beginning.
size-add_all : (ls : List Literal) (p : Permutation) → (add_all ls p).size ≡ p.size
unfolding add_all add_to_current_cycle
size-add_all [] p = refl
size-add_all (l ∷ ls) p = size-add_all ls (add_to_current_cycle l p) ∙ ground arith

pub size-add_cycle : (c : List Literal) (p : Permutation) → (add_cycle c p).size ≡ p.size
unfolding close_current_cycle
size-add_cycle c p = ground (arith, size-add_all c p)

pub size-add_cycles : (cs : List (List Literal)) (p : Permutation) → (add_cycles cs p).size ≡ p.size
size-add_cycles [] p = refl
size-add_cycles (c ∷ cs) p = size-add_cycles cs (add_cycle c p) ∙ size-add_cycle c p

pub add_permutation_total :
    (p : Permutation) (g : Group)
    → All (λ l. variable l < p.size) p.cycles
    → (g' : Group) × (add_permutation p g ≡ some g')
unfolding add_permutation cycle
add_permutation_total p g h = elim (Bool-cases (number_of_cycles p == 0)) [
  | inl empty ↦ (g, rw empty)
  | inr cycles ↦ elim (Bool-cases (is_permutation_spurious p)) [
    | inl spurious ↦ (g, rw (cycles, spurious))
    | inr commutes ↦
        let (g', made, _, _) = add_permutation_lem p g cycles commutes (λ i le lt.
          All-drop (λ l. variable l < p.size) (cycle_begin p i)
            (take (get_or p.cycles_lim i 0) p.cycles)
            (All-take (λ l. variable l < p.size) (get_or p.cycles_lim i 0) p.cycles h)) in
        (g', made)
  ]
]
