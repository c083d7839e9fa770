-- ===== src/Group/Watch.antt =====
-- Group.cc, addPermutation: the watchers that a permutation gets.
use sat_symmetry.Prelude.{
  ℕ, zero, suc, ◌+◌, ◌≤◌, ◌<◌, ◌≡◌, refl, ap, ◌∙◌, arith, Bool, false, ◌||◌, ◌&&◌, some, List, [],
  ◌∷◌, ◌++◌, ◌==◌, ltb, if◌then◌else◌, length, get_or, resize, set, insert_new, contains,
  contains-insert_new, Bool-cases, inl, inr, get_or-set, length-set, length-resize, All,
}
use sat_symmetry.Literal.{Literal, BooleanVariable, variable, negated}
use sat_symmetry.Permutation.{Permutation, number_of_cycles, cycle, last_element_in_cycle}
use sat_symmetry.Group.{
  Group, is_permutation_spurious, watch_in, watch_image, watch_cycle, watch_cycles, with_room,
  add_permutation, store_permutation,
}
use sat_symmetry.Group.Laws.{watches, mentions, cycles_mention, get_elem?-get_or, get_elem?_inside}

-- The variables of the literals have watchers.
abbrev pub Inside : Group → List Literal → Type 0
Inside g ls = All (λ (l : Literal). variable l < length g.watchers) ls

abbrev pub CyclesInside : ℕ → Permutation → ℕ → ℕ → Type 0
CyclesInside room p n c =
    (k : ℕ) → c ≤ k → k < c + n → All (λ (l : Literal). variable l < room) (cycle p k)

-- What adding watchers leaves: the number of watchers and the permutations.
abbrev pub SameShape : Group → Group → Type 0
SameShape g g' = (length g'.watchers ≡ length g.watchers) × (g'.permutations ≡ g.permutations)

watch_in_lem :
    (k : ℕ) (v : BooleanVariable) (ws : List (List ℕ))
    → v < length ws
    → (ws' : List (List ℕ)) × (watch_in k v ws ≡ some ws')
      × (length ws' ≡ length ws)
      × ((w j : ℕ)
          → contains (get_or ws' w []) j ≡ (contains (get_or ws w []) j || v == w && k == j))
watch_in_lem k v ws h =
    let (old, found) = get_elem?_inside ws v h in
    let (value, _) = get_elem?-get_or ws v [] old found in
    (
      set ws v (insert_new k old),
      rw found,
      length-set ws v (insert_new k old),
      λ w j. elim (Bool-cases (v == w)) [
        | inl same ↦
            let e : v ≡ w = ground arith in
            rw (get_or-set ws v w (insert_new k old) [] h, same, ← e, value)
              (ground (arith, contains-insert_new k j old))
        | inr other ↦ rw (get_or-set ws v w (insert_new k old) [] h, other) (ground arith)
      ],
    )

watch_image_lem :
    (k : ℕ) (element image : Literal) (g : Group)
    → variable image < length g.watchers
    → (g' : Group) × (watch_image k element image g ≡ some g')
      × SameShape g g'
      × ((w j : ℕ) → watches g' w j ≡ (watches g w j || variable image == w && k == j))
unfolding watch_image
watch_image_lem k element image g h =
    let (ws, made, size, said) = watch_in_lem k (variable image) g.watchers h in
    (
      record g {
        watchers = ws;
        symmetric = insert_new (variable image) g.symmetric;
        inverting =
            if element == negated image
            then insert_new (variable image) g.inverting
            else g.inverting;
      },
      rw made,
      (size, refl),
      said,
    )

watch_cycle_lem :
    (k : ℕ) (images : List Literal) (element : Literal) (g : Group)
    → Inside g images
    → (g' : Group) × (watch_cycle k element images g ≡ some g')
      × SameShape g g'
      × ((w j : ℕ) → watches g' w j ≡ (watches g w j || mentions images w && k == j))
unfolding watch_cycle
watch_cycle_lem k [] element g h = (g, refl, (refl, refl), λ w j. ground arith)
watch_cycle_lem k (x ∷ xs) element g h =
    let (g', made, (size, kept), said) = watch_image_lem k element x g h.0 in
    let (g'', made', (size', kept'), said') = watch_cycle_lem k xs x g' (rw size h.1) in
    (g'', rw made made', (size' ∙ size, kept' ∙ kept), λ w j. ground (arith, said w j, said' w j))

watch_cycles_lem :
    (k : ℕ) (p : Permutation) (n c : ℕ) (g : Group)
    → CyclesInside (length g.watchers) p n c
    → (g' : Group) × (watch_cycles k p n c g ≡ some g')
      × SameShape g g'
      × ((w j : ℕ) → watches g' w j ≡ (watches g w j || cycles_mention p n c w && k == j))
unfolding watch_cycles
watch_cycles_lem k p zero c g h = (g, refl, (refl, refl), λ w j. ground arith)
watch_cycles_lem k p (suc n) c g h =
    let (g', made, (size, kept), said) =
      watch_cycle_lem k (cycle p c) (last_element_in_cycle p c) g
        (h c (omega arith) (omega arith)) in
    let (g'', made', (size', kept'), said') =
      watch_cycles_lem k p n (c + 1) g' (rw size (λ i le lt. h i (omega arith) (omega arith))) in
    (g'', rw made made', (size' ∙ size, kept' ∙ kept), λ w j. ground (arith, said w j, said' w j))

pub get_or-grow {ℓ} :
    {A : Type ℓ} (n : ℕ) (d : A) (xs : List A) (i : ℕ)
    → length xs ≤ n
    → get_or (resize n d xs) i d ≡ get_or xs i d
get_or-grow zero d [] i h = refl
get_or-grow zero d (x ∷ xs) i h = absurd (omega arith)
get_or-grow (suc n) d [] zero h = refl
get_or-grow (suc n) d [] (suc i) h = get_or-grow n d [] i (omega arith)
get_or-grow (suc n) d (x ∷ xs) zero h = refl
get_or-grow (suc n) d (x ∷ xs) (suc i) h = get_or-grow n d xs i (omega arith)

with_room_lem :
    (p : Permutation) (g : Group)
    → (p.size ≤ length (with_room p g).watchers)
      × ((with_room p g).permutations ≡ g.permutations)
      × ((w j : ℕ) → watches (with_room p g) w j ≡ watches g w j)
with_room_lem p g = elim (Bool-cases (ltb (length g.watchers) p.size)) [
  | inl small ↦ (
    rw small (omega (arith, length-resize p.size [] g.watchers)),
    rw small,
    λ w j. rw small (rw (get_or-grow p.size [] g.watchers w (ground arith))),
  )
  | inr large ↦ (rw large (ground arith), rw large, λ w j. rw large)
]

All-wider :
    (a b : ℕ) (ls : List Literal)
    → a ≤ b
    → All (λ (l : Literal). variable l < a) ls
    → All (λ (l : Literal). variable l < b) ls
All-wider a b [] h k = tt
All-wider a b (l ∷ ls) h k = (omega (arith, k.0), All-wider a b ls h k.1)

-- A permutation that has a cycle, is not spurious, and whose variables are below its size is
-- added: it is stored last and watches exactly the variables of its cycles, and every other
-- permutation watches what it did.
pub add_permutation_lem :
    (p : Permutation) (g : Group)
    → (number_of_cycles p == 0) ≡ false
    → is_permutation_spurious p ≡ false
    → CyclesInside p.size p (number_of_cycles p) 0
    → (g' : Group) × (add_permutation p g ≡ some g')
      × (g'.permutations ≡ g.permutations ++ p ∷ [])
      × ((w j : ℕ)
          → watches g' w j ≡ (
              watches g w j
              || cycles_mention p (number_of_cycles p) 0 w && length g.permutations == j))
unfolding add_permutation store_permutation
add_permutation_lem p g cycles commutes inside =
    let (room, kept, same) = with_room_lem p g in
    let (g', made, (size, kept'), said) =
      watch_cycles_lem (length g.permutations) p (number_of_cycles p) 0 (with_room p g)
        (λ i le lt. All-wider p.size _ (cycle p i) room (inside i le lt)) in
    (
      record g' { permutations = g'.permutations ++ p ∷ [] },
      rw (cycles, commutes, made),
      ap (λ (ps : List Permutation). ps ++ p ∷ []) (kept' ∙ kept),
      λ w j.
          said w j
          ∙ ap
              (λ (b : Bool).
                b || cycles_mention p (number_of_cycles p) 0 w && length g.permutations == j)
              (same w j),
    )
