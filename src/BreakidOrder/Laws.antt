-- ===== src/BreakidOrder/Laws.antt =====
-- Order.h, BreakIDOrder: the loop ends, and the order is well formed.
use mathlib.Core.Path.{subst}
use sat_symmetry.Prelude.{
  ℕ, zero, suc, ◌+◌, ◌≤◌, ◌<◌, ◌≡◌, ◌⊎◌, refl, sym, ◌∙◌, arith, true, false, not, ◌&&◌, none, some,
  List, [], ◌∷◌, ◌==◌, ltb, if◌then◌else◌, length, contains, All, inl, inr, Bool-cases,
  Option-cases, ◌>>=◌, ◌||◌, leb,
}
use sat_symmetry.Literal.{Literal, BooleanVariable, literal, variable, is_positive}
use sat_symmetry.Literal.Laws.{variable-literal, literal-variable}
use sat_symmetry.Permutation.{Permutation, support, is_trivial_image}
use sat_symmetry.Order.{Order, ValueMode, new_order, contains_literal, add}
use sat_symmetry.Order.Laws.{IsOrder, new_order-IsOrder, add-IsOrder, contains_literal_lem}
use sat_symmetry.Order.Placed.{is_placed, is_placed-add}
use sat_symmetry.Group.{Group}
use sat_symmetry.Orbits.{Classes, members}
use sat_symmetry.Orbits.Classes.{assign-Assigned}
use sat_symmetry.BreakidOrder.{
  count_positive, occurence_generators, Choice, consider, consider_orbit, consider_orbits,
  keep_trivial, rounds, complete, breakid_order,
}

-- The image is trivial exactly outside of the support.
abbrev pub IsSupported : Permutation → Type 0
IsSupported p = (l : Literal) → is_trivial_image p l ≡ not (contains (support p) l)

count_positive_none :
    (v : BooleanVariable) (ls : List Literal)
    → contains ls (literal v true) ≡ false
    → count_positive v ls ≡ 0
unfolding count_positive
count_positive_none v [] h = refl
count_positive_none v (l ∷ ls) h = elim (Bool-cases (is_positive l && variable l == v)) [
  | inl counted ↦
      let e : variable l ≡ v = ground arith in
      let positive : is_positive l ≡ true = ground arith in
      let whole : l ≡ literal v true = rw (e, positive) at (sym (literal-variable l)) in
      absurd (ground arith)
  | inr other ↦ rw other (count_positive_none v ls (ground arith))
]

-- The permutations that all leave a variable where it is.
abbrev pub AllTrivial : BooleanVariable → List Permutation → Type 0
AllTrivial v ps = All (λ (p : Permutation). is_trivial_image p (literal v true) ≡ true) ps

occurence_generators_none :
    (v : BooleanVariable) (ps : List Permutation)
    → All IsSupported ps
    → AllTrivial v ps
    → occurence_generators ps v ≡ 0
unfolding occurence_generators
occurence_generators_none v [] h t = refl
occurence_generators_none v (p ∷ ps) h t = omega (
  arith,
  count_positive_none v (support p) (ground (arith, h.0 (literal v true), t.0)),
  occurence_generators_none v ps h.1 t.1,
)

-- What is chosen occurs.
abbrev Occurs : (BooleanVariable → ℕ) → Choice → Type 0
Occurs occ c = (v : BooleanVariable) → c.next ≡ some v → (occ v == 0) ≡ false

module _ (occ : BooleanVariable → ℕ) where
  consider-Occurs :
      (size : ℕ) (v : BooleanVariable) (c : Choice)
      → Occurs occ c
      → Occurs occ (consider occ size v c)
  unfolding consider
  consider-Occurs size v c h w e = elim (Bool-cases (occ v == 0)) [
    | inl never ↦ h w (rw never at e)
    | inr often ↦ ground (arith, h w)
  ]

  consider_orbit-Occurs :
      (size : ℕ) (vs : List BooleanVariable) (c : Choice)
      → Occurs occ c
      → Occurs occ (consider_orbit occ size vs c)
  unfolding consider_orbit
  consider_orbit-Occurs size [] c h = h
  consider_orbit-Occurs size (v ∷ vs) c h =
      consider_orbit-Occurs size vs (consider occ size v c) (consider-Occurs size v c h)

  consider_orbits-Occurs :
      (orbits : List (List BooleanVariable)) (c : Choice)
      → Occurs occ c
      → Occurs occ (consider_orbits occ orbits c)
  unfolding consider_orbits
  consider_orbits-Occurs [] c h = h
  consider_orbits-Occurs (orbit ∷ rest) c h =
      consider_orbits-Occurs rest
        (if ltb (length orbit) c.largest then c else consider_orbit occ (length orbit) orbit c)
        (elim (Bool-cases (ltb (length orbit) c.largest)) [
          | inl smaller ↦ rw smaller h
          | inr larger ↦ rw larger (consider_orbit-Occurs (length orbit) orbit c h)
        ])

-- Permutations are taken away unless all of them leave the variable where it is.
keep_trivial_fewer :
    (v : BooleanVariable) (ps : List Permutation)
    → (length (keep_trivial (literal v true) ps) ≤ length ps)
      × ((length (keep_trivial (literal v true) ps) < length ps) ⊎ AllTrivial v ps)
unfolding keep_trivial
keep_trivial_fewer v [] = (omega arith, inr tt)
keep_trivial_fewer v (p ∷ ps) =
    let (le, fewer) = keep_trivial_fewer v ps in
    elim (Bool-cases (is_trivial_image p (literal v true))) [
      | inl trivial ↦
          rw trivial
            (omega arith, elim fewer [ inl lt ↦ inl (omega arith) | inr all ↦ inr (refl, all) ])
      | inr moved ↦ rw moved (omega arith, inl (omega arith))
    ]

module _ (P : Permutation → Type 0) where
  All-keep_trivial : (l : Literal) (ps : List Permutation) → All P ps → All P (keep_trivial l ps)
  unfolding keep_trivial
  All-keep_trivial l [] h = tt
  All-keep_trivial l (p ∷ ps) h = elim (Bool-cases (is_trivial_image p l)) [
    | inl trivial ↦ rw trivial (h.0, All-keep_trivial l ps h.1)
    | inr moved ↦ rw moved (All-keep_trivial l ps h.1)
  ]

keep_trivial-AllTrivial :
    (v : BooleanVariable) (ps : List Permutation) → AllTrivial v (keep_trivial (literal v true) ps)
unfolding keep_trivial
keep_trivial-AllTrivial v [] = tt
keep_trivial-AllTrivial v (p ∷ ps) = elim (Bool-cases (is_trivial_image p (literal v true))) [
  | inl trivial ↦ rw trivial (trivial, keep_trivial-AllTrivial v ps)
  | inr moved ↦ rw moved (keep_trivial-AllTrivial v ps)
]

module _ (walk : Classes → Classes) where
  rounds-IsOrder :
      (fuel : ℕ) (ps : List Permutation) (o : Order)
      → length ps ≤ fuel
      → All IsSupported ps
      → IsOrder o
      → ((v : BooleanVariable) → is_placed o v ≡ true → AllTrivial v ps)
      → (o' : Order) × (rounds walk fuel ps o ≡ some o') × IsOrder o'
  unfolding rounds
  rounds-IsOrder zero [] o enough sup h free = (o, refl, h)
  rounds-IsOrder (suc fuel) [] o enough sup h free = (o, refl, h)
  rounds-IsOrder zero (p ∷ ps) o enough sup h free = absurd (omega arith)
  rounds-IsOrder (suc fuel) (p ∷ ps) o enough sup h free =
      let (s, classes, assigned, _) = assign-Assigned walk (p ∷ ps) in
      let occ = occurence_generators (p ∷ ps) in
      let orbits = members (walk classes) in
      let first : Choice = record { largest = 0; next = none } in
      let occurs = consider_orbits-Occurs occ orbits first (λ v e. cc) in
      elim (Option-cases (consider_orbits occ orbits first).next) [
        | inl error ↦ (o, rw (assigned, ◌>>=◌, error), h)
        | inr (v, chosen) ↦
            let l = literal v true in
            let often = occurs v chosen in
            let never : AllTrivial v (p ∷ ps) → occ v ≡ 0 =
              occurence_generators_none v (p ∷ ps) sup in
            let ps' = keep_trivial l (p ∷ ps) in
            let new : contains_literal o l ≡ false =
              contains_literal_lem o l h
              ∙ rw (variable-literal v true) (elim (Bool-cases (is_placed o v)) [
                | inl placed ↦ let z = never (free v placed) in absurd (ground arith)
                | inr fresh ↦ fresh
              ]) in
            let fewer : length ps' ≤ fuel = elim ((keep_trivial_fewer v (p ∷ ps)).1) [
              | inl lt ↦ omega arith
              | inr all ↦ let z = never all in absurd (ground arith)
            ] in
            let (o', made, h') =
              rounds-IsOrder fuel ps' (add l o) fewer (All-keep_trivial IsSupported l (p ∷ ps) sup)
                (add-IsOrder l o new h)
                λ w placed. elim (Bool-cases (v == w)) [
                  | inl same ↦
                      let e : v ≡ w = ground arith in
                      subst (λ x. AllTrivial x ps') e (keep_trivial-AllTrivial v (p ∷ ps))
                  | inr other ↦
                      All-keep_trivial
                        (λ (q : Permutation). is_trivial_image q (literal w true) ≡ true) l (p ∷ ps)
                        (free w (ground (arith, is_placed-add o v w)))
                ] in
            (o', rw (assigned, ◌>>=◌, chosen, made), h')
      ]

abbrev with_place : BooleanVariable → Order → Order
with_place v o = if contains_literal o (literal v true) then o else add (literal v true) o

with_place-IsOrder :
    (v : BooleanVariable) (o : Order)
    → IsOrder o
    → IsOrder (with_place v o)
      × ((w : BooleanVariable) → is_placed (with_place v o) w ≡ (is_placed o w || v == w))
with_place-IsOrder v o h =
    let l = literal v true in
    let known : contains_literal o l ≡ is_placed o v =
      contains_literal_lem o l h ∙ rw (variable-literal v true) in
    elim (Bool-cases (is_placed o v)) [
      | inl placed ↦
          rw (known, placed)
            (
              h,
              λ w. elim (Bool-cases (v == w)) [
                | inl same ↦ let e : v ≡ w = ground arith in rw (same, ← e, placed)
                | inr other ↦ ground arith
              ],
            )
      | inr fresh ↦ rw (known, fresh) (add-IsOrder l o (known ∙ fresh) h, is_placed-add o v)
    ]

complete-IsOrder :
    (n v : ℕ) (o : Order)
    → IsOrder o
    → IsOrder (complete n v o)
      × ((w : BooleanVariable)
          → is_placed (complete n v o) w ≡ (is_placed o w || (leb v w && ltb w (v + n))))
unfolding complete
complete-IsOrder zero v o h = (h, λ w. ground arith)
complete-IsOrder (suc n) v o h =
    let (h1, placed1) = with_place-IsOrder v o h in
    let (h', all) = complete-IsOrder n (v + 1) (with_place v o) h1 in
    (h', λ w. ground (arith, all w, placed1 w))

-- Where the image of a permutation is trivial exactly outside of its support, the loop ends within
-- its fuel and gives an order that is well formed and has a place for every variable of the
-- problem, in whatever order the orbits are walked over.
pub breakid_order-IsOrder :
    (walk : Classes → Classes) (num_vars : ℕ) (mode : ValueMode) (g : Group)
    → All IsSupported g.permutations
    → (o : Order) × (breakid_order walk num_vars mode g ≡ some o)
      × IsOrder o
      × ((v : BooleanVariable) → v < num_vars → is_placed o v ≡ true)
unfolding breakid_order
breakid_order-IsOrder walk num_vars mode g sup =
    let start = new_order num_vars mode in
    let (o, made, h) =
      rounds-IsOrder walk (length g.permutations) g.permutations start (omega arith) sup
        (new_order-IsOrder num_vars mode) (λ v placed. unfold new_order in cc) in
    let (h', all) = complete-IsOrder num_vars 0 o h in
    (complete num_vars 0 o, rw made, h', λ v lt. ground (arith, all v))
