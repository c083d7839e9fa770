-- ===== src/Group/Laws.antt =====
-- Group.cc: which permutations a group keeps, and which of them watch a variable.
use sat_symmetry.Prelude.{
  ℕ, zero, suc, ◌+◌, ◌≤◌, ◌<◌, ◌≡◌, refl, arith, Bool, true, false, ◌||◌, Option, none, some, List,
  [], ◌∷◌, ◌==◌, length, get_or, get_elem?, contains, Bool-cases, inl, inr,
}
use sat_symmetry.Literal.{Literal, BooleanVariable, variable, negated}
use sat_symmetry.Permutation.{Permutation, number_of_cycles, cycle, image_of}
use sat_symmetry.Group.{
  Group, images_differ, is_spurious_element, any_spurious, any_spurious_cycle,
  is_permutation_spurious,
}

-- The literal has an image, and its negation has the negated image.
abbrev pub CommutesAt : Permutation → Literal → Type 0
CommutesAt p e =
    (x : Literal) × (image_of p e ≡ some x) × (image_of p (negated e) ≡ some (negated x))

images_agree :
    (x y : Option Literal)
    → images_differ x y ≡ false
    → (z : Literal) × (x ≡ some z) × (y ≡ some (negated z))
images_agree none y h = cc
images_agree (some x) none h = cc
images_agree (some x) (some y) h = (x, refl, ground arith)

element-CommutesAt :
    (p : Permutation) (e : Literal) → is_spurious_element p e ≡ false → CommutesAt p e
unfolding is_spurious_element
element-CommutesAt p e h = images_agree (image_of p e) (image_of p (negated e)) (ground arith)

any_spurious_none :
    (p : Permutation) (es : List Literal) (e : Literal)
    → any_spurious p es ≡ false
    → contains es e ≡ true
    → is_spurious_element p e ≡ false
unfolding any_spurious
any_spurious_none p [] e h m = cc
any_spurious_none p (x ∷ es) e h m = elim (Bool-cases (x == e)) [
  | inl same ↦ let eq : x ≡ e = ground arith in rw (← eq) (ground arith)
  | inr other ↦ any_spurious_none p es e (ground arith) (ground arith)
]

any_spurious_cycle_none :
    (p : Permutation) (n c k : ℕ)
    → any_spurious_cycle p n c ≡ false
    → c ≤ k
    → k < c + n
    → any_spurious p (cycle p k) ≡ false
unfolding any_spurious_cycle
any_spurious_cycle_none p zero c k h le lt = absurd (omega arith)
any_spurious_cycle_none p (suc n) c k h le lt = elim (Bool-cases (c == k)) [
  | inl same ↦ let eq : c ≡ k = ground arith in rw (← eq) (ground arith)
  | inr other ↦ any_spurious_cycle_none p n (c + 1) k (ground arith) (ground arith) (ground arith)
]

-- In a permutation that is not spurious each literal of a cycle has an image, and its negation has
-- the negated image.
pub is_permutation_spurious_lem :
    (p : Permutation) (c : ℕ) (e : Literal)
    → is_permutation_spurious p ≡ false
    → c < number_of_cycles p
    → contains (cycle p c) e ≡ true
    → CommutesAt p e
unfolding is_permutation_spurious
is_permutation_spurious_lem p c e h lt m = element-CommutesAt p e (
    any_spurious_none p (cycle p c) e
      (any_spurious_cycle_none p (number_of_cycles p) 0 c h (omega arith) (omega arith)) m)

-- Whether permutation `k` watches the variable.
abbrev pub watches : Group → BooleanVariable → ℕ → Bool
watches g v k = contains (get_or g.watchers v []) k

-- Whether the variable occurs in the literals, and in the cycles `c`, …, `c + n - 1`.
abbrev pub mentions : List Literal → BooleanVariable → Bool
mentions [] v = false
mentions (l ∷ ls) v = variable l == v || mentions ls v

abbrev pub cycles_mention : Permutation → ℕ → ℕ → BooleanVariable → Bool
cycles_mention p zero c v = false
cycles_mention p (suc n) c v = mentions (cycle p c) v || cycles_mention p n (c + 1) v

pub get_elem?-get_or {ℓ} :
    {A : Type ℓ} (xs : List A) (i : ℕ) (d x : A)
    → get_elem? xs i ≡ some x
    → (get_or xs i d ≡ x) × (i < length xs)
get_elem?-get_or [] i d x h = cc
get_elem?-get_or (y ∷ xs) zero d x h = (ground arith, omega arith)
get_elem?-get_or (y ∷ xs) (suc i) d x h =
    let (e, lt) = get_elem?-get_or xs i d x h in (e, omega arith)

pub get_elem?_inside {ℓ} :
    {A : Type ℓ} (xs : List A) (i : ℕ) → i < length xs → (x : A) × (get_elem? xs i ≡ some x)
get_elem?_inside [] i h = absurd (omega arith)
get_elem?_inside (y ∷ xs) zero h = (y, refl)
get_elem?_inside (y ∷ xs) (suc i) h = get_elem?_inside xs i (omega arith)
