-- ===== src/CosyManager/Walk.antt =====
-- CosyManager.cc: the walks that change each status on a list of indexes once.
use sat_symmetry.Prelude.{
  ℕ, ◌<◌, ◌≡◌, refl, ◌∙◌, arith, true, false, Option, none, some, List, [], ◌∷◌, ◌==◌,
  if◌then◌else◌, get_elem?, get_or, set, length, length-set, get_or-set, contains, Bool-cases, inl,
  inr, ◌>>=◌,
}
use sat_symmetry.Literal.{Literal}
use sat_symmetry.Group.Laws.{get_elem?-get_or, get_elem?_inside}
use sat_symmetry.CosyStatus.{CosyStatus, new_status, add_lookup_literal}
use sat_symmetry.CosyStatus
use sat_symmetry.CosyManager.{cancel_statuses, add_lookup_to}

pub some_of {ℓ κ} :
    {A : Type ℓ} {B : Type κ} (r : Option A) (f : A → Option B) (b : B)
    → (r >>= f) ≡ some b
    → (a : A) × (r ≡ some a) × (f a ≡ some b)
some_of none f b h = cc
some_of (some a) f b h = (a, refl, h)

pub some_injective {ℓ} : {A : Type ℓ} (a b : A) → some a ≡ some b → a ≡ b
some_injective a b h = cc

-- No index stands twice.
abbrev pub NoRepeat : List ℕ → Type 0
NoRepeat [] = Unit {0}
NoRepeat (i ∷ is) = (contains is i ≡ false) × NoRepeat is

-- Status `i`; a status like a new one stands for what is out of range.
abbrev pub status : List CosyStatus → ℕ → CosyStatus
status ss i = get_or ss i new_status

-- A status that comes later in the walk is not changed with status `k`.
pub status_apart :
    (k : ℕ) (rest : List ℕ) (ss : List CosyStatus) (s' : CosyStatus) (i : ℕ)
    → contains rest k ≡ false
    → k < length ss
    → contains rest i ≡ true
    → status (set ss k s') i ≡ status ss i
status_apart k rest ss s' i apart lt m = elim (Bool-cases (k == i)) [
  | inl same ↦ let e : k ≡ i = ground arith in absurd (ground arith)
  | inr other ↦ get_or-set ss k i s' new_status lt ∙ ground arith
]

by_found {ℓ κ} :
    {A : Type ℓ} {B : Type κ} {f g : A → Option B} (r : Option A)
    → ((a : A) → f a ≡ g a)
    → (r >>= f) ≡ (r >>= g)
by_found none same = refl
by_found (some a) same = same a

module _ (f : CosyStatus → CosyStatus) where
  each : List ℕ → List CosyStatus → Option (List CosyStatus)
  each [] ss = some ss
  each (k ∷ is) ss = do s ← get_elem? ss k; each is (set ss k (f s))

  each_lem :
      (is : List ℕ) (ss : List CosyStatus)
      → NoRepeat is
      → ((i : ℕ) → contains is i ≡ true → i < length ss)
      → (ss' : List CosyStatus) × (each is ss ≡ some ss')
        × (length ss' ≡ length ss)
        × ((i : ℕ) → status ss' i ≡ (if contains is i then f (status ss i) else status ss i))
  unfolding each
  each_lem [] ss apart inside = (ss, refl, refl, λ i. refl)
  each_lem (k ∷ is) ss apart inside =
      let lt = inside k (ground arith) in
      let (s, at_k) = get_elem?_inside ss k lt in
      let value = (get_elem?-get_or ss k new_status s at_k).0 in
      let size = length-set ss k (f s) in
      let (ss', made, size', said) =
        each_lem is (set ss k (f s)) apart.1 (λ i m. rw size (inside i (ground arith))) in
      (
        ss',
        rw at_k made,
        size' ∙ size,
        λ i. elim (Bool-cases (k == i)) [
          | inl same ↦
              let e : k ≡ i = ground arith in
              said i
              ∙ rw (← e, apart.0, get_or-set ss k k (f s) new_status lt, value) (ground arith)
          | inr other ↦ said i ∙ rw (get_or-set ss k i (f s) new_status lt, other) (ground arith)
        ],
      )

cancel_statuses-each :
    (l : Literal) (is : List ℕ) (ss : List CosyStatus)
    → cancel_statuses l is ss ≡ each (CosyStatus.update_cancel l) is ss
unfolding cancel_statuses each
cancel_statuses-each l [] ss = refl
cancel_statuses-each l (k ∷ is) ss =
    by_found (get_elem? ss k)
      λ s. cancel_statuses-each l is (set ss k (CosyStatus.update_cancel l s))

add_lookup_to-each :
    (l : Literal) (is : List ℕ) (ss : List CosyStatus)
    → add_lookup_to l is ss ≡ each (add_lookup_literal l) is ss
unfolding add_lookup_to each
add_lookup_to-each l [] ss = refl
add_lookup_to-each l (k ∷ is) ss =
    by_found (get_elem? ss k) λ s. add_lookup_to-each l is (set ss k (add_lookup_literal l s))

-- The walk of `updateCancel`: each status on it is cancelled once.
pub cancel_statuses_lem :
    (l : Literal) (is : List ℕ) (ss : List CosyStatus)
    → NoRepeat is
    → ((i : ℕ) → contains is i ≡ true → i < length ss)
    → (ss' : List CosyStatus) × (cancel_statuses l is ss ≡ some ss')
      × (length ss' ≡ length ss)
      × ((i : ℕ)
          → status ss' i
            ≡ (if contains is i then CosyStatus.update_cancel l (status ss i) else status ss i))
cancel_statuses_lem l is ss apart inside =
    rw (cancel_statuses-each l is ss) (each_lem (CosyStatus.update_cancel l) is ss apart inside)

-- The walk of `defineOrder` for one literal: each status on it gets the literal.
pub add_lookup_to_lem :
    (l : Literal) (is : List ℕ) (ss : List CosyStatus)
    → NoRepeat is
    → ((i : ℕ) → contains is i ≡ true → i < length ss)
    → (ss' : List CosyStatus) × (add_lookup_to l is ss ≡ some ss')
      × (length ss' ≡ length ss)
      × ((i : ℕ)
          → status ss' i
            ≡ (if contains is i then add_lookup_literal l (status ss i) else status ss i))
add_lookup_to_lem l is ss apart inside =
    rw (add_lookup_to-each l is ss) (each_lem (add_lookup_literal l) is ss apart inside)
