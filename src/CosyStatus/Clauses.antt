-- ===== src/CosyStatus/Clauses.antt =====
-- CosyStatus.cc, the clauses: which literals they hold.
use mathlib.Core.Path.{subst}
use native.Mathlib.Decide.{ℕ_discrete}
use sat_symmetry.Prelude.{
  ℕ, zero, suc, ◌+◌, ◌≤◌, ◌<◌, ◌≡◌, refl, arith, true, false, some, List, [], ◌∷◌, ◌++◌, length,
  All, All-append, All-get_or, inl, inr, ◌==◌, Bool-cases, contains, contains-append,
}
use sat_symmetry.Literal.{Literal, variable}
use sat_symmetry.Assignment.{Assignment, get_false_literal_for_assigned_variable}
use sat_symmetry.Permutation.{Permutation}
use sat_symmetry.Order.{Order}
use sat_symmetry.CosyStatus.{CosyStatus, lookup_at, push_new, swap_first, push_pairs}
use sat_symmetry.CosyStatus.Lookup.{twin, IsLookup}

-- No literal stands twice.
abbrev pub Distinct : List Literal → Type 0
Distinct [] = Unit {0}
Distinct (x ∷ xs) = (contains xs x ≡ false) × Distinct xs

module _ {ℓ} (P : Literal → Type ℓ) where
  All-contains : (xs : List Literal) (x : Literal) → All P xs → contains xs x ≡ true → P x
  All-contains [] x h e = cc
  All-contains (y ∷ xs) x h e = elim (Bool-cases (y == x)) [
    | inl same ↦ let e' : y ≡ x = ground arith in subst P e' h.0
    | inr other ↦ All-contains xs x h.1 (ground arith)
  ]

  All-append_left : (xs ys : List Literal) → All P (xs ++ ys) → All P xs × All P ys
  All-append_left [] ys h = (tt, h)
  All-append_left (x ∷ xs) ys h =
      let (front, back) = All-append_left xs ys h.1 in ((h.0, front), back)

  -- All of a list with one more literal, and all of the list and the literal.
  All-push_new : (l : Literal) (ls : List Literal) → All P (push_new l ls) → P l × All P ls
  All-push_new l ls h = elim (Bool-cases (contains ls l)) [
    | inl old ↦ let h' = rw old at h in (All-contains ls l h' old, h')
    | inr new ↦ let (front, back) = All-append_left ls (l ∷ []) (rw new at h) in (back.0, front)
  ]

  push_new-All : (l : Literal) (ls : List Literal) → P l → All P ls → All P (push_new l ls)
  push_new-All l ls p h = elim (Bool-cases (contains ls l)) [
    | inl old ↦ rw old h
    | inr new ↦ rw new (All-append P ls (l ∷ []) h (p, tt))
  ]

  pub All-swap_first : (ls out : List Literal) → swap_first ls ≡ some out → All P out → All P ls
  All-swap_first [] out e h = cc
  All-swap_first (x ∷ []) out e h = cc
  All-swap_first (x ∷ y ∷ ls) out e h =
      let same : out ≡ y ∷ x ∷ ls = cc in let h' = subst (All P) same h in (h'.1.0, (h'.0, h'.1.1))

  pub swap_first-All : (ls out : List Literal) → swap_first ls ≡ some out → All P ls → All P out
  swap_first-All [] out e h = cc
  swap_first-All (x ∷ []) out e h = cc
  swap_first-All (x ∷ y ∷ ls) out e h =
      let same : y ∷ x ∷ ls ≡ out = cc in subst (All P) same (h.1.0, (h.0, h.1.1))

Distinct-append :
    (xs : List Literal) (l : Literal)
    → contains xs l ≡ false
    → Distinct xs
    → Distinct (xs ++ l ∷ [])
Distinct-append [] l new h = (refl, tt)
Distinct-append (x ∷ xs) l new h =
    (ground (arith, contains-append xs (l ∷ []) x, h.0), Distinct-append xs l (ground arith) h.1)

push_new-Distinct : (l : Literal) (ls : List Literal) → Distinct ls → Distinct (push_new l ls)
push_new-Distinct l ls h = elim (Bool-cases (contains ls l)) [
  | inl old ↦ rw old h
  | inr new ↦ rw new (Distinct-append ls l new h)
]

pub swap_first-Distinct :
    (ls out : List Literal) → swap_first ls ≡ some out → Distinct ls → Distinct out
swap_first-Distinct [] out e h = cc
swap_first-Distinct (x ∷ []) out e h = cc
swap_first-Distinct (x ∷ y ∷ ls) out e h =
    let same : y ∷ x ∷ ls ≡ out = cc in subst Distinct same (ground arith, (ground arith, h.1.1))

module _ (p : Permutation) (a : Assignment) (s : CosyStatus) where
  -- The false literal of a variable.
  abbrev pub false_of : Literal → Literal
  false_of l = get_false_literal_for_assigned_variable a (variable l)

  abbrev pub Pairs {ℓ} : (Literal → Type ℓ) → ℕ → ℕ → Type ℓ
  Pairs P i n =
      (j : ℕ)
      → i ≤ j
      → j < i + n
      → P (false_of (lookup_at s j)) × P (false_of (twin p (lookup_at s j)))

  abbrev grown : ℕ → List Literal → List Literal
  grown i ls = push_new (false_of (twin p (lookup_at s i))) (push_new (false_of (lookup_at s i)) ls)

  module _ (o : Order) (lookups : All (IsLookup p o) s.lookup_order) where
    push_pairs_step :
        (n i : ℕ) (ls : List Literal)
        → i < length s.lookup_order
        → push_pairs p a (suc n) i s ls ≡ push_pairs p a n (i + 1) s (grown i ls)
    unfolding push_pairs
    push_pairs_step n i ls lt = rw (All-get_or (IsLookup p o) s.lookup_order i 0 lookups lt).paired

    -- The loop succeeds, adds the two literals of each pair, keeps the first literal, and leaves
    -- no literal twice.
    pub push_pairs_total :
        (n i : ℕ) (ls : List Literal)
        → i + n ≤ length s.lookup_order
        → (out : List Literal) × (push_pairs p a n i s ls ≡ some out)
    unfolding push_pairs
    push_pairs_total zero i ls b = (ls, refl)
    push_pairs_total (suc n) i ls b =
        rw (push_pairs_step n i ls (omega arith))
          (push_pairs_total n (i + 1) (grown i ls) (omega arith))

    pub push_pairs-All {ℓ} :
        (P : Literal → Type ℓ) (n i : ℕ) (ls out : List Literal)
        → i + n ≤ length s.lookup_order
        → push_pairs p a n i s ls ≡ some out
        → All P ls
        → Pairs P i n
        → All P out
    unfolding push_pairs
    push_pairs-All P zero i ls out b said h pairs =
        let e : ls ≡ out = ground arith in subst (All P) e h
    push_pairs-All P (suc n) i ls out b said h pairs =
        let (x, y) = pairs i (omega arith) (omega arith) in
        push_pairs-All P n (i + 1) (grown i ls) out (omega arith)
          (rw (push_pairs_step n i ls (omega arith)) at said)
          (push_new-All P _ _ y (push_new-All P _ ls x h))
          (λ j le lt. pairs j (omega arith) (omega arith))

    pub All-push_pairs {ℓ} :
        (P : Literal → Type ℓ) (n i : ℕ) (ls out : List Literal)
        → i + n ≤ length s.lookup_order
        → push_pairs p a n i s ls ≡ some out
        → All P out
        → All P ls × Pairs P i n
    unfolding push_pairs
    All-push_pairs P zero i ls out b said h =
        let e : out ≡ ls = ground arith in (subst (All P) e h, λ j le lt. absurd (omega arith))
    All-push_pairs P (suc n) i ls out b said h =
        let (rest, pairs) =
          All-push_pairs P n (i + 1) (grown i ls) out (omega arith)
            (rw (push_pairs_step n i ls (omega arith)) at said) h in
        let (y, rest') = All-push_new P _ _ rest in
        let (x, rest'') = All-push_new P _ ls rest' in
        (
          rest'',
          λ j le lt. elim (ℕ_discrete i j) [
            | yes e ↦
                subst
                  (λ (k : ℕ). P (false_of (lookup_at s k)) × P (false_of (twin p (lookup_at s k))))
                  e (x, y)
            | no ne ↦ pairs j (omega arith) (omega arith)
          ],
        )

    pub push_pairs-Distinct :
        (n i : ℕ) (ls out : List Literal)
        → i + n ≤ length s.lookup_order
        → push_pairs p a n i s ls ≡ some out
        → Distinct ls
        → Distinct out
    unfolding push_pairs
    push_pairs-Distinct zero i ls out b said h =
        let e : ls ≡ out = ground arith in subst Distinct e h
    push_pairs-Distinct (suc n) i ls out b said h =
        push_pairs-Distinct n (i + 1) (grown i ls) out (omega arith)
          (rw (push_pairs_step n i ls (omega arith)) at said)
          (push_new-Distinct _ _ (push_new-Distinct _ ls h))

    -- The literal that was there first stays first.
    pub push_pairs_first :
        (n i : ℕ) (r : Literal) (ls out : List Literal)
        → i + n ≤ length s.lookup_order
        → push_pairs p a n i s (r ∷ ls) ≡ some out
        → (rest : List Literal) × (out ≡ r ∷ rest)
    unfolding push_pairs
    push_pairs_first zero i r ls out b said = (ls, ground arith)
    push_pairs_first (suc n) i r ls out b said =
        let (ls', e) = grown_first i r ls in
        push_pairs_first n (i + 1) r ls' out (omega arith)
          (rw (push_pairs_step n i (r ∷ ls) (omega arith), e) at said)
      where
        push_first :
            (l r : Literal) (ls : List Literal)
            → (ls' : List Literal) × (push_new l (r ∷ ls) ≡ r ∷ ls')
        push_first l r ls = elim (Bool-cases (contains (r ∷ ls) l)) [
          | inl old ↦ (ls, rw old)
          | inr new ↦ (ls ++ l ∷ [], rw new)
        ]

        grown_first :
            (i : ℕ) (r : Literal) (ls : List Literal)
            → (ls' : List Literal) × (grown i (r ∷ ls) ≡ r ∷ ls')
        grown_first i r ls =
            let (ls', e) = push_first (false_of (lookup_at s i)) r ls in
            let (ls'', e') = push_first (false_of (twin p (lookup_at s i))) r ls' in (ls'', rw e e')
