-- ===== src/CosyStatus/Trail.antt =====
-- CosyStatus between notifications and cancellations: the literals that are assigned now, the last
-- one first, and what the infos of a status say about them.
use mathlib.Core.Path.{subst}
use sat_symmetry.Prelude.{
  ℕ, ◌≤◌, ◌<◌, ◌≡◌, ◌⊎◌, refl, sym, ap, ◌∙◌, arith, Bool, true, false, Option, none, some, List, [],
  ◌∷◌, ◌++◌, ◌==◌, if◌then◌else◌, get_or, inl, inr, Bool-cases,
}
use sat_symmetry.Literal.{Literal, BooleanVariable, variable, is_positive}
use sat_symmetry.Assignment.{Valuation, literal_value, same_value}
use sat_symmetry.Permutation.{Permutation}
use sat_symmetry.CosyStatus.{CosyStatus, LookupInfo, cancel_info}
use sat_symmetry.CosyStatus.Lookup.{twin}
use sat_symmetry.CosyStatus.Cancel.{NotLast}

-- The values that the literals of a trail give.
abbrev pub value_in : List Literal → Valuation
value_in [] v = none
value_in (l ∷ trail) v = if variable l == v then some (is_positive l) else value_in trail v

-- No variable stands twice.
abbrev pub IsTrail : List Literal → Type 0
IsTrail [] = Unit {0}
IsTrail (l ∷ trail) = (value_in trail (variable l) ≡ none) × IsTrail trail

value_in-grows :
    (above trail : List Literal) (v : BooleanVariable) (b : Bool)
    → IsTrail (above ++ trail)
    → value_in trail v ≡ some b
    → value_in (above ++ trail) v ≡ some b
value_in-grows [] trail v b h e = e
value_in-grows (l ∷ above) trail v b h e = elim (Bool-cases (variable l == v)) [
  | inl same ↦
      let eq : variable l ≡ v = ground arith in
      let old = value_in-grows above trail v b h.1 e in
      let gone : value_in (above ++ trail) v ≡ none = rw (← eq) (h.0) in absurd (ground arith)
  | inr other ↦ rw other (value_in-grows above trail v b h.1 e)
]

value_in_member :
    (above below : List Literal) (l : Literal)
    → (b : Bool) × (value_in (above ++ l ∷ below) (variable l) ≡ some b)
value_in_member [] below l = (is_positive l, ground arith)
value_in_member (k ∷ above) below l =
    let (b, e) = value_in_member above below l in
    elim (Bool-cases (variable k == variable l)) [
      | inl same ↦ (is_positive k, rw same)
      | inr other ↦ (b, rw other e)
    ]

-- The pair at a place of a lookup order has one value.
abbrev pub agrees_in : Permutation → Valuation → List Literal → ℕ → Bool
agrees_in p val order i =
    same_value (literal_value val (get_or order i 0))
      (literal_value val (twin p (get_or order i 0)))

same_value-grows :
    (val val' : Valuation) (x y : Literal)
    → ((v : BooleanVariable) (b : Bool) → val v ≡ some b → val' v ≡ some b)
    → same_value (literal_value val x) (literal_value val y) ≡ true
    → same_value (literal_value val' x) (literal_value val' y) ≡ true
same_value-grows val val' x y grows same = by_values (val (variable x)) (val (variable y)) refl refl
  where
    by_values :
        (r q : Option Bool)
        → val (variable x) ≡ r
        → val (variable y) ≡ q
        → same_value (literal_value val' x) (literal_value val' y) ≡ true
    by_values none q e e' = let bad = rw e at same in cc
    by_values (some b) none e e' = let bad = rw (e, e') at same in cc
    by_values (some b) (some c) e e' =
        rw (grows (variable x) b e, grows (variable y) c e') (rw (e, e') at same)

-- One segment of the pairs that a status has passed: those before `top` agree under the trail up
-- to the literal of the variable `v`, which stands above `below`.
pub record Passed (p : Permutation) (order trail below : List Literal) (v : BooleanVariable)
    (back top : ℕ) : Type 0 where
  pub last : Literal
  pub above : List Literal
  pub split : trail ≡ above ++ last ∷ below
  pub same : variable last ≡ v
  pub ordered : back ≤ top
  pub agreed : (i : ℕ) → i < top → agrees_in p (value_in (last ∷ below)) order i ≡ true

-- The infos, the last one first, cut the passed pairs into segments.
abbrev pub Traced : Permutation → List Literal → List Literal → List LookupInfo → ℕ → Type 0
Traced p order trail [] top = top ≡ 0
Traced p order trail (info ∷ rest) top =
    (below : List Literal) × Passed p order trail below info.variable info.back_index top
    × Traced p order below rest info.back_index

module _ (p : Permutation) (order : List Literal) where
  pub Traced-agreed :
      (trail : List Literal) (infos : List LookupInfo) (top i : ℕ)
      → IsTrail trail
      → Traced p order trail infos top
      → i < top
      → agrees_in p (value_in trail) order i ≡ true
  Traced-agreed trail [] top i h e lt = absurd (omega arith)
  Traced-agreed trail (info ∷ rest) top i h (below, passed, older) lt =
      let h' : IsTrail (passed.above ++ passed.last ∷ below) = subst IsTrail passed.split h in
      subst (λ t. agrees_in p (value_in t) order i ≡ true) (sym passed.split)
        (same_value-grows (value_in (passed.last ∷ below))
          (value_in (passed.above ++ passed.last ∷ below)) (get_or order i 0)
          (twin p (get_or order i 0))
          (λ v b. value_in-grows passed.above (passed.last ∷ below) v b h') (passed.agreed i lt))

  -- A status that is not notified keeps its segments.
  pub Traced-push :
      (l : Literal) (trail : List Literal) (infos : List LookupInfo) (top : ℕ)
      → Traced p order trail infos top
      → Traced p order (l ∷ trail) infos top
  Traced-push l trail [] top e = e
  Traced-push l trail (info ∷ rest) top (below, passed, older) = (
    below,
    record {
      last = passed.last;
      above = l ∷ passed.above;
      split = ap (◌∷◌ l) passed.split;
      same = passed.same;
      ordered = passed.ordered;
      agreed = passed.agreed;
    },
    older,
  )

  pub Traced-NotLast :
      (trail : List Literal) (infos : List LookupInfo) (top : ℕ) (v : BooleanVariable)
      → Traced p order trail infos top
      → value_in trail v ≡ none
      → NotLast v infos
  Traced-NotLast trail [] top v e free = tt
  Traced-NotLast trail (info ∷ rest) top v (below, passed, older) free = λ same.
      let (b, e) = value_in_member passed.above below passed.last in
      let e' : value_in trail v ≡ some b =
        subst (λ t. value_in t v ≡ some b) (sym passed.split) (rw (passed.same ∙ same) at e) in
      cc (e', free)

  -- Where the literal on top of the trail goes: into the last segment, or above it.
  split_cases :
      (above below trail : List Literal) (k l : Literal)
      → l ∷ trail ≡ above ++ k ∷ below
      → ((above ≡ []) × (k ≡ l) × (below ≡ trail))
        ⊎ ((rest : List Literal) × (above ≡ l ∷ rest) × (trail ≡ rest ++ k ∷ below))
  split_cases [] below trail k l e = inl (refl, cc, cc)
  split_cases (x ∷ above) below trail k l e = inr (above, cc, cc)

  apart_from_top :
      (l : Literal) (trail above below : List Literal) (k : Literal) (v : BooleanVariable)
      → IsTrail (l ∷ trail)
      → trail ≡ above ++ k ∷ below
      → variable k ≡ v
      → (v == variable l) ≡ false
  apart_from_top l trail above below k v h split same = elim (Bool-cases (v == variable l)) [
    | inr other ↦ other
    | inl top ↦
        let e : variable k ≡ variable l = ground arith in
        let (b, value) = value_in_member above below k in
        let value' : value_in trail (variable l) ≡ some b =
          subst (λ t. value_in t (variable l) ≡ some b) (sym split) (rw e at value) in
        let free = h.0 in cc (value', free)
  ]

  -- Cancelling the literal on top of the trail takes its segment away, if it has one.
  pub Traced-cancel :
      (l : Literal) (trail : List Literal) (infos : List LookupInfo) (s : CosyStatus)
      → IsTrail (l ∷ trail)
      → s.lookup_infos ≡ infos
      → Traced p order (l ∷ trail) infos s.lookup_index
      → let s' = cancel_info (variable l) infos s in
        Traced p order trail s'.lookup_infos s'.lookup_index
  Traced-cancel l trail [] s h held e = rw held e
  Traced-cancel l trail (info ∷ rest) s h held (below, passed, older) =
      elim (split_cases passed.above below trail passed.last l passed.split) [
        | inl (none_above, same_literal, same_trail) ↦
            let top : (info.variable == variable l) ≡ true =
              rw (← passed.same, same_literal) (ground arith) in
            rw top (subst (λ t. Traced p order t rest info.back_index) same_trail older)
        | inr (above, all, split) ↦
            let apart =
              apart_from_top l trail above below passed.last info.variable h split passed.same in
            rw (apart, held)
              (
                below,
                record {
                  last = passed.last;
                  above = above;
                  split = split;
                  same = passed.same;
                  ordered = passed.ordered;
                  agreed = passed.agreed;
                },
                older,
              )
      ]
