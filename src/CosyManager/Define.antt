-- ===== src/CosyManager/Define.antt =====
-- CosyManager.cc, defineOrder and generateUnits: the statuses before the first notification.
use mathlib.Core.Path.{subst}
use mathlib.Core.List.{append_assoc, append-nil}
use sat_symmetry.Prelude.{
  ℕ, zero, suc, ◌<◌, ◌≡◌, refl, sym, ap, ◌∙◌, arith, none, some, List, [], ◌∷◌, ◌++◌, length,
  get_elem?, All, All-get_or, if◌then◌else◌, leb, ◌==◌, Bool-cases, inl, inr,
}
use sat_symmetry.Literal.{Literal, BooleanVariable, variable, literal, negated}
use sat_symmetry.Permutation.{Permutation}
use sat_symmetry.Order.{Order}
use sat_symmetry.ClauseInjector.{ClauseInjector, units, esbp, add_clause}
use sat_symmetry.ClauseInjector.Laws.{waiting, waiting-add_clause}
use sat_symmetry.Group.{Group, watch}
use sat_symmetry.Group.Laws.{watches, get_elem?-get_or}
use sat_symmetry.CosyStatus.{
  CosyStatus, new_status, add_lookup_literal, generate_unit_clause_on_inverting, lookup_at,
  is_lookup_end, is_true_less_false,
}
use sat_symmetry.CosyStatus.Lookup.{twin, IsLookup, IsStatus}
use sat_symmetry.CosyManager.{
  CosyManager, statuses_for, add_lookups, new_cosy_manager, define_order, units_loop,
  generate_units,
}
use sat_symmetry.CosyManager.Walk.{status, add_lookup_to_lem}
use sat_symmetry.CosyManager.Managed.{IsWatching, Placed, IsManaged}

-- The literals whose variable permutation `i` moves.
abbrev pub watched_by : Group → ℕ → List Literal → List Literal
watched_by g i [] = []
watched_by g i (l ∷ ls) =
    if watches g (variable l) i then l ∷ watched_by g i ls else watched_by g i ls

abbrev looked : Group → ℕ → List Literal → CosyStatus → CosyStatus
looked g i ls s = record s { lookup_order = s.lookup_order ++ watched_by g i ls }

looked-add :
    (g : Group) (i : ℕ) (l : Literal) (ls : List Literal) (s : CosyStatus)
    → looked g i ls (if watches g (variable l) i then add_lookup_literal l s else s)
      ≡ looked g i (l ∷ ls) s
unfolding add_lookup_literal
looked-add g i l ls s = elim (Bool-cases (watches g (variable l) i)) [
  | inl on ↦ rw (on, append_assoc s.lookup_order (l ∷ []) (watched_by g i ls))
  | inr off ↦ rw off
]

add_lookups_lem :
    (g : Group) (ls : List Literal) (ss : List CosyStatus)
    → All (λ (l : Literal). IsWatching g (length ss) (variable l)) ls
    → (ss' : List CosyStatus) × (add_lookups g ls ss ≡ some ss')
      × (length ss' ≡ length ss)
      × ((i : ℕ) → status ss' i ≡ looked g i ls (status ss i))
unfolding add_lookups
add_lookups_lem g [] ss h = (ss, refl, refl, λ i. rw (append-nil (status ss i).lookup_order))
add_lookups_lem g (l ∷ ls) ss ((is, watched, apart, inside), h) =
    let (ss1, made1, size1, said1) = add_lookup_to_lem l is ss apart inside in
    let (ss2, made2, size2, said2) = add_lookups_lem g ls ss1 (rw size1 h) in
    let value = (get_elem?-get_or g.watchers (variable l) [] is (unfold watch in watched)).0 in
    (
      ss2,
      rw (watched, made1, made2),
      size2 ∙ size1,
      λ i. said2 i ∙ rw (said1 i, ← value) (looked-add g i l ls (status ss i)),
    )

status-statuses_for : (ps : List Permutation) (i : ℕ) → status (statuses_for ps) i ≡ new_status
status-statuses_for [] i = refl
status-statuses_for (p ∷ ps) zero = refl
status-statuses_for (p ∷ ps) (suc i) = status-statuses_for ps i

length-statuses_for : (ps : List Permutation) → length (statuses_for ps) ≡ length ps
length-statuses_for [] = refl
length-statuses_for (p ∷ ps) = ap suc (length-statuses_for ps)

-- Where each variable of the order has watchers, none listed twice and all of them permutations of
-- the group, define_order of a new manager gives one status for each permutation, at its start,
-- whose lookup order is the literals of the order whose variable the permutation watches, in their
-- order.
pub define_order_lem :
    (g : Group) (o : Order)
    → All (λ (l : Literal). IsWatching g (length g.permutations) (variable l)) o.literals
    → (m : CosyManager) × (define_order g o new_cosy_manager ≡ some m)
      × (m.order ≡ some o)
      × (length m.statuses ≡ length g.permutations)
      × ((i : ℕ)
          → status m.statuses i ≡ record new_status { lookup_order = watched_by g i o.literals })
unfolding define_order new_cosy_manager new_status
define_order_lem g o h =
    let size = length-statuses_for g.permutations in
    let (ss, made, size', said) =
      add_lookups_lem g o.literals (statuses_for g.permutations) (rw size h) in
    (
      record { order = some o; statuses = ss },
      rw made,
      refl,
      size' ∙ size,
      λ i. said i ∙ rw (status-statuses_for g.permutations i),
    )

-- Every status begins at the start of literals that can be looked up.
pub record IsDefined (g : Group) (o : Order) (m : CosyManager) : Type 0 where
  pub order : m.order ≡ some o
  pub size : length m.statuses ≡ length g.permutations
  pub statuses :
      (i : ℕ)
      → i < length g.permutations
      → (p : Permutation) × (get_elem? g.permutations i ≡ some p)
        × All (IsLookup p o) (watched_by g i o.literals)
        × (status m.statuses i ≡ record new_status { lookup_order = watched_by g i o.literals })

IsDefined-IsStatus :
    (p : Permutation) (o : Order) (s : CosyStatus) (ls : List Literal)
    → All (IsLookup p o) ls
    → s ≡ record new_status { lookup_order = ls }
    → IsStatus p o s
unfolding new_status
IsDefined-IsStatus p o s ls h e =
    subst (IsStatus p o) (sym e) record { within = omega arith; lookups = h }

pub IsDefined-IsManaged :
    (g : Group) (o : Order) (m : CosyManager) → IsDefined g o m → IsManaged g o [] m
unfolding new_status
IsDefined-IsManaged g o m d = record {
  order = d.order;
  placed = λ i lt.
      let (p, found, lookups, e) = d.statuses i (omega (arith, lt, d.size)) in
      subst (Placed g o [] i) (sym e) record {
        permutation = p;
        found = found;
        traced = record {
          status = record { within = omega arith; lookups = lookups };
          traced = refl;
        };
        watched = tt;
      };
}

unit_total :
    (p : Permutation) (o : Order) (s : CosyStatus) (injector : ClauseInjector)
    → IsStatus p o s
    → (injector' : ClauseInjector) × (generate_unit_clause_on_inverting p o s injector
        ≡ some injector')
      × ((v : BooleanVariable) → waiting injector' esbp (some v) ≡ waiting injector esbp (some v))
unfolding generate_unit_clause_on_inverting is_lookup_end
unit_total p o s injector h = elim (Bool-cases (leb (length s.lookup_order) s.lookup_index)) [
  | inl end ↦ (injector, rw end, λ v. refl)
  | inr inside ↦
      let x = lookup_at s s.lookup_index in
      let pair =
        (All-get_or (IsLookup p o) s.lookup_order s.lookup_index 0 h.lookups
          (ground arith)).paired in
      let unit = literal (variable x) (is_true_less_false o.value_mode) ∷ [] in
      elim (Bool-cases (x == negated (twin p x))) [
        | inl same ↦ (
          add_clause units none unit injector,
          rw (inside, pair, same),
          λ v. waiting-add_clause units esbp none (some v) unit injector,
        )
        | inr other ↦ (injector, rw (inside, pair, other), λ v. refl)
      ]
]

units_loop_total :
    (o : Order) (ps : List Permutation) (ss : List CosyStatus) (injector : ClauseInjector)
    → length ss ≡ length ps
    → ((i : ℕ)
        → i < length ps
        → (p : Permutation) × (get_elem? ps i ≡ some p) × IsStatus p o (status ss i))
    → (injector' : ClauseInjector) × (units_loop (some o) ps ss injector ≡ some injector')
      × ((v : BooleanVariable) → waiting injector' esbp (some v) ≡ waiting injector esbp (some v))
unfolding units_loop
units_loop_total o [] [] injector size h = (injector, refl, λ v. refl)
units_loop_total o (p ∷ ps) [] injector size h = absurd (omega arith)
units_loop_total o [] (s ∷ ss) injector size h = absurd (omega arith)
units_loop_total o (p ∷ ps) (s ∷ ss) injector size h =
    let (q, found, st) = h 0 (omega arith) in
    let e : q ≡ p = cc in
    let (injector1, made1, same1) = unit_total p o s injector (rw e at st) in
    let (injector2, made2, same2) =
      units_loop_total o ps ss injector1 (omega arith) λ i lt. h (suc i) (omega arith) in
    (injector2, rw (made1, made2), λ v. same2 v ∙ same1 v)

pub generate_units_total :
    (g : Group) (o : Order) (m : CosyManager) (injector : ClauseInjector)
    → IsDefined g o m
    → (injector' : ClauseInjector) × (generate_units g m injector ≡ some injector')
      × ((v : BooleanVariable) → waiting injector' esbp (some v) ≡ waiting injector esbp (some v))
unfolding generate_units
generate_units_total g o m injector d = rw d.order (
    units_loop_total o g.permutations m.statuses injector d.size λ i lt.
      let (p, found, lookups, e) = d.statuses i lt in
      (
        p,
        found,
        IsDefined-IsStatus p o (status m.statuses i) (watched_by g i o.literals) lookups e,
      ))
