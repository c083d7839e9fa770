-- ===== src/SymmetryController/Run/Waiting.antt =====
-- SymmetryController.h: the ESBP clauses that wait, step by step.
use mathlib.Core.Bool.{xor}
use sat_symmetry.Prelude.{
  ◌≡◌, ◌≢◌, refl, sym, ap, ◌∙◌, arith, Bool, true, false, not, ◌&&◌, Option, none, some, List, [],
  ◌∷◌, All, All-implied, if◌then◌else◌, ◌==◌, Bool-cases, inl, inr,
}
use sat_symmetry.Literal.{Literal, BooleanVariable, variable, is_positive}
use sat_symmetry.Assignment.{
  Assignment, IsAssignment, holds, signed, literal_value, literal_is_false,
}
use sat_symmetry.Assignment.Laws.{literal_is_false_lem}
use sat_symmetry.Injector.{Cause, no_boolean_variable, same_cause, clauses_of}
use sat_symmetry.ClauseInjector.{
  ClauseInjector, InjectorType, units, esbp, esbp_forcing, remove_clause, get_clause,
}
use sat_symmetry.ClauseInjector.Laws.{waiting, waiting-remove_clause, get_clause-waiting, same_type}
use sat_symmetry.CosyStatus.Trail.{value_in, IsTrail}
use sat_symmetry.CosyStatus.Traced.{Follows}
use sat_symmetry.CosyManager.Walk.{some_injective}
use sat_symmetry.Injector
use sat_symmetry.CosyManager.Conflict.{IsConflict, Adds}

-- Every literal of the clause is false under the values of the trail.
abbrev pub Falsified : List Literal → List Literal → Type 0
Falsified trail clause = All (λ m. literal_value (value_in trail) m ≡ some false) clause

-- The clauses that wait for an assigned variable were false when it was assigned, and no clause
-- waits for another variable.
abbrev pub Conflicts : ClauseInjector → List Literal → Type 0
Conflicts i [] = Unit {0}
Conflicts i (l ∷ trail) =
    All (Falsified (l ∷ trail)) (waiting i esbp (some (variable l))) × Conflicts i trail

abbrev pub NoneFree : ClauseInjector → List Literal → Type 0
NoneFree i trail = (v : BooleanVariable) → value_in trail v ≡ none → waiting i esbp (some v) ≡ []

holds-signed :
    (r : Option Bool) (sign : Bool)
    → ((holds r (not sign) ≡ true) → (signed sign r ≡ some false))
      × ((signed sign r ≡ some false) → (holds r (not sign) ≡ true))
unfolding xor
holds-signed none sign = (λ e. cc, λ e. cc)
holds-signed (some true) true = (λ e. ground arith, λ e. ground arith)
holds-signed (some true) false = (λ e. ground arith, λ e. ground arith)
holds-signed (some false) true = (λ e. ground arith, λ e. ground arith)
holds-signed (some false) false = (λ e. ground arith, λ e. ground arith)

-- A clause stays false when a literal is assigned.
Falsified-push :
    (l : Literal) (trail clause : List Literal)
    → IsTrail (l ∷ trail)
    → Falsified trail clause
    → Falsified (l ∷ trail) clause
Falsified-push l trail clause t =
    All-implied (λ m. literal_value (value_in trail) m ≡ some false)
      (λ m. literal_value (value_in (l ∷ trail)) m ≡ some false)
      (λ m e. elim (Bool-cases (variable l == variable m)) [
        | inl same ↦
            let eq : variable l ≡ variable m = ground arith in
            let free = rw eq at t.0 in let bad = rw free at e in cc
        | inr other ↦ rw other e
      ])
      clause

pub Falsified-IsConflict :
    (a : Assignment) (trail clause : List Literal)
    → IsAssignment a
    → Follows a trail
    → Falsified trail clause
    → IsConflict a clause
Falsified-IsConflict a trail clause k f =
    All-implied (λ m. literal_value (value_in trail) m ≡ some false)
      (λ m. literal_is_false a m ≡ true)
      (λ m e.
        literal_is_false_lem a k m
        ∙ rw (f (variable m)) ((holds-signed (value_in trail (variable m)) (is_positive m)).1 e))
      clause

IsConflict-Falsified :
    (a : Assignment) (trail clause : List Literal)
    → IsAssignment a
    → Follows a trail
    → IsConflict a clause
    → Falsified trail clause
IsConflict-Falsified a trail clause k f =
    All-implied (λ m. literal_is_false a m ≡ true)
      (λ m. literal_value (value_in trail) m ≡ some false)
      (λ m e.
        (holds-signed (value_in trail (variable m)) (is_positive m)).0
          (rw (← f (variable m)) (sym (literal_is_false_lem a k m) ∙ e)))
      clause

-- At the values of now, every clause that waits is false.
pub Conflicts-now :
    (i : ClauseInjector) (trail : List Literal) (v : BooleanVariable)
    → IsTrail trail
    → (value_in trail v ≡ none → waiting i esbp (some v) ≡ [])
    → Conflicts i trail
    → All (Falsified trail) (waiting i esbp (some v))
Conflicts-now i [] v t free h = rw (free refl) tt
Conflicts-now i (l ∷ trail) v t free h = elim (Bool-cases (variable l == v)) [
  | inl same ↦ let e : variable l ≡ v = ground arith in rw (← e) (h.0)
  | inr other ↦
      All-implied (Falsified trail) (Falsified (l ∷ trail))
        (λ clause. Falsified-push l trail clause t) (waiting i esbp (some v))
        (Conflicts-now i trail v t.1 (rw other at free) h.1)
]

-- Clauses of the old ones are left.
abbrev Leaves : ClauseInjector → ClauseInjector → BooleanVariable → Type 0
Leaves i i' v =
    (t : List Literal)
    → All (Falsified t) (waiting i esbp (some v))
    → All (Falsified t) (waiting i' esbp (some v))

Conflicts-Leaves :
    (i i' : ClauseInjector) (trail : List Literal)
    → ((v : BooleanVariable) → value_in trail v ≢ none → Leaves i i' v)
    → Conflicts i trail
    → Conflicts i' trail
Conflicts-Leaves i i' [] leaves h = tt
Conflicts-Leaves i i' (l ∷ trail) leaves h = (
  leaves (variable l) (λ e. ground arith) (l ∷ trail) h.0,
  Conflicts-Leaves i i' trail
      (λ v some_value. leaves v (λ e. elim (Bool-cases (variable l == v)) [
        | inl same ↦ ground arith
        | inr other ↦ some_value (rw other at e)
      ]))
      h.1,
)

-- What waits on the way along the trail.
pub record IsWaiting (trail : List Literal) (i : ClauseInjector) : Type 0 where
  pub conflicts : Conflicts i trail
  pub free : NoneFree i trail

pub notify-IsWaiting :
    (a : Assignment) (l : Literal) (trail : List Literal) (i i' : ClauseInjector)
    → IsAssignment a
    → Follows a (l ∷ trail)
    → IsTrail (l ∷ trail)
    → Adds a (variable l) i i'
    → IsWaiting trail i
    → IsWaiting (l ∷ trail) i'
notify-IsWaiting a l trail i i' k f t adds w = record {
  conflicts = (
    All-implied (IsConflict a) (Falsified (l ∷ trail))
        (λ clause. IsConflict-Falsified a (l ∷ trail) clause k f)
        (waiting i' esbp (some (variable l))) (adds.conflicts (rw (w.free (variable l) t.0) tt)),
    Conflicts-Leaves i i' trail
        (λ v some_value t' all. elim (Bool-cases (variable l == v)) [
          | inl same ↦ let e : variable l ≡ v = ground arith in absurd (some_value (rw e at t.0))
          | inr other ↦ rw (adds.others v other) all
        ])
        w.conflicts,
  );
  free = λ v e. elim (Bool-cases (variable l == v)) [
    | inl same ↦ absurd (ground arith)
    | inr other ↦ adds.others v other ∙ w.free v (rw other at e)
  ];
}

pub cancel-IsWaiting :
    (l : Literal) (trail : List Literal) (i : ClauseInjector)
    → IsWaiting (l ∷ trail) i
    → IsWaiting trail (remove_clause (some (variable l)) i)
cancel-IsWaiting l trail i w = record {
  conflicts =
      Conflicts-Leaves i (remove_clause (some (variable l)) i) trail
        (λ v some_value t all.
          rw (waiting-remove_clause esbp (some (variable l)) (some v) i)
            (elim (Bool-cases (variable l == v)) [
              | inl same ↦ rw same tt
              | inr other ↦ rw other all
            ]))
        w.conflicts.1;
  free = λ v e.
      waiting-remove_clause esbp (some (variable l)) (some v) i
      ∙ elim (Bool-cases (variable l == v)) [
        | inl same ↦ rw same refl
        | inr other ↦ rw other (w.free v (rw other e))
      ];
}

-- A clause that is given out was the first of those that wait.
get_clause_first :
    (t : InjectorType) (cause : Cause) (i i' : ClauseInjector) (ls : List Literal)
    → get_clause t cause i ≡ some (ls, i')
    → (first : List Literal) × (rest : List (List Literal)) × (waiting i t cause ≡ first ∷ rest)
      × ((u : InjectorType) (other : Cause)
          → waiting i' u other
            ≡ (if same_type t u && same_cause cause other then rest else waiting i u other))
unfolding get_clause Injector.get_clause
get_clause_first t cause i i' ls said = by_waiting (waiting i t cause) refl
  where
    by_waiting :
        (all : List (List Literal))
        → waiting i t cause ≡ all
        → (first : List Literal) × (rest : List (List Literal)) × (waiting i t cause ≡ first ∷ rest)
          × ((u : InjectorType) (other : Cause)
              → waiting i' u other
                ≡ (if same_type t u && same_cause cause other then rest else waiting i u other))
    by_waiting [] e = let bad = rw (get_clause, Injector.get_clause, e) at said in cc
    by_waiting (first ∷ rest) e =
        let (i'', got, left) = get_clause-waiting t cause first rest i e in
        let same : i'' ≡ i' =
          ap (λ (r : List Literal × ClauseInjector). r.1) (some_injective _ _ (sym got ∙ said)) in
        (first, rest, e, rw same at left)

same_place :
    (t : InjectorType) (cause : Cause) (v : BooleanVariable) (i : ClauseInjector)
    → (same_type t esbp && same_cause cause (some v)) ≡ true
    → waiting i esbp (some v) ≡ waiting i t cause
same_place units cause v i e = cc
same_place esbp_forcing cause v i e = cc
same_place esbp none v i e = cc
same_place esbp (some w) v i e = let eq : w ≡ v = ground arith in rw eq

pub get_clause-IsWaiting :
    (t : InjectorType) (cause : Cause) (trail : List Literal) (i i' : ClauseInjector)
    → (ls : List Literal) → get_clause t cause i ≡ some (ls, i')
    → IsWaiting trail i
    → IsWaiting trail i'
get_clause-IsWaiting t cause trail i i' ls said w =
    let (first, rest, e, left) = get_clause_first t cause i i' ls said in
    record {
      conflicts =
          Conflicts-Leaves i i' trail
            (λ v some_value k all.
              rw (left esbp (some v))
                (elim (Bool-cases (same_type t esbp && same_cause cause (some v))) [
                  | inl same ↦ rw same ((rw (same_place t cause v i same ∙ e) at all).1)
                  | inr other ↦ rw other all
                ]))
            w.conflicts;
      free = λ v none_there.
          left esbp (some v) ∙ elim (Bool-cases (same_type t esbp && same_cause cause (some v))) [
            | inl same ↦
                let empty = sym (w.free v none_there) ∙ same_place t cause v i same ∙ e in cc
            | inr other ↦ rw other (w.free v none_there)
          ];
    }
