-- ===== src/ClauseInjector/Laws.antt =====
-- ClauseInjector.cc: what waits, after each operation.
use sat_symmetry.Prelude.{
  ◌≡◌, refl, ap, Bool, true, false, not, ◌||◌, ◌&&◌, none, some, List, [], ◌∷◌, if◌then◌else◌,
}
use sat_symmetry.Literal.{Literal}
use sat_symmetry.Injector.{Injector, Cause, same_cause, clauses_of, store, is_empty, new_injector}
use sat_symmetry.Injector
use sat_symmetry.Injector.Laws.{
  has_clause_lem, clauses_of-store, clauses_of-add, clauses_of-remove, get_clause_lem,
}
use sat_symmetry.ClauseInjector.{
  ClauseInjector, InjectorType, units, esbp, esbp_forcing, injector_of, set_injector, count_given,
  add_clause, has_clause, get_clause, remove_clause,
}

-- The clauses that wait for a kind and a cause, the newest first.
abbrev pub waiting : ClauseInjector → InjectorType → Cause → List (List Literal)
waiting c t cause = clauses_of (injector_of t c) cause

abbrev pub same_type : InjectorType → InjectorType → Bool
same_type units units = true
same_type esbp esbp = true
same_type esbp_forcing esbp_forcing = true
same_type _ _ = false

pub injector_of-set :
    (t u : InjectorType) (i : Injector) (c : ClauseInjector)
    → injector_of u (set_injector t i c) ≡ (if same_type t u then i else injector_of u c)
unfolding injector_of set_injector
injector_of-set units units i c = refl
injector_of-set units esbp i c = refl
injector_of-set units esbp_forcing i c = refl
injector_of-set esbp units i c = refl
injector_of-set esbp esbp i c = refl
injector_of-set esbp esbp_forcing i c = refl
injector_of-set esbp_forcing units i c = refl
injector_of-set esbp_forcing esbp i c = refl
injector_of-set esbp_forcing esbp_forcing i c = refl

injector_of-count :
    (t u : InjectorType) (c : ClauseInjector) → injector_of u (count_given t c) ≡ injector_of u c
unfolding injector_of count_given
injector_of-count units units c = refl
injector_of-count units esbp c = refl
injector_of-count units esbp_forcing c = refl
injector_of-count esbp units c = refl
injector_of-count esbp esbp c = refl
injector_of-count esbp esbp_forcing c = refl
injector_of-count esbp_forcing units c = refl
injector_of-count esbp_forcing esbp c = refl
injector_of-count esbp_forcing esbp_forcing c = refl

pub has_clause-waiting :
    (c : ClauseInjector) (t : InjectorType) (cause : Cause)
    → has_clause c t cause ≡ not (is_empty (waiting c t cause))
unfolding has_clause
has_clause-waiting c t cause = has_clause_lem (injector_of t c) cause

-- A clause goes in front of those of its kind and cause, unless the cause is a variable that has
-- one; nothing else changes.
pub waiting-add_clause :
    (t u : InjectorType) (cause other : Cause) (ls : List Literal) (c : ClauseInjector)
    → waiting (add_clause t cause ls c) u other ≡ (
        if same_type t u
          && (same_cause cause other && (same_cause cause none || is_empty (waiting c t cause)))
        then ls ∷ waiting c t cause
        else waiting c u other)
unfolding add_clause
waiting-add_clause t u cause other ls c =
    rw
      (ap (λ i. clauses_of i other)
        (injector_of-set t u (Injector.add_clause cause ls (injector_of t c)) c))
      (by_type t u)
  where
    by_type :
        (t u : InjectorType)
        → clauses_of
            (if same_type t u
              then Injector.add_clause cause ls (injector_of t c)
              else injector_of u c)
            other
          ≡ (if same_type t u
                && (same_cause cause other
                    && (same_cause cause none || is_empty (waiting c t cause)))
              then ls ∷ waiting c t cause
              else waiting c u other)
    by_type units units = clauses_of-add cause other ls (injector_of units c)
    by_type units esbp = refl
    by_type units esbp_forcing = refl
    by_type esbp units = refl
    by_type esbp esbp = clauses_of-add cause other ls (injector_of esbp c)
    by_type esbp esbp_forcing = refl
    by_type esbp_forcing units = refl
    by_type esbp_forcing esbp = refl
    by_type esbp_forcing esbp_forcing = clauses_of-add cause other ls (injector_of esbp_forcing c)

-- After remove_clause no clause of any kind waits with the cause, and the clauses of the other
-- causes are as before.
pub waiting-remove_clause :
    (t : InjectorType) (cause other : Cause) (c : ClauseInjector)
    → waiting (remove_clause cause c) t other
      ≡ (if same_cause cause other then [] else waiting c t other)
unfolding remove_clause injector_of
waiting-remove_clause units cause other c = clauses_of-remove cause other c.units_injector
waiting-remove_clause esbp cause other c = clauses_of-remove cause other c.esbp_injector
waiting-remove_clause esbp_forcing cause other c =
    clauses_of-remove cause other c.esbp_forcing_injector

-- Where a clause waits with the kind and the cause, get_clause gives out the newest one and takes
-- it away; nothing else changes.
pub get_clause-waiting :
    (t : InjectorType) (cause : Cause) (ls : List Literal) (rest : List (List Literal))
    (c : ClauseInjector)
    → waiting c t cause ≡ ls ∷ rest
    → (c' : ClauseInjector) × (get_clause t cause c ≡ some (ls, c'))
      × ((u : InjectorType) (other : Cause)
          → waiting c' u other
            ≡ (if same_type t u && same_cause cause other then rest else waiting c u other))
unfolding get_clause
get_clause-waiting t cause ls rest c e = (
  set_injector t (store cause rest (injector_of t c)) (count_given t c),
  rw (get_clause_lem cause ls rest (injector_of t c) e, get_clause),
  λ u other.
      rw
        (
          ap (λ i. clauses_of i other)
              (injector_of-set t u (store cause rest (injector_of t c)) (count_given t c)),
          injector_of-count t u c,
        )
        (by_type t u other),
)
  where
    by_type :
        (t u : InjectorType) (other : Cause)
        → clauses_of
            (if same_type t u then store cause rest (injector_of t c) else injector_of u c)
            other
          ≡ (if same_type t u && same_cause cause other then rest else waiting c u other)
    by_type units units other = clauses_of-store cause other rest (injector_of units c)
    by_type units esbp other = refl
    by_type units esbp_forcing other = refl
    by_type esbp units other = refl
    by_type esbp esbp other = clauses_of-store cause other rest (injector_of esbp c)
    by_type esbp esbp_forcing other = refl
    by_type esbp_forcing units other = refl
    by_type esbp_forcing esbp other = refl
    by_type esbp_forcing esbp_forcing other =
        clauses_of-store cause other rest (injector_of esbp_forcing c)
