-- ===== src/Injector/Laws.antt =====
-- ClauseInjector.h, class Injector.
use sat_symmetry.Prelude.{
  ◌≤◌, ◌≡◌, refl, arith, true, not, ◌||◌, ◌&&◌, none, some, List, [], ◌∷◌, if◌then◌else◌, length,
  ==_refl,
}
use sat_symmetry.Literal.{Literal, BooleanVariable}
use sat_symmetry.Injector.{
  Injector, Cause, same_cause, clauses_of, store, is_empty, add_clause, remove_clause, has_clause,
  get_clause, new_injector,
}

pub same_cause_eq : (c d : Cause) → same_cause c d ≡ true → c ≡ d
same_cause_eq none none h = refl
same_cause_eq none (some w) h = cc
same_cause_eq (some v) none h = cc
same_cause_eq (some v) (some w) h = ground arith

pub same_cause_refl : (c : Cause) → same_cause c c ≡ true
same_cause_refl none = refl
same_cause_refl (some v) = ==_refl v

-- Clauses wait for a cause exactly when the list read by `[]` has one.
pub has_clause_lem : (i : Injector) (c : Cause) → has_clause i c ≡ not (is_empty (clauses_of i c))
unfolding has_clause clauses_of
has_clause_lem i c = ground arith

pub clauses_of-store :
    (c d : Cause) (ws : List (List Literal)) (i : Injector)
    → clauses_of (store c ws i) d ≡ (if same_cause c d then ws else clauses_of i d)
unfolding clauses_of store
clauses_of-store c d ws i = ground arith

pub clauses_of-new : (c : Cause) → clauses_of new_injector c ≡ []
unfolding clauses_of new_injector
clauses_of-new c = refl

-- A clause is added in front, unless the cause is a variable that has one.
pub clauses_of-add :
    (c d : Cause) (ls : List Literal) (i : Injector)
    → clauses_of (add_clause c ls i) d ≡ (
        if same_cause c d && (same_cause c none || is_empty (clauses_of i c))
        then ls ∷ clauses_of i c
        else clauses_of i d)
unfolding add_clause
clauses_of-add c d ls i = ground (arith, clauses_of-store c d (ls ∷ clauses_of i c) i)

pub clauses_of-remove :
    (c d : Cause) (i : Injector)
    → clauses_of (remove_clause c i) d ≡ (if same_cause c d then [] else clauses_of i d)
unfolding remove_clause
clauses_of-remove c d i = clauses_of-store c d [] i

-- The clause that is got is the newest one of its cause, and the others stay.
pub get_clause_lem :
    (c : Cause) (ls : List Literal) (rest : List (List Literal)) (i : Injector)
    → clauses_of i c ≡ ls ∷ rest
    → get_clause c i ≡ some (ls, store c rest i)
unfolding get_clause
get_clause_lem c ls rest i e = rw e

pub get_clause-none : (c : Cause) (i : Injector) → clauses_of i c ≡ [] → get_clause c i ≡ none
unfolding get_clause
get_clause-none c i e = rw e

-- No variable has two clauses.
abbrev pub IsInjector : Injector → Type 0
IsInjector i = (v : BooleanVariable) → length (clauses_of i (some v)) ≤ 1

pub new_injector-IsInjector : IsInjector new_injector
new_injector-IsInjector v = rw (clauses_of-new (some v)) (omega arith)

pub add_clause-IsInjector :
    (c : Cause) (ls : List Literal) (i : Injector) → IsInjector i → IsInjector (add_clause c ls i)
add_clause-IsInjector none ls i h v = ground (arith, clauses_of-add none (some v) ls i, h v)
add_clause-IsInjector (some w) ls i h v = ground (arith, clauses_of-add (some w) (some v) ls i, h v)

pub remove_clause-IsInjector :
    (c : Cause) (i : Injector) → IsInjector i → IsInjector (remove_clause c i)
remove_clause-IsInjector c i h v = ground (arith, clauses_of-remove c (some v) i, h v)

store_rest :
    (c : Cause) (ls : List Literal) (rest : List (List Literal)) (i : Injector)
    → clauses_of i c ≡ ls ∷ rest
    → IsInjector i
    → IsInjector (store c rest i)
store_rest none ls rest i e h v = ground (arith, clauses_of-store none (some v) rest i, h v)
store_rest (some w) ls rest i e h v =
    ground (arith, clauses_of-store (some w) (some v) rest i, h v, h w)

pub get_clause-IsInjector :
    (c : Cause) (i i' : Injector) (ls : List Literal)
    → get_clause c i ≡ some (ls, i')
    → IsInjector i
    → IsInjector i'
unfolding get_clause
get_clause-IsInjector c i i' ls said h = by_list (clauses_of i c) refl
  where
    by_list : (ws : List (List Literal)) → clauses_of i c ≡ ws → IsInjector i'
    by_list [] e = cc
    by_list (w ∷ ws) e =
        let made : store c ws i ≡ i' = ground arith in rw (← made) (store_rest c w ws i e h)
