-- ===== src/SymmetryController/Run/Conflict.antt =====
-- SymmetryController.h: the ESBP clauses that wait while the solver has control.
use mathlib.Core.Path.{subst}
use sat_symmetry.Prelude.{◌≡◌, All-implied, sym, ap, some, List, [], ◌∷◌, All}
use sat_symmetry.Literal.{Literal, BooleanVariable, variable}
use sat_symmetry.Assignment.{assign_from_true_literal}
use sat_symmetry.Assignment.Laws.{assign-IsAssignment}
use sat_symmetry.Order.{Order}
use sat_symmetry.Injector.{no_boolean_variable}
use sat_symmetry.ClauseInjector.{esbp, get_clause}
use sat_symmetry.ClauseInjector.Laws.{waiting}
use sat_symmetry.CosyStatus.Traced.{Follows}
use sat_symmetry.CosyManager.Walk.{some_of, some_injective}
use sat_symmetry.CosyManager.Conflict.{IsConflict, update_notify-Adds}
use sat_symmetry.SymmetryController.{
  SymmetryController, update_cancel, cancel_manager, clause_to_inject, unit_to_inject,
}
use sat_symmetry.SymmetryController.Laws.{notify_parts}
use sat_symmetry.SymmetryController.Run.{
  Runs, begins, notifies, cancels, takes_clause, takes_unit, IsRunning, notify-IsRunning,
}
use sat_symmetry.SymmetryController.Run.Reached.{Runs-IsRunning}
use sat_symmetry.SymmetryController.Run.Waiting.{
  Falsified, Falsified-IsConflict, Conflicts-now, IsWaiting, notify-IsWaiting, cancel-IsWaiting,
  get_clause-IsWaiting,
}

module _ {ℓ} {T : Type ℓ} (convert_to : T → Literal) (convert_from : Literal → T) (o : Order)
    (begin : SymmetryController) (starts : IsRunning o [] begin)
    (none_waits : (v : BooleanVariable) → waiting begin.injector esbp (some v) ≡ []) where
  Runs-IsWaiting :
      {trail : List Literal} {c : SymmetryController}
      → Runs convert_to convert_from begin trail c
      → IsWaiting trail c.injector
  unfolding update_cancel clause_to_inject unit_to_inject
  Runs-IsWaiting begins = record { conflicts = tt; free = λ v e. none_waits v }
  Runs-IsWaiting (notifies {trail} {c} {c'} l run lt free said) =
      let x = convert_to l in
      let a = assign_from_true_literal x c.assignment in
      let r = Runs-IsRunning convert_to convert_from o begin starts run in
      let r' = notify-IsRunning convert_to convert_from o l trail c c' r lt free said in
      let (m', i', stepped, same) =
        notify_parts convert_to convert_from l c c' r.manager r.held said in
      let k = assign-IsAssignment c.assignment r.assignment x lt free in
      let f : Follows a (x ∷ trail) =
        rw (ap (λ (d : SymmetryController). d.assignment) (sym same)) at (r'.follows) in
      let adds =
        update_notify-Adds o a x trail r.order k f r'.distinct c.group r.manager m' c.injector i'
          r.managed (r.watching x lt) stepped in
      subst (λ (d : SymmetryController). IsWaiting (x ∷ trail) d.injector) same
        (notify-IsWaiting a x trail c.injector i' k f r'.distinct adds (Runs-IsWaiting run))
  Runs-IsWaiting (cancels {trail} {c} {c'} l run said) =
      let x = convert_to l in
      let (m, cancelled, made) = some_of (cancel_manager c.group x c.cosy_manager) _ _ said in
      subst (λ (d : SymmetryController). IsWaiting trail d.injector) (some_injective _ _ made)
        (cancel-IsWaiting x trail c.injector (Runs-IsWaiting run))
  Runs-IsWaiting (takes_clause {trail} {c} {c'} t l ls run said) =
      let ((given, i'), got, made) =
        some_of (get_clause t (some (variable (convert_to l))) c.injector) _ _ said in
      let e : record c { injector = i' } ≡ c' =
        ap (λ (r : List T × SymmetryController). r.1) (some_injective _ _ made) in
      subst (λ (d : SymmetryController). IsWaiting trail d.injector) e
        (get_clause-IsWaiting t (some (variable (convert_to l))) trail c.injector i' given got
          (Runs-IsWaiting run))
  Runs-IsWaiting (takes_unit {trail} {c} {c'} t ls run said) =
      let ((given, i'), got, made) =
        some_of (get_clause t no_boolean_variable c.injector) _ _ said in
      let e : record c { injector = i' } ≡ c' =
        ap (λ (r : List T × SymmetryController). r.1) (some_injective _ _ made) in
      subst (λ (d : SymmetryController). IsWaiting trail d.injector) e
        (get_clause-IsWaiting t no_boolean_variable trail c.injector i' given got
          (Runs-IsWaiting run))

  -- Whenever the solver has control, after notifications of literals in range without a value,
  -- cancellations of the literal assigned last, and the taking of clauses, from a well-formed
  -- controller without ESBP clauses, all literals of each ESBP clause that waits for a variable
  -- are false under the assignment of now.
  pub Runs-IsConflict :
      {trail : List Literal} {c : SymmetryController} (v : BooleanVariable)
      → Runs convert_to convert_from begin trail c
      → All (IsConflict c.assignment) (waiting c.injector esbp (some v))
  Runs-IsConflict {trail} {c} v run =
      let r = Runs-IsRunning convert_to convert_from o begin starts run in
      let w = Runs-IsWaiting run in
      All-implied (Falsified trail) (IsConflict c.assignment)
        (λ clause. Falsified-IsConflict c.assignment trail clause r.assignment r.follows)
        (waiting c.injector esbp (some v))
        (Conflicts-now c.injector trail v r.distinct (w.free v) w.conflicts)
