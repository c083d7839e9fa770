-- ===== src/SymmetryController/Run.antt =====
-- SymmetryController.h between the calls of a solver: it notifies literals without a value,
-- cancels the one assigned last, and takes clauses.
pub mod Reached
pub mod Waiting
pub mod Conflict
pub mod Tests
use mathlib.Core.Path.{subst}
use sat_symmetry.Prelude.{
  ℕ, ◌<◌, ◌≡◌, refl, sym, ap, ◌∙◌, arith, Bool, true, false, Option, none, some, List, [], ◌∷◌,
  length, All, if◌then◌else◌, ◌==◌, Bool-cases, inl, inr,
}
use sat_symmetry.Literal.{Literal, BooleanVariable, variable}
use sat_symmetry.Assignment.{
  Assignment, IsAssignment, valuation, assign_from_true_literal, unassign_literal,
}
use sat_symmetry.Assignment.Laws.{
  valuation-assign, valuation-unassign, assign-IsAssignment, unassign-IsAssignment,
}
use sat_symmetry.Bitset.{set_bit, set_word, clear_two_bits}
use sat_symmetry.Order.{Order}
use sat_symmetry.Order.Laws.{IsOrder}
use sat_symmetry.Injector.{no_boolean_variable}
use sat_symmetry.ClauseInjector.{ClauseInjector, InjectorType, remove_clause, get_clause}
use sat_symmetry.CosyStatus.Trail.{value_in, IsTrail}
use sat_symmetry.CosyStatus.Traced.{Follows}
use sat_symmetry.CosyManager.{CosyManager}
use sat_symmetry.CosyManager.Walk.{some_of}
use sat_symmetry.CosyManager.Managed.{IsWatching, IsManaged, notify-IsManaged, cancel-IsManaged}
use sat_symmetry.SymmetryController.{
  SymmetryController, update_notify, update_cancel, notify_manager, cancel_manager,
  clause_to_inject, unit_to_inject,
}
use sat_symmetry.SymmetryController.Laws.{notify_parts}

-- The calls of a solver after `begin`, with the literals that are assigned, the last one first.
pub data Runs {ℓ} {T : Type ℓ} (convert_to : T → Literal) (convert_from : Literal → T)
    (begin : SymmetryController) : List Literal → SymmetryController → Type ℓ where
  begins : Runs convert_to convert_from begin [] begin
  notifies :
      {trail : List Literal} {c c' : SymmetryController} (l : T)
      → Runs convert_to convert_from begin trail c
      → convert_to l < c.assignment.assignment.size
      → valuation c.assignment (variable (convert_to l)) ≡ none
      → update_notify convert_to convert_from l c ≡ some c'
      → Runs convert_to convert_from begin (convert_to l ∷ trail) c'
  cancels :
      {trail : List Literal} {c c' : SymmetryController} (l : T)
      → Runs convert_to convert_from begin (convert_to l ∷ trail) c
      → update_cancel convert_to convert_from l c ≡ some c'
      → Runs convert_to convert_from begin trail c'
  takes_clause :
      {trail : List Literal} {c c' : SymmetryController} (type : InjectorType) (l : T) (ls : List T)
      → Runs convert_to convert_from begin trail c
      → clause_to_inject convert_to convert_from type l c ≡ some (ls, c')
      → Runs convert_to convert_from begin trail c'
  takes_unit :
      {trail : List Literal} {c c' : SymmetryController} (type : InjectorType) (ls : List T)
      → Runs convert_to convert_from begin trail c
      → unit_to_inject convert_to convert_from type c ≡ some (ls, c')
      → Runs convert_to convert_from begin trail c'

-- A controller with the values of the trail, whose statuses stand where the trail brought them.
pub record IsRunning (o : Order) (trail : List Literal) (c : SymmetryController) : Type 0 where
  pub order : IsOrder o
  pub assignment : IsAssignment c.assignment
  pub follows : Follows c.assignment trail
  pub distinct : IsTrail trail
  pub in_range : All (λ l. l < c.assignment.assignment.size) trail
  pub manager : CosyManager
  pub held : c.cosy_manager ≡ some manager
  pub managed : IsManaged c.group o trail manager
  pub watching :
      (l : Literal)
      → l < c.assignment.assignment.size
      → IsWatching c.group (length manager.statuses) (variable l)

assign-Follows :
    (a : Assignment) (l : Literal) (trail : List Literal)
    → IsAssignment a
    → l < a.assignment.size
    → valuation a (variable l) ≡ none
    → Follows a trail
    → Follows (assign_from_true_literal l a) (l ∷ trail)
assign-Follows a l trail h lt free f v = ground (arith, valuation-assign a h l v lt free, f v)

unassign-Follows :
    (a : Assignment) (l : Literal) (trail : List Literal)
    → IsAssignment a
    → l < a.assignment.size
    → IsTrail (l ∷ trail)
    → Follows a (l ∷ trail)
    → Follows (unassign_literal l a) trail
unassign-Follows a l trail h lt t f v = elim (Bool-cases (variable l == v)) [
  | inl same ↦
      let e : variable l ≡ v = ground arith in
      valuation-unassign a h l v lt ∙ rw same (sym (rw e at t.0))
  | inr other ↦ valuation-unassign a h l v lt ∙ rw other (f v ∙ rw other)
]

module _ {ℓ} {T : Type ℓ} (convert_to : T → Literal) (convert_from : Literal → T) (o : Order) where
  pub notify-IsRunning :
      (l : T) (trail : List Literal) (c c' : SymmetryController)
      → IsRunning o trail c
      → convert_to l < c.assignment.assignment.size
      → valuation c.assignment (variable (convert_to l)) ≡ none
      → update_notify convert_to convert_from l c ≡ some c'
      → IsRunning o (convert_to l ∷ trail) c'
  unfolding assign_from_true_literal set_bit set_word
  notify-IsRunning l trail c c' r lt free said =
      let x = convert_to l in
      let a = assign_from_true_literal x c.assignment in
      let (m', injector', stepped, same) =
        notify_parts convert_to convert_from l c c' r.manager r.held said in
      let k = assign-IsAssignment c.assignment r.assignment x lt free in
      let f = assign-Follows c.assignment x trail r.assignment lt free r.follows in
      let t : IsTrail (x ∷ trail) = (sym (r.follows (variable x)) ∙ free, r.distinct) in
      let (managed, size) =
        notify-IsManaged c.group o x trail a r.manager m' c.injector injector' r.order k f t
          r.managed (r.watching x lt) stepped in
      subst (IsRunning o (x ∷ trail)) same record {
        order = r.order;
        assignment = k;
        follows = f;
        distinct = t;
        in_range = (lt, r.in_range);
        manager = m';
        held = refl;
        managed = managed;
        watching = λ y lt'. rw size (r.watching y lt');
      }

  pub cancel-IsRunning :
      (l : T) (trail : List Literal) (c : SymmetryController)
      → IsRunning o (convert_to l ∷ trail) c
      → (c' : SymmetryController) × (update_cancel convert_to convert_from l c ≡ some c')
        × IsRunning o trail c'
  unfolding update_cancel cancel_manager unassign_literal clear_two_bits set_word
  cancel-IsRunning l trail c r =
      let x = convert_to l in
      let lt = r.in_range.0 in
      let (m', made, managed, size) =
        cancel-IsManaged c.group o x trail r.manager r.distinct r.managed (r.watching x lt) in
      (
        record c {
          assignment = unassign_literal x c.assignment;
          cosy_manager = some m';
          injector = remove_clause (some (variable x)) c.injector;
        },
        rw (r.held, made),
        record {
          order = r.order;
          assignment = unassign-IsAssignment c.assignment r.assignment x lt;
          follows = unassign-Follows c.assignment x trail r.assignment lt r.distinct r.follows;
          distinct = r.distinct.1;
          in_range = r.in_range.1;
          manager = m';
          held = refl;
          managed = managed;
          watching = λ y lt'. rw size (r.watching y lt');
        },
      )

  -- The injector is no part of it.
  pub injector-IsRunning :
      (trail : List Literal) (c : SymmetryController) (injector : ClauseInjector)
      → IsRunning o trail c
      → IsRunning o trail (record c { injector = injector })
  injector-IsRunning trail c injector r = record {
    order = r.order;
    assignment = r.assignment;
    follows = r.follows;
    distinct = r.distinct;
    in_range = r.in_range;
    manager = r.manager;
    held = r.held;
    managed = r.managed;
    watching = r.watching;
  }
