-- ===== src/SymmetryController/Laws.antt =====
-- SymmetryController.h: a notification and its cancellation, and the clauses that are given out.
use mathlib.Core.Path.{subst}
use sat_symmetry.Prelude.{
  ℕ, ◌<◌, ◌≡◌, refl, ap, ◌∙◌, arith, true, ◌&&◌, Option, none, some, List, [], ◌∷◌, if◌then◌else◌,
  contains, get_elem?, map,
}
use sat_symmetry.Literal.{Literal, BooleanVariable, variable}
use sat_symmetry.Assignment.{
  Assignment, IsAssignment, valuation, assign_from_true_literal, unassign_literal,
}
use sat_symmetry.Assignment.Laws.{valuation-assign, valuation-unassign, assign-IsAssignment}
use sat_symmetry.Bitset.{set_bit, set_word}
use sat_symmetry.Order.{Order}
use sat_symmetry.Order.Laws.{IsOrder}
use sat_symmetry.Injector.{Cause, same_cause}
use sat_symmetry.ClauseInjector.{ClauseInjector, InjectorType, remove_clause}
use sat_symmetry.ClauseInjector.Laws.{waiting, waiting-remove_clause, get_clause-waiting, same_type}
use sat_symmetry.Group.{watch}
use sat_symmetry.CosyManager.{CosyManager}
use sat_symmetry.CosyManager.Laws.{Ready, notify_cancel}
use sat_symmetry.CosyManager.Walk.{some_of, some_injective, NoRepeat, status}
use sat_symmetry.CosyStatus.Cancel.{SameLookup}
use sat_symmetry.CosyManager
use sat_symmetry.CosyManager.Total
use sat_symmetry.CosyManager.Total.{FirstHasOther}
use sat_symmetry.Permutation.{Permutation}
use sat_symmetry.SymmetryController.{
  SymmetryController, update_notify, update_cancel, notify_manager, cancel_manager,
  clause_to_inject, adapt_vector,
}

-- The variable has no value, its literal is in range, and every status that watches it is ready.
pub record CanNotify (o : Order) (l : Literal) (c : SymmetryController) (m : CosyManager)
    (is : List ℕ) : Type 0 where
  pub assignment : IsAssignment c.assignment
  pub in_range : l < c.assignment.assignment.size
  pub free : valuation c.assignment (variable l) ≡ none
  pub manager : c.cosy_manager ≡ some m
  pub order : IsOrder o
  pub placed : m.order ≡ some o
  pub watched : watch c.group (variable l) ≡ some is
  pub apart : NoRepeat is
  pub ready : (i : ℕ) → contains is i ≡ true → Ready c.group.permutations o l m.statuses i

-- A controller with the old values, the old places of all statuses, and no clause that the
-- variable caused.
pub record Restored (l : Literal) (c c'' : SymmetryController) (m : CosyManager) : Type 0 where
  pub values : (v : BooleanVariable) → valuation c''.assignment v ≡ valuation c.assignment v
  pub same_manager :
      (m'' : CosyManager) × (c''.cosy_manager ≡ some m'')
      × ((i : ℕ) → SameLookup (status m''.statuses i) (status m.statuses i))
  pub no_clause : (t : InjectorType) → waiting c''.injector t (some (variable l)) ≡ []

unassign_assigned :
    (a : Assignment) (l : Literal) (v : BooleanVariable)
    → IsAssignment a
    → l < a.assignment.size
    → valuation a (variable l) ≡ none
    → valuation (unassign_literal l (assign_from_true_literal l a)) v ≡ valuation a v
unassign_assigned a l v h lt free =
    let h' = assign-IsAssignment a h l lt free in
    let lt' : l < (assign_from_true_literal l a).assignment.size =
      unfold assign_from_true_literal set_bit set_word in lt in
    ground (
      arith,
      valuation-unassign (assign_from_true_literal l a) h' l v lt',
      valuation-assign a h l v lt free,
    )

cancel_succeeds {ℓ} :
    {T : Type ℓ} (convert_to : T → Literal) (convert_from : Literal → T) (l : T)
    → (o : Order) (c : SymmetryController) (m m' : CosyManager) (is : List ℕ)
    → (injector injector' : ClauseInjector) → CanNotify o (convert_to l) c m is
    → let x = convert_to l in
      let a = assign_from_true_literal x c.assignment in
      let c' = record c { assignment = a; cosy_manager = some m'; injector = injector' } in
      CosyManager.update_notify c.group a x m injector ≡ some (m', injector')
      → (c'' : SymmetryController) × (update_cancel convert_to convert_from l c' ≡ some c'')
        × Restored x c c'' m
unfolding update_cancel cancel_manager
cancel_succeeds convert_to convert_from l o c m m' is injector injector' can stepped =
    let x = convert_to l in
    let a = assign_from_true_literal x c.assignment in
    let (m'', cancelled, size, same) =
      notify_cancel c.group o a x m m' injector injector' is can.order can.placed can.watched
        can.apart can.ready stepped in
    (
      record c {
        assignment = unassign_literal x a;
        cosy_manager = some m'';
        injector = remove_clause (some (variable x)) injector';
      },
      rw cancelled,
      record {
        values = λ v. unassign_assigned c.assignment x v can.assignment can.in_range can.free;
        same_manager = (m'', refl, same);
        no_clause = λ t.
            waiting-remove_clause t (some (variable x)) (some (variable x)) injector'
            ∙ ground arith;
      },
    )

-- What a notification does where there is a manager.
pub notify_parts {ℓ} :
    {T : Type ℓ} (convert_to : T → Literal) (convert_from : Literal → T) (l : T)
    → (c c' : SymmetryController) (m : CosyManager) → c.cosy_manager ≡ some m
    → update_notify convert_to convert_from l c ≡ some c'
    → let x = convert_to l in
      let a = assign_from_true_literal x c.assignment in
      (m' : CosyManager) × (injector' : ClauseInjector) × (CosyManager.update_notify c.group a x m
          c.injector
        ≡ some (m', injector'))
      × (record c { assignment = a; cosy_manager = some m'; injector = injector' } ≡ c')
unfolding update_notify notify_manager
notify_parts convert_to convert_from l c c' m held said =
    let x = convert_to l in
    let a = assign_from_true_literal x c.assignment in
    let ((manager, injector), notified, made) =
      some_of (notify_manager c.group a x c.cosy_manager c.injector) _ _ said in
    let notified' : notify_manager c.group a x (some m) c.injector ≡ some (manager, injector) =
      subst (λ k. notify_manager c.group a x k c.injector ≡ some (manager, injector)) held
        notified in
    let ((m', injector'), stepped, paired) =
      some_of (CosyManager.update_notify c.group a x m c.injector) _ _ notified' in
    let pairs : (some m', injector') ≡ (manager, injector) = some_injective _ _ paired in
    let same : record c { assignment = a; cosy_manager = some m'; injector = injector' } ≡ c' =
      ap
        (λ (r : Option CosyManager × ClauseInjector). record c {
          assignment = a;
          cosy_manager = r.0;
          injector = r.1;
        })
        pairs
      ∙ some_injective _ _ made in
    (m', injector', stepped, same)

-- A notification of a literal that can be notified, if it gives a result, is undone by its
-- cancellation: that succeeds, every variable has its old value, every status its old place, infos
-- and lookup order, and no clause waits that the variable caused.
pub notify_cancel_restores {ℓ} :
    {T : Type ℓ} (convert_to : T → Literal) (convert_from : Literal → T) (l : T)
    → (o : Order) (c c' : SymmetryController) (m : CosyManager) (is : List ℕ)
    → CanNotify o (convert_to l) c m is
    → update_notify convert_to convert_from l c ≡ some c'
    → (c'' : SymmetryController) × (update_cancel convert_to convert_from l c' ≡ some c'')
      × Restored (convert_to l) c c'' m
notify_cancel_restores convert_to convert_from l o c c' m is can said =
    let x = convert_to l in
    let (m', injector', stepped, same) =
      notify_parts convert_to convert_from l c c' m can.manager said in
    subst
      (λ c'.
        (c'' : SymmetryController) × (update_cancel convert_to convert_from l c' ≡ some c'')
        × Restored x c c'' m)
      same (cancel_succeeds convert_to convert_from l o c m m' is c.injector injector' can stepped)

-- A notification of a literal that can be notified, and whose variable is not the only one of the
-- first pair of a status that watches it, gives a controller, whose assignment has the
-- literal as a true one.
pub CanNotify-update_notify {ℓ} :
    {T : Type ℓ} (convert_to : T → Literal) (convert_from : Literal → T) (l : T)
    → (o : Order) (c : SymmetryController) (m : CosyManager) (is : List ℕ)
    → CanNotify o (convert_to l) c m is
    → ((i : ℕ) (p : Permutation)
        → contains is i ≡ true
        → get_elem? c.group.permutations i ≡ some p
        → FirstHasOther p (status m.statuses i) (variable (convert_to l)))
    → (c' : SymmetryController) × (update_notify convert_to convert_from l c ≡ some c')
      × (c'.assignment ≡ assign_from_true_literal (convert_to l) c.assignment)
unfolding update_notify notify_manager
CanNotify-update_notify convert_to convert_from l o c m is can others =
    let a = assign_from_true_literal (convert_to l) c.assignment in
    let (m', injector, made) =
      Total.update_notify_total c.group o a (convert_to l) m c.injector is can.order can.placed
        can.watched can.apart can.ready others in
    let notified : notify_manager c.group a (convert_to l) c.cosy_manager c.injector
        ≡ some (some m', injector) =
      rw (can.manager, made) in
    (record c { assignment = a; cosy_manager = some m'; injector = injector }, rw notified, refl)

adapt_vector-map {ℓ} :
    {T : Type ℓ} (convert_to : T → Literal) (convert_from : Literal → T) (ls : List Literal)
    → adapt_vector convert_to convert_from ls ≡ map convert_from ls
unfolding adapt_vector
adapt_vector-map convert_to convert_from [] = refl
adapt_vector-map convert_to convert_from (l ∷ ls) =
    ap (◌∷◌ (convert_from l)) (adapt_vector-map convert_to convert_from ls)

-- Where a clause waits with the kind and the literal's variable, clause_to_inject gives out the
-- newest one, with convert_from applied to each of its literals, and takes it away; the other
-- clauses stay.
pub clause_to_inject_lem {ℓ} :
    {T : Type ℓ} (convert_to : T → Literal) (convert_from : Literal → T) (l : T)
    → (t : InjectorType) (c : SymmetryController) (ls : List Literal) (rest : List (List Literal))
    → waiting c.injector t (some (variable (convert_to l))) ≡ ls ∷ rest
    → (c' : SymmetryController) × (clause_to_inject convert_to convert_from t l c
        ≡ some (map convert_from ls, c'))
      × ((u : InjectorType) (other : Cause)
          → waiting c'.injector u other ≡ (
              if same_type t u && same_cause (some (variable (convert_to l))) other
              then rest
              else waiting c.injector u other))
unfolding clause_to_inject
clause_to_inject_lem convert_to convert_from l t c ls rest e =
    let (injector, got, others) =
      get_clause-waiting t (some (variable (convert_to l))) ls rest c.injector e in
    (
      record c { injector = injector },
      rw (got, adapt_vector-map convert_to convert_from ls),
      others,
    )
