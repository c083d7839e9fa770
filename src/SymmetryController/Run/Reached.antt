-- ===== src/SymmetryController/Run/Reached.antt =====
-- SymmetryController.h: what holds whenever the solver has control.
use sat_symmetry.Prelude.{
  ℕ, ◌<◌, ◌≡◌, refl, sym, ◌∙◌, none, some, List, [], ◌∷◌, ◌++◌, length, get_elem?,
}
use sat_symmetry.Literal.{Literal, BooleanVariable, variable}
use sat_symmetry.Assignment.{valuation}
use sat_symmetry.Permutation.{Permutation}
use sat_symmetry.Order.{Order}
use sat_symmetry.Injector.{no_boolean_variable}
use sat_symmetry.ClauseInjector.{get_clause}
use sat_symmetry.CosyStatus.{CosyStatus, LookupInfo}
use sat_symmetry.CosyStatus.Lookup.{Agreed, IsStatus}
use sat_symmetry.CosyStatus.Trail.{Traced}
use sat_symmetry.CosyStatus.Traced.{IsTraced-Agreed}
use sat_symmetry.CosyManager.{CosyManager}
use sat_symmetry.CosyManager.Total.{FirstHasOther}
use sat_symmetry.CosyManager.Walk.{some_of, status}
use sat_symmetry.CosyManager.Managed.{IsManaged, managed-Ready}
use sat_symmetry.SymmetryController.{
  SymmetryController, update_notify, update_cancel, clause_to_inject, unit_to_inject,
}
use sat_symmetry.SymmetryController.Laws.{CanNotify, CanNotify-update_notify}
use sat_symmetry.SymmetryController.Run.{
  Runs, begins, notifies, cancels, takes_clause, takes_unit, IsRunning, notify-IsRunning,
  cancel-IsRunning, injector-IsRunning,
}

-- Status `i` passed pairs that all agree.
pub record Standing (o : Order) (c : SymmetryController) (m : CosyManager) (i : ℕ) : Type 0 where
  pub permutation : Permutation
  pub found : get_elem? c.group.permutations i ≡ some permutation
  pub placed : IsStatus permutation o (status m.statuses i)
  pub agreed : Agreed permutation c.assignment (status m.statuses i)

-- A status at the start of its lookup order, with no infos.
pub record AtStart (s : CosyStatus) : Type 0 where
  pub index : s.lookup_index ≡ 0
  pub infos : s.lookup_infos ≡ []

Traced-at_start :
    (p : Permutation) (order : List Literal) (infos : List LookupInfo) (top : ℕ)
    → Traced p order [] infos top
    → (top ≡ 0) × (infos ≡ [])
Traced-at_start p order [] top e = (e, refl)
Traced-at_start p order (info ∷ rest) top (below, passed, older) =
    absurd (no_split passed.above passed.last below passed.split)
  where
    no_split :
        (above : List Literal) (l : Literal) (below : List Literal) → ¬ ([] ≡ above ++ l ∷ below)
    no_split [] l below e = cc
    no_split (k ∷ above) l below e = cc

module _ {ℓ} {T : Type ℓ} (convert_to : T → Literal) (convert_from : Literal → T) (o : Order)
    (begin : SymmetryController) (starts : IsRunning o [] begin) where
  pub Runs-IsRunning :
      {trail : List Literal} {c : SymmetryController}
      → Runs convert_to convert_from begin trail c
      → IsRunning o trail c
  unfolding clause_to_inject unit_to_inject
  Runs-IsRunning begins = starts
  Runs-IsRunning (notifies {trail} {c} {c'} l run lt free said) =
      notify-IsRunning convert_to convert_from o l trail c c' (Runs-IsRunning run) lt free said
  Runs-IsRunning (cancels {trail} {c} {c'} l run said) =
      let (c'', made, r) =
        cancel-IsRunning convert_to convert_from o l trail c (Runs-IsRunning run) in
      let e : c'' ≡ c' = cc in rw e at r
  Runs-IsRunning (takes_clause {trail} {c} {c'} t l ls run said) =
      let (given, got, rest) =
        some_of (get_clause t (some (variable (convert_to l))) c.injector) _ _ said in
      let e : record c { injector = given.1 } ≡ c' = cc in
      rw e at (injector-IsRunning convert_to convert_from o trail c given.1 (Runs-IsRunning run))
  Runs-IsRunning (takes_unit {trail} {c} {c'} t ls run said) =
      let (given, got, rest) = some_of (get_clause t no_boolean_variable c.injector) _ _ said in
      let e : record c { injector = given.1 } ≡ c' = cc in
      rw e at (injector-IsRunning convert_to convert_from o trail c given.1 (Runs-IsRunning run))

  -- Whenever the solver has control, after notifications of literals in range without a value,
  -- cancellations of the literal assigned last, and the taking of clauses, from a well-formed
  -- controller, each status is well formed for the permutation at its index, and all pairs before
  -- its lookup index agree under the assignment of now.
  pub Runs-Standing :
      {trail : List Literal} {c : SymmetryController} {m : CosyManager}
      → Runs convert_to convert_from begin trail c
      → c.cosy_manager ≡ some m
      → (i : ℕ) → i < length m.statuses
      → Standing o c m i
  Runs-Standing {trail} {c} {m} run held i lt =
      let r = Runs-IsRunning run in
      let e : r.manager ≡ m = cc (held, r.held) in
      let managed : IsManaged c.group o trail m = rw e at (r.managed) in
      let placed = managed.placed i lt in
      record {
        permutation = placed.permutation;
        found = placed.found;
        placed = placed.traced.status;
        agreed =
            IsTraced-Agreed placed.permutation o c.assignment trail (status m.statuses i)
              r.assignment r.follows r.distinct placed.traced;
      }

  running-CanNotify :
      (x : Literal) (trail : List Literal) (c : SymmetryController) (r : IsRunning o trail c)
      → (lt : x < c.assignment.assignment.size) → valuation c.assignment (variable x) ≡ none
      → CanNotify o x c r.manager (r.watching x lt).0
  running-CanNotify x trail c r lt free =
      let (is, watched, apart, inside) = r.watching x lt in
      record {
        assignment = r.assignment;
        in_range = lt;
        free = free;
        manager = r.held;
        order = r.order;
        placed = r.managed.order;
        watched = watched;
        apart = apart;
        ready = λ i on.
            managed-Ready c.group o x trail r.manager i
              (sym (r.follows (variable x)) ∙ free, r.distinct) r.managed (inside i on);
      }

  -- In each state that a run of a well-formed controller reaches, the notification of a literal in
  -- range whose variable has no value, and is not the only variable of the first pair of a status,
  -- gives a controller, which a run reaches too.
  pub Runs-notify :
      {trail : List Literal} {c : SymmetryController} (l : T)
      → Runs convert_to convert_from begin trail c
      → convert_to l < c.assignment.assignment.size
      → valuation c.assignment (variable (convert_to l)) ≡ none
      → ((m : CosyManager) (i : ℕ) (p : Permutation)
          → c.cosy_manager ≡ some m
          → get_elem? c.group.permutations i ≡ some p
          → FirstHasOther p (status m.statuses i) (variable (convert_to l)))
      → (c' : SymmetryController) × (update_notify convert_to convert_from l c ≡ some c')
        × Runs convert_to convert_from begin (convert_to l ∷ trail) c'
  Runs-notify {trail} {c} l run lt free others =
      let r = Runs-IsRunning run in
      let (c', said, _) =
        CanNotify-update_notify convert_to convert_from l o c r.manager _
          (running-CanNotify (convert_to l) trail c r lt free)
          (λ i p on found. others r.manager i p r.held found) in
      (c', said, notifies l run lt free said)

  -- In each state that a run of a well-formed controller reaches, the cancellation of the literal
  -- assigned last gives a controller, which a run without that literal reaches.
  pub Runs-cancel :
      {trail : List Literal} {c : SymmetryController} (l : T)
      → Runs convert_to convert_from begin (convert_to l ∷ trail) c
      → (c' : SymmetryController) × (update_cancel convert_to convert_from l c ≡ some c')
        × Runs convert_to convert_from begin trail c'
  Runs-cancel {trail} {c} l run =
      let (c', cancelled, _) =
        cancel-IsRunning convert_to convert_from o l trail c (Runs-IsRunning run) in
      (c', cancelled, cancels l run cancelled)

  -- When all literals of a run of a well-formed controller are cancelled, no variable has a value,
  -- and every status stands at lookup index 0 with no infos.
  pub Runs-AtStart :
      {c : SymmetryController} {m : CosyManager}
      → Runs convert_to convert_from begin [] c
      → c.cosy_manager ≡ some m
      → ((v : BooleanVariable) → valuation c.assignment v ≡ none)
        × ((i : ℕ) → i < length m.statuses → AtStart (status m.statuses i))
  Runs-AtStart {c} {m} run held =
      let r = Runs-IsRunning run in
      let e : r.manager ≡ m = cc (held, r.held) in
      let managed : IsManaged c.group o [] m = rw e at (r.managed) in
      (
        r.follows,
        λ i lt.
            let placed = managed.placed i lt in
            let s = status m.statuses i in
            let (index, infos) =
              Traced-at_start placed.permutation s.lookup_order s.lookup_infos s.lookup_index
                placed.traced.traced in
            record { index = index; infos = infos },
      )
