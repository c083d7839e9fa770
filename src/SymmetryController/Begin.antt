-- ===== src/SymmetryController/Begin.antt =====
-- SymmetryController.h, enableCosy: the controller before the first notification.
use sat_symmetry.Prelude.{
  ℕ, ◌*◌, ◌<◌, ◌≡◌, refl, ◌∙◌, false, ◌==◌, some, List, [], All, All-implied, length, get_elem?,
}
use sat_symmetry.Literal.{Literal, BooleanVariable, variable}
use sat_symmetry.Bitset.{resize_to}
use sat_symmetry.Assignment.{assignment_of_size, resize}
use sat_symmetry.Assignment.Laws.{assignment_of_size_lem}
use sat_symmetry.Permutation.{Permutation}
use sat_symmetry.Order.{Order, OrderMode, ValueMode}
use sat_symmetry.Order.Laws.{IsOrder}
use sat_symmetry.Orbits.{Classes}
use sat_symmetry.OrderFactory.{create}
use sat_symmetry.Injector.{new_injector, clauses_of}
use sat_symmetry.ClauseInjector.{esbp, new_clause_injector, injector_of}
use sat_symmetry.ClauseInjector.Laws.{waiting}
use sat_symmetry.Group.{Group, number_of_permutations}
use sat_symmetry.Group.Laws.{get_elem?_inside}
use sat_symmetry.CosyStatus.Lookup.{IsLookup}
use sat_symmetry.CosyManager.Managed.{IsWatching}
use sat_symmetry.CosyManager.Define.{
  watched_by, define_order_lem, IsDefined, IsDefined-IsManaged, generate_units_total,
}
use sat_symmetry.SymmetryController.{SymmetryController, loaded, enable_cosy}
use sat_symmetry.SymmetryController.Run.{IsRunning}

-- The order has literals in range, each variable in range has watchers, and what a permutation
-- watches can be looked up.
pub record IsOrdered (g : Group) (o : Order) (num_vars : ℕ) : Type 0 where
  pub order : IsOrder o
  pub literals : All (λ (l : Literal). l < num_vars * 2) o.literals
  pub watching :
      (l : Literal) → l < num_vars * 2 → IsWatching g (length g.permutations) (variable l)
  pub lookups :
      (i : ℕ) (p : Permutation)
      → get_elem? g.permutations i ≡ some p
      → All (IsLookup p o) (watched_by g i o.literals)

-- With a permutation in the group, an order that create gives, whose literals are in range and
-- whose pairs can be looked up, and watchers for each variable in range, none listed twice,
-- enable_cosy of a loaded controller gives a well-formed controller for a run, in which no ESBP
-- clause waits.
pub enable_cosy-IsRunning :
    (walk : Classes → Classes) (vars : OrderMode) (value : ValueMode)
    → (num_vars : ℕ) (occurences : List ℕ) (g : Group) (o : Order)
    → (number_of_permutations g == 0) ≡ false
    → create walk vars value num_vars occurences g ≡ some o
    → IsOrdered g o num_vars
    → (c : SymmetryController) × (enable_cosy walk vars value (loaded num_vars occurences g)
        ≡ some c)
      × IsRunning o [] c
      × ((v : BooleanVariable) → waiting c.injector esbp (some v) ≡ [])
unfolding loaded enable_cosy resize resize_to assignment_of_size
enable_cosy-IsRunning walk vars value num_vars occurences g o some_permutation created h =
    let (m, defined, order, size, statuses) = define_order_lem g o (
      All-implied (λ (l : Literal). l < num_vars * 2)
        (λ (l : Literal). IsWatching g (length g.permutations) (variable l)) h.watching o.literals
        h.literals) in
    let d : IsDefined g o m = record {
      order = order;
      size = size;
      statuses = λ i lt.
          let (p, found) = get_elem?_inside g.permutations i lt in
          (p, found, h.lookups i p found, statuses i);
    } in
    let (injector, generated, same) = generate_units_total g o m new_clause_injector d in
    let (assignment, _, free) = assignment_of_size_lem num_vars in
    (
      record (loaded num_vars occurences g) { cosy_manager = some m; injector = injector },
      rw (some_permutation, created, defined, generated),
      record {
        order = h.order;
        assignment = assignment;
        follows = free;
        distinct = tt;
        in_range = tt;
        manager = m;
        held = refl;
        managed = IsDefined-IsManaged g o m d;
        watching = λ l lt. rw size (h.watching l lt);
      },
      λ v. same v ∙ unfold new_clause_injector injector_of new_injector clauses_of in refl,
    )
