-- ===== src/CosyManager/Conflict.antt =====
-- CosyManager.cc, updateNotify: the ESBP clauses that a notification adds.
use mathlib.Core.Path.{subst}
use sat_symmetry.Prelude.{
  ℕ, ◌<◌, ◌≡◌, refl, sym, ap, ◌∙◌, arith, Bool, true, false, some, List, [], ◌∷◌, length, All,
  if◌then◌else◌, ◌==◌, Bool-cases, inl, inr, contains, get_elem?, set, length-set,
}
use sat_symmetry.Literal.{Literal, BooleanVariable, variable}
use sat_symmetry.Assignment.{Assignment, IsAssignment, literal_is_false}
use sat_symmetry.Permutation.{Permutation}
use sat_symmetry.Order.{Order}
use sat_symmetry.Order.Laws.{IsOrder}
use sat_symmetry.Injector.{is_empty}
use sat_symmetry.ClauseInjector.{ClauseInjector, esbp, add_clause}
use sat_symmetry.ClauseInjector.Laws.{waiting, waiting-add_clause}
use sat_symmetry.Group.{Group}
use sat_symmetry.Group.Laws.{get_elem?-get_or}
use sat_symmetry.CosyStatus.{
  CosyStatus, CosyState, inactive, active, reducer, force_lex_leader, is_lookup_end, new_status,
  generate_esbp, esbp_clause,
}
use sat_symmetry.CosyStatus.Lookup.{IsStatus}
use sat_symmetry.CosyStatus.Notify.{update_notify_lem, update_state_lem, state_at}
use sat_symmetry.CosyStatus.Sound.{made_conflict}
use sat_symmetry.CosyStatus.Trail.{IsTrail}
use sat_symmetry.CosyStatus.Traced.{Follows, IsTraced, IsTraced-Agreed, notify-IsTraced}
use sat_symmetry.CosyStatus
use sat_symmetry.CosyManager.{
  CosyManager, is_reducer, inject_after_notify, notify_statuses, update_notify,
}
use sat_symmetry.CosyManager.Walk.{some_of, some_injective, NoRepeat, status, status_apart}
use sat_symmetry.CosyManager.Managed.{Placed, IsWatching, IsManaged}

abbrev pub IsConflict : Assignment → List Literal → Type 0
IsConflict a clause = All (λ m. literal_is_false a m ≡ true) clause

-- The ESBP clauses of one variable change, and only by clauses that are false.
pub record Adds (a : Assignment) (v : BooleanVariable) (i i' : ClauseInjector) : Type 0 where
  pub others :
      (w : BooleanVariable) → (v == w) ≡ false → waiting i' esbp (some w) ≡ waiting i esbp (some w)
  pub conflicts :
      All (IsConflict a) (waiting i esbp (some v)) → All (IsConflict a) (waiting i' esbp (some v))

Adds-same : (a : Assignment) (v : BooleanVariable) (i : ClauseInjector) → Adds a v i i
Adds-same a v i = record { others = λ w other. refl; conflicts = λ h. h }

Adds-trans :
    (a : Assignment) (v : BooleanVariable) (i j k : ClauseInjector)
    → Adds a v i j
    → Adds a v j k
    → Adds a v i k
Adds-trans a v i j k x y = record {
  others = λ w other. y.others w other ∙ x.others w other;
  conflicts = λ h. y.conflicts (x.conflicts h);
}

Adds-add_clause :
    (a : Assignment) (v : BooleanVariable) (clause : List Literal) (i : ClauseInjector)
    → IsConflict a clause
    → Adds a v i (add_clause esbp (some v) clause i)
Adds-add_clause a v clause i h = record {
  others = λ w other. waiting-add_clause esbp esbp (some v) (some w) clause i ∙ rw other;
  conflicts = λ all.
      let self : (v == v) ≡ true = ground arith in
      rw (waiting-add_clause esbp esbp (some v) (some v) clause i, self)
        (elim (Bool-cases (is_empty (waiting i esbp (some v)))) [
          | inl empty ↦ rw empty (h, all)
          | inr full ↦ rw full all
        ]);
}

reducer-is_reducer : (state : CosyState) → is_reducer state ≡ true → state ≡ reducer
reducer-is_reducer inactive e = cc
reducer-is_reducer active e = cc
reducer-is_reducer reducer e = refl
reducer-is_reducer force_lex_leader e = cc

-- The state that a notification leaves is that of the pair where it stops.
state_notified :
    (p : Permutation) (o : Order) (a : Assignment) (l : Literal) (s s' : CosyStatus)
    → IsOrder o
    → IsStatus p o s
    → CosyStatus.update_notify p o a l s ≡ some s'
    → (if is_lookup_end s' then active else state_at p o a s') ≡ s'.state
unfolding is_lookup_end
state_notified p o a l s s' h k said =
    subst (λ r. (if is_lookup_end r then active else state_at p o a r) ≡ r.state)
      (some_injective _ _ (sym (update_notify_lem p o a l s h k) ∙ said)) refl

module _ (o : Order) (a : Assignment) (l : Literal) (trail : List Literal) (h : IsOrder o)
    (k : IsAssignment a) (f : Follows a (l ∷ trail)) (t : IsTrail (l ∷ trail)) where
  inject-Adds :
      (p : Permutation) (s s' : CosyStatus) (i i' : ClauseInjector) (goes_on : Bool)
      → IsTraced p o trail s
      → CosyStatus.update_notify p o a l s ≡ some s'
      → inject_after_notify p a l s' i ≡ some (i', goes_on)
      → Adds a (variable l) i i'
  unfolding inject_after_notify generate_esbp
  inject-Adds p s s' i i' goes_on traced said injected = elim (Bool-cases (is_reducer s'.state)) [
    | inl red ↦
        let after = (notify-IsTraced p o a l trail s s' h k f t traced said).0 in
        let agreed = IsTraced-Agreed p o a (l ∷ trail) s' k f t after in
        let state = reducer-is_reducer s'.state red in
        let (_, generated, _) =
          some_of (generate_esbp p a (variable l) s' i) _ _ (rw red at injected) in
        let (clause, made, _) = some_of (esbp_clause p a (variable l) s') _ _ generated in
        let conflict =
          made_conflict p o a s' _ (variable l) clause h k after.status agreed
            (update_state_lem p o a s' h after.status.lookups)
            (state_notified p o a l s s' h traced.status said ∙ state)
            (rw (f (variable l)) (ground arith)) made in
        let e : add_clause esbp (some (variable l)) clause i ≡ i' =
          (let paired = some_injective _ _ (rw (red, made) at injected) in
            ap (λ (r : ClauseInjector × Bool). r.0) paired) in
        subst (Adds a (variable l) i) e (Adds-add_clause a (variable l) clause i conflict)
    | inr other ↦
        let e : i ≡ i' =
          ap (λ (r : ClauseInjector × Bool). r.0) (some_injective _ _ (rw other at injected)) in
        subst (Adds a (variable l) i) e (Adds-same a (variable l) i)
  ]

  notify_statuses-Adds :
      (g : Group) (is : List ℕ) (ss ss' : List CosyStatus) (i i' : ClauseInjector)
      → NoRepeat is
      → ((j : ℕ) → contains is j ≡ true → (j < length ss) × Placed g o trail j (status ss j))
      → notify_statuses (some o) g.permutations a l is ss i ≡ some (ss', i')
      → Adds a (variable l) i i'
  unfolding notify_statuses
  notify_statuses-Adds g [] ss ss' i i' apart placed said =
      let e : i ≡ i' = cc in subst (Adds a (variable l) i) e (Adds-same a (variable l) i)
  notify_statuses-Adds g (j ∷ is) ss ss' i i' apart placed said =
      let (inside, at) = placed j (ground arith) in
      let (s, at_j, rest) = some_of (get_elem? ss j) _ _ said in
      let (p, at_p, rest_p) = some_of (get_elem? g.permutations j) _ _ rest in
      let (s', made, rest_s) = some_of (CosyStatus.update_notify p o a l s) _ _ rest_p in
      let ((i'', goes_on), gave, rest_i) = some_of (inject_after_notify p a l s' i) _ _ rest_s in
      let same_p : at.permutation ≡ p = cc (at_p, at.found) in
      let value : status ss j ≡ s = (get_elem?-get_or ss j new_status s at_j).0 in
      let traced : IsTraced p o trail s = rw (same_p, value) at (at.traced) in
      let first = inject-Adds p s s' i i'' goes_on traced made gave in
      let placed' : (n : ℕ)
          → contains is n ≡ true
          → (n < length (set ss j s')) × Placed g o trail n (status (set ss j s') n) =
        λ n on.
          let (inside', at') = placed n (ground arith) in
          (
            omega (arith, inside', length-set ss j s'),
            subst (Placed g o trail n) (sym (status_apart j is ss s' n apart.0 inside on)) at',
          ) in
      finish goes_on i'' s' first
        (λ e. notify_statuses-Adds g is (set ss j s') ss' i'' i' apart.1 placed' e) rest_i
    where
      finish :
          (goes_on : Bool) (i'' : ClauseInjector) (s' : CosyStatus)
          → Adds a (variable l) i i''
          → (notify_statuses (some o) g.permutations a l is (set ss j s') i'' ≡ some (ss', i')
              → Adds a (variable l) i'' i')
          → (if goes_on
              then notify_statuses (some o) g.permutations a l is (set ss j s') i''
              else some (set ss j s', i''))
            ≡ some (ss', i')
          → Adds a (variable l) i i'
      finish true i'' s' first next e = Adds-trans a (variable l) i i'' i' first (next e)
      finish false i'' s' first next e =
          let same : i'' ≡ i' =
            ap (λ (r : List CosyStatus × ClauseInjector). r.1) (some_injective _ _ e) in
          subst (Adds a (variable l) i) same first

  pub update_notify-Adds :
      (g : Group) (m m' : CosyManager) (i i' : ClauseInjector)
      → IsManaged g o trail m
      → IsWatching g (length m.statuses) (variable l)
      → update_notify g a l m i ≡ some (m', i')
      → Adds a (variable l) i i'
  unfolding update_notify
  update_notify-Adds g m m' i i' managed (is, watched, apart, inside) said =
      let ((ss', i''), walked, made) =
        some_of (notify_statuses (some o) g.permutations a l is m.statuses i) _ _
          (rw (watched, managed.order) at said) in
      let same : i'' ≡ i' =
        ap (λ (r : CosyManager × ClauseInjector). r.1) (some_injective _ _ made) in
      subst (Adds a (variable l) i) same (
        notify_statuses-Adds g is m.statuses ss' i i'' apart
          (λ j on. (inside j on, managed.placed j (inside j on))) walked)
