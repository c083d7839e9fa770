-- ===== src/CosyManager/Total.antt =====
-- CosyManager.cc, updateNotify: the walk over the statuses gives a result.
use sat_symmetry.Prelude.{
  ℕ, ◌<◌, ◌≡◌, refl, arith, Bool, true, false, some, List, [], ◌∷◌, set, length, contains,
  get_elem?, Bool-cases, inl, inr,
}
use sat_symmetry.Literal.{Literal, BooleanVariable, variable}
use sat_symmetry.Assignment.{Assignment}
use sat_symmetry.Permutation.{Permutation}
use sat_symmetry.Order.{Order}
use sat_symmetry.Order.Laws.{IsOrder}
use sat_symmetry.ClauseInjector.{ClauseInjector, esbp, add_clause}
use sat_symmetry.Group.{Group, watch}
use sat_symmetry.Group.Laws.{get_elem?-get_or, get_elem?_inside}
use sat_symmetry.CosyStatus.{
  CosyState, CosyStatus, inactive, active, reducer, force_lex_leader, new_status, is_lookup_end,
  generate_esbp, esbp_clause,
}
use sat_symmetry.CosyStatus.Lookup.{IsStatus}
use sat_symmetry.CosyStatus.Notify.{update_notify_lem}
use sat_symmetry.CosyStatus.Esbp.{HasOther, esbp_clause_total}
use sat_symmetry.CosyStatus
use sat_symmetry.CosyManager.{
  CosyManager, is_reducer, inject_after_notify, notify_statuses, update_notify,
}
use sat_symmetry.CosyManager.Laws.{Ready, AllReady, ready_rest}
use sat_symmetry.CosyManager.Walk.{NoRepeat, status, status_apart}

-- A status that is a reducer looks at a place before the end.
abbrev LooksInside : CosyStatus → Type 0
LooksInside s = is_reducer s.state ≡ true → s.lookup_index < length s.lookup_order

-- A notification of a status in place gives a status with the same lookup order.
status_notified :
    (p : Permutation) (o : Order) (a : Assignment) (l : Literal) (s : CosyStatus)
    → IsOrder o
    → IsStatus p o s
    → (s' : CosyStatus) × (CosyStatus.update_notify p o a l s ≡ some s')
      × (s'.lookup_order ≡ s.lookup_order)
      × LooksInside s'
unfolding is_lookup_end
status_notified p o a l s h st = (_, update_notify_lem p o a l s h st, refl, λ red. ground arith)

-- Where there is a first pair, it has a variable other than the given one.
abbrev pub FirstHasOther : Permutation → CosyStatus → BooleanVariable → Type 0
FirstHasOther p s v = 0 < length s.lookup_order → HasOther p s v 0

inject_total :
    (p : Permutation) (o : Order) (a : Assignment) (l : Literal) (s s' : CosyStatus)
    (injector : ClauseInjector)
    → IsStatus p o s
    → s'.lookup_order ≡ s.lookup_order
    → LooksInside s'
    → FirstHasOther p s (variable l)
    → (i : ClauseInjector) × (goes_on : Bool) × (inject_after_notify p a l s' injector
        ≡ some (i, goes_on))
unfolding inject_after_notify generate_esbp
inject_total p o a l s s' injector st same inside other = elim (Bool-cases (is_reducer s'.state)) [
  | inl red ↦
      let (clause, made) =
        esbp_clause_total p o a s' (variable l) (rw same st.lookups) (inside red) 0 (omega arith)
          (rw same (other (rw (← same) (omega (arith, inside red))))) in
      (add_clause esbp (some (variable l)) clause injector, false, rw (red, made))
  | inr other ↦ (injector, true, rw other)
]

module _ (o : Order) (ps : List Permutation) (a : Assignment) (l : Literal) (h : IsOrder o) where
  notify_statuses_total :
      (is : List ℕ) (ss : List CosyStatus) (injector : ClauseInjector)
      → NoRepeat is
      → AllReady o ps a l h is ss
      → ((i : ℕ) (p : Permutation)
          → contains is i ≡ true
          → get_elem? ps i ≡ some p
          → FirstHasOther p (status ss i) (variable l))
      → (ss' : List CosyStatus) × (i' : ClauseInjector) × (notify_statuses
            (some o)
            ps
            a
            l
            is
            ss
            injector
          ≡ some (ss', i'))
  unfolding notify_statuses
  notify_statuses_total [] ss injector apart ready others = (ss, injector, refl)
  notify_statuses_total (k ∷ is) ss injector apart ready others =
      let (inside, p, found, st, last) = ready k (ground arith) in
      let (s, at_k) = get_elem?_inside ss k inside in
      let value : status ss k ≡ s = (get_elem?-get_or ss k new_status s at_k).0 in
      let (s', made, same, looks) = status_notified p o a l (status ss k) h st in
      let (i', goes_on, gave) =
        inject_total p o a l (status ss k) s' injector st same looks
          (others k p (ground arith) found) in
      let (ss', i'', later) =
        notify_statuses_total is (set ss k s') i' apart.1
          (ready_rest o ps a l h k is ss s' apart.0 inside ready)
          (λ i q on at.
            rw (status_apart k is ss s' i apart.0 inside on) (others i q (ground arith) at)) in
      let made' : CosyStatus.update_notify p o a l s ≡ some s' = rw value at made in
      elim (Bool-cases goes_on) [
        | inl on ↦ (ss', i'', rw (at_k, found, made', gave, on, later))
        | inr off ↦ (set ss k s', i', rw (at_k, found, made', gave, off))
      ]

-- Where the literal is watched by statuses none of which is listed twice, which are well formed
-- and whose last info is of another variable, and where the first pair of each has a variable other
-- than that of the literal, the notification of the literal gives a result: no index, lookup or
-- DCHECK fails, whether a status stops the walk or not.
pub update_notify_total :
    (g : Group) (o : Order) (a : Assignment) (l : Literal) (m : CosyManager)
    → (injector : ClauseInjector) (is : List ℕ) → IsOrder o
    → m.order ≡ some o
    → watch g (variable l) ≡ some is
    → NoRepeat is
    → ((i : ℕ) → contains is i ≡ true → Ready g.permutations o l m.statuses i)
    → ((i : ℕ) (p : Permutation)
        → contains is i ≡ true
        → get_elem? g.permutations i ≡ some p
        → FirstHasOther p (status m.statuses i) (variable l))
    → (m' : CosyManager) × (i' : ClauseInjector) × (update_notify g a l m injector ≡ some (m', i'))
unfolding update_notify
update_notify_total g o a l m injector is h placed watched apart ready others =
    let (ss', i', made) =
      notify_statuses_total o g.permutations a l h is m.statuses injector apart ready others in
    (record m { statuses = ss' }, i', rw (watched, placed, made))
