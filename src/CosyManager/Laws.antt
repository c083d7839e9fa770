-- ===== src/CosyManager/Laws.antt =====
-- CosyManager.cc, updateNotify and updateCancel over all statuses that watch a variable.
use mathlib.Core.Path.{subst}
use sat_symmetry.Prelude.{
  ℕ, ◌<◌, ◌≡◌, ◌⊎◌, refl, sym, ◌∙◌, arith, Bool, true, false, some, List, [], ◌∷◌, ◌==◌,
  if◌then◌else◌, get_elem?, set, length, length-set, get_or-set, contains, Bool-cases, inl, inr,
}
use sat_symmetry.Literal.{Literal, variable}
use sat_symmetry.Assignment.{Assignment}
use sat_symmetry.Permutation.{Permutation}
use sat_symmetry.Order.{Order}
use sat_symmetry.Order.Laws.{IsOrder}
use sat_symmetry.ClauseInjector.{ClauseInjector}
use sat_symmetry.Group.{Group, watch}
use sat_symmetry.Group.Laws.{get_elem?-get_or}
use sat_symmetry.CosyStatus.{CosyStatus, new_status}
use sat_symmetry.CosyStatus.Lookup.{IsStatus}
use sat_symmetry.CosyStatus.Cancel.{NotLast, SameLookup, cancel_skips, update_cancel-update_notify}
use sat_symmetry.CosyStatus
use sat_symmetry.CosyManager.Walk.{some_of, NoRepeat, status, status_apart, cancel_statuses_lem}
use sat_symmetry.CosyManager.{
  CosyManager, notify_statuses, inject_after_notify, update_notify, update_cancel,
}

-- What each status that watches the literal is before the notification.
abbrev pub Ready : List Permutation → Order → Literal → List CosyStatus → ℕ → Type 0
Ready ps o l ss i =
    (i < length ss)
    × (p : Permutation) × (get_elem? ps i ≡ some p)
    × IsStatus p o (status ss i)
    × NotLast (variable l) (status ss i).lookup_infos

abbrev Undone : Literal → CosyStatus → CosyStatus → Type 0
Undone l s s' = SameLookup (CosyStatus.update_cancel l s') s

unnotified : (l : Literal) (s : CosyStatus) → NotLast (variable l) s.lookup_infos → Undone l s s
unfolding CosyStatus.update_cancel
unnotified l s h =
    subst (λ t. SameLookup t s) (sym (cancel_skips (variable l) s.lookup_infos s h))
      (refl, refl, refl)

-- A status is as it was, or it has been notified.
abbrev pub Stepped :
    List Permutation → Order → Assignment → Literal → ℕ → CosyStatus → CosyStatus → Type 0
Stepped ps o a l i s s' =
    (s' ≡ s)
    ⊎ ((p : Permutation) × (get_elem? ps i ≡ some p)
        × (CosyStatus.update_notify p o a l s ≡ some s'))

-- What the walk over the statuses leaves of each of them.
pub record Walked (ps : List Permutation) (o : Order) (a : Assignment) (l : Literal) (is : List ℕ)
    (ss ss' : List CosyStatus) : Type 0 where
  pub size : length ss' ≡ length ss
  pub notified : (i : ℕ) → contains is i ≡ true → Stepped ps o a l i (status ss i) (status ss' i)
  pub others : (i : ℕ) → contains is i ≡ false → status ss' i ≡ status ss i

module _ (o : Order) (ps : List Permutation) (a : Assignment) (l : Literal) (h : IsOrder o) where
  abbrev pub AllReady : List ℕ → List CosyStatus → Type 0
  AllReady is ss = (i : ℕ) → contains is i ≡ true → Ready ps o l ss i

  -- After status `k` has changed, the walk goes on over other ones, or stops.
  Walked-step :
      (k : ℕ) (rest : List ℕ) (ss ss' : List CosyStatus) (s' : CosyStatus)
      → contains rest k ≡ false
      → k < length ss
      → Stepped ps o a l k (status ss k) s'
      → Walked ps o a l rest (set ss k s') ss'
      → Walked ps o a l (k ∷ rest) ss ss'
  Walked-step k rest ss ss' s' apart lt step w = record {
    size = w.size ∙ length-set ss k s';
    notified = λ i m. elim (Bool-cases (k == i)) [
      | inl same ↦
          let e : k ≡ i = ground arith in
          let value : status (set ss k s') k ≡ s' =
            get_or-set ss k k s' new_status lt ∙ ground arith in
          rw (← e, w.others k apart, value) step
      | inr other ↦
          let value : status (set ss k s') i ≡ status ss i =
            get_or-set ss k i s' new_status lt ∙ ground arith in
          rw value at (w.notified i (ground arith))
    ];
    others = λ i m. w.others i (ground arith) ∙ get_or-set ss k i s' new_status lt ∙ ground arith;
  }

  stopped : (rest : List ℕ) (ss : List CosyStatus) → Walked ps o a l rest ss ss
  stopped rest ss = record { size = refl; notified = λ i m. inl refl; others = λ i m. refl }

  pub ready_rest :
      (k : ℕ) (rest : List ℕ) (ss : List CosyStatus) (s' : CosyStatus)
      → contains rest k ≡ false
      → k < length ss
      → AllReady (k ∷ rest) ss
      → AllReady rest (set ss k s')
  ready_rest k rest ss s' apart lt ready i m =
      let value = status_apart k rest ss s' i apart lt m in
      let (inside, p, found, st, last) = ready i (ground arith) in
      (omega (arith, inside, length-set ss k s'), p, found, rw value st, rw value last)

  pub notify_statuses-Walked :
      (is : List ℕ) (ss ss' : List CosyStatus) (injector injector' : ClauseInjector)
      → NoRepeat is
      → AllReady is ss
      → notify_statuses (some o) ps a l is ss injector ≡ some (ss', injector')
      → Walked ps o a l is ss ss'
  unfolding notify_statuses
  notify_statuses-Walked [] ss ss' injector injector' apart ready said =
      let e : ss ≡ ss' = cc in subst (Walked ps o a l [] ss) e (stopped [] ss)
  notify_statuses-Walked (k ∷ is) ss ss' injector injector' apart ready said =
      let (inside, p, found, st, last) = ready k (ground arith) in
      let (s, at_k, rest) = some_of (get_elem? ss k) _ _ said in
      let (p', at_p, rest_p) = some_of (get_elem? ps k) _ _ rest in
      let (s', made, rest_s) = some_of (CosyStatus.update_notify p' o a l s) _ _ rest_p in
      let ((i', goes_on), gave, rest_i) =
        some_of (inject_after_notify p' a l s' injector) _ _ rest_s in
      let same_p : p' ≡ p = cc in
      let value : status ss k ≡ s = (get_elem?-get_or ss k new_status s at_k).0 in
      let step : Stepped ps o a l k (status ss k) s' =
        inr (p, found, rw (same_p, ← value) at made) in
      let ready' = ready_rest k is ss s' apart.0 inside ready in
      Walked-step k is ss ss' s' apart.0 inside step (
        finish goes_on i' s'
          (λ e. notify_statuses-Walked is (set ss k s') ss' i' injector' apart.1 ready' e) rest_i)
    where
      finish :
          (goes_on : Bool) (i' : ClauseInjector) (s' : CosyStatus)
          → (notify_statuses (some o) ps a l is (set ss k s') i' ≡ some (ss', injector')
              → Walked ps o a l is (set ss k s') ss')
          → (if goes_on
              then notify_statuses (some o) ps a l is (set ss k s') i'
              else some (set ss k s', i'))
            ≡ some (ss', injector')
          → Walked ps o a l is (set ss k s') ss'
      finish true i' s' next e = next e
      finish false i' s' next e =
          let same : set ss k s' ≡ ss' = cc in
          subst (Walked ps o a l is (set ss k s')) same (stopped is (set ss k s'))

Stepped-Undone :
    (o : Order) (ps : List Permutation) (a : Assignment) (l : Literal)
    → IsOrder o
    → (i : ℕ) (s s' : CosyStatus) (p : Permutation) → get_elem? ps i ≡ some p
    → IsStatus p o s
    → NotLast (variable l) s.lookup_infos
    → Stepped ps o a l i s s'
    → Undone l s s'
Stepped-Undone o ps a l h i s s' p found st last (inl same) = rw same (unnotified l s last)
Stepped-Undone o ps a l h i s s' p found st last (inr (q, found', made)) =
    let same : q ≡ p = cc in update_cancel-update_notify p o a l s s' h st last (rw same at made)

-- Where the literal is watched by statuses none of which is listed twice, which are well formed
-- and whose last info is of another variable, the notification of the literal, if it gives a
-- result, is undone by its cancellation: that succeeds, and leaves every status at its old place,
-- with its old infos and lookup order.
pub notify_cancel :
    (g : Group) (o : Order) (a : Assignment) (l : Literal) (m m' : CosyManager)
    → (injector injector' : ClauseInjector) (is : List ℕ) → IsOrder o
    → m.order ≡ some o
    → watch g (variable l) ≡ some is
    → NoRepeat is
    → ((i : ℕ) → contains is i ≡ true → Ready g.permutations o l m.statuses i)
    → update_notify g a l m injector ≡ some (m', injector')
    → (m'' : CosyManager) × (update_cancel g l m' ≡ some m'')
      × (length m''.statuses ≡ length m.statuses)
      × ((i : ℕ) → SameLookup (status m''.statuses i) (status m.statuses i))
unfolding update_notify update_cancel
notify_cancel g o a l m m' injector injector' is h placed watched apart ready said =
    let ((ss', i'), walked, made) =
      some_of (notify_statuses (some o) g.permutations a l is m.statuses injector) _ _
        (rw (watched, placed) at said) in
    let statuses : m'.statuses ≡ ss' = cc in
    let w =
      notify_statuses-Walked o g.permutations a l h is m.statuses ss' injector i' apart ready
        walked in
    let undone : (i : ℕ) → contains is i ≡ true → Undone l (status m.statuses i) (status ss' i) =
      λ i on.
        let (inside, p, found, st, last) = ready i on in
        Stepped-Undone o g.permutations a l h i (status m.statuses i) (status ss' i) p found st last
          (w.notified i on) in
    let (ss'', cancelled, size, value) =
      cancel_statuses_lem l is ss' apart (λ i m. rw (w.size) (ready i m).0) in
    (
      record m' { statuses = ss'' },
      rw (watched, statuses, cancelled),
      size ∙ w.size,
      λ i. elim (Bool-cases (contains is i)) [
        | inl on ↦ rw (value i, on) (undone i on)
        | inr off ↦ rw (value i, off, w.others i off) (refl, refl, refl)
      ],
    )
