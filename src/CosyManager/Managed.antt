-- ===== src/CosyManager/Managed.antt =====
-- CosyManager.cc: all statuses stand where the literals that are assigned now brought them.
use mathlib.Core.Path.{subst}
use sat_symmetry.Prelude.{
  ℕ, zero, suc, ◌<◌, ◌≡◌, refl, ap, ◌∙◌, arith, true, false, some, List, [], ◌∷◌, get_elem?, length,
  contains, Bool-cases, inl, inr, All, ◌==◌,
}
use sat_symmetry.Literal.{Literal, BooleanVariable, variable}
use sat_symmetry.Assignment.{Assignment, IsAssignment}
use sat_symmetry.Permutation.{Permutation}
use sat_symmetry.Order.{Order}
use sat_symmetry.Order.Laws.{IsOrder}
use sat_symmetry.ClauseInjector.{ClauseInjector}
use sat_symmetry.Group.{Group, watch}
use sat_symmetry.CosyStatus.{CosyStatus, LookupInfo, cancel_info}
use sat_symmetry.CosyStatus.Notify.{advance, rounds, remember, update_notify_lem}
use sat_symmetry.CosyStatus.Cancel.{NotLast, cancel_skips}
use sat_symmetry.CosyStatus.Trail.{IsTrail, Traced-NotLast}
use sat_symmetry.CosyStatus.Traced.{
  Follows, IsTraced, push-IsTraced, notify-IsTraced, cancel-IsTraced,
}
use sat_symmetry.CosyStatus
use sat_symmetry.CosyManager.{CosyManager, notify_statuses, update_notify, update_cancel}
use sat_symmetry.CosyManager.Laws.{Ready, Stepped, notify_statuses-Walked}
use sat_symmetry.CosyManager.Walk.{some_of, NoRepeat, status, cancel_statuses_lem}

-- Status `i` watches the variable.
abbrev pub WatchedBy : Group → BooleanVariable → ℕ → Type 0
WatchedBy g v i = (is : List ℕ) × (watch g v ≡ some is) × (contains is i ≡ true)

-- The variable has watchers, none of them twice, and all of them below `n`.
abbrev pub IsWatching : Group → ℕ → BooleanVariable → Type 0
IsWatching g n v =
    (is : List ℕ) × (watch g v ≡ some is) × NoRepeat is × ((i : ℕ) → contains is i ≡ true → i < n)

-- Status `i` stands where the trail brought it, by notifications of variables that it watches.
pub record Placed (g : Group) (o : Order) (trail : List Literal) (i : ℕ) (s : CosyStatus)
    : Type 0 where
  pub permutation : Permutation
  pub found : get_elem? g.permutations i ≡ some permutation
  pub traced : IsTraced permutation o trail s
  pub watched : All (λ (info : LookupInfo). WatchedBy g info.variable i) s.lookup_infos

pub record IsManaged (g : Group) (o : Order) (trail : List Literal) (m : CosyManager) : Type 0 where
  pub order : m.order ≡ some o
  pub placed : (i : ℕ) → i < length m.statuses → Placed g o trail i (status m.statuses i)

module _ (g : Group) (o : Order) (l : Literal) (trail : List Literal) where
  push-Placed : (i : ℕ) (s : CosyStatus) → Placed g o trail i s → Placed g o (l ∷ trail) i s
  push-Placed i s h = record {
    permutation = h.permutation;
    found = h.found;
    traced = push-IsTraced h.permutation o l trail s h.traced;
    watched = h.watched;
  }

  watched-remember :
      (p : Permutation) (a : Assignment) (i k : ℕ) (s : CosyStatus)
      → WatchedBy g (variable l) i
      → All (λ (info : LookupInfo). WatchedBy g info.variable i) s.lookup_infos
      → All (λ (info : LookupInfo). WatchedBy g info.variable i) (remember p o a (variable l) k s)
  watched-remember p a i zero s w h = h
  watched-remember p a i (suc k) s w h = (w, h)

  notify-Placed :
      (a : Assignment) (i : ℕ) (s s' : CosyStatus)
      → IsOrder o
      → IsAssignment a
      → Follows a (l ∷ trail)
      → IsTrail (l ∷ trail)
      → WatchedBy g (variable l) i
      → Placed g o trail i s
      → Stepped g.permutations o a l i s s'
      → Placed g o (l ∷ trail) i s'
  notify-Placed a i s s' h k f t w placed (inl same) = rw same (push-Placed i s placed)
  notify-Placed a i s s' h k f t w placed (inr (q, found, said)) =
      let p = placed.permutation in
      let same : q ≡ p = cc (found, placed.found) in
      let said' : CosyStatus.update_notify p o a l s ≡ some s' = rw same at said in
      let made = update_notify_lem p o a l s h placed.traced.status in
      let n = advance p o a (rounds p o a s) s in
      let infos : s'.lookup_infos ≡ remember p o a (variable l) n s = cc (made, said') in
      record {
        permutation = p;
        found = placed.found;
        traced = (notify-IsTraced p o a l trail s s' h k f t placed.traced said').0;
        watched = rw infos (watched-remember p a i n s w placed.watched);
      }

  -- The infos that a cancellation leaves.
  watched-cancel :
      (i : ℕ) (v : BooleanVariable) (infos : List LookupInfo) (s : CosyStatus)
      → s.lookup_infos ≡ infos
      → All (λ (info : LookupInfo). WatchedBy g info.variable i) infos
      → All
          (λ (info : LookupInfo). WatchedBy g info.variable i)
          (cancel_info v infos s).lookup_infos
  watched-cancel i v [] s e h = rw e h
  watched-cancel i v (info ∷ rest) s e h = elim (Bool-cases (info.variable == v)) [
    | inl same ↦ rw same h.1
    | inr other ↦ rw (other, e) h
  ]

  cancel-Placed :
      (i : ℕ) (s : CosyStatus)
      → IsTrail (l ∷ trail)
      → Placed g o (l ∷ trail) i s
      → Placed g o trail i (CosyStatus.update_cancel l s)
  unfolding CosyStatus.update_cancel
  cancel-Placed i s t h = record {
    permutation = h.permutation;
    found = h.found;
    traced =
        unfold CosyStatus.update_cancel in cancel-IsTraced h.permutation o l trail s t h.traced;
    watched = watched-cancel i (variable l) s.lookup_infos s refl h.watched;
  }

  pub managed-Ready :
      (m : CosyManager) (i : ℕ)
      → IsTrail (l ∷ trail)
      → IsManaged g o trail m
      → i < length m.statuses
      → Ready g.permutations o l m.statuses i
  managed-Ready m i t h lt =
      let placed = h.placed i lt in
      let p = placed.permutation in
      let s = status m.statuses i in
      (
        lt,
        p,
        placed.found,
        placed.traced.status,
        Traced-NotLast p s.lookup_order trail s.lookup_infos s.lookup_index (variable l)
            placed.traced.traced t.0,
      )

  pub notify-IsManaged :
      (a : Assignment) (m m' : CosyManager) (injector injector' : ClauseInjector)
      → IsOrder o
      → IsAssignment a
      → Follows a (l ∷ trail)
      → IsTrail (l ∷ trail)
      → IsManaged g o trail m
      → IsWatching g (length m.statuses) (variable l)
      → update_notify g a l m injector ≡ some (m', injector')
      → IsManaged g o (l ∷ trail) m' × (length m'.statuses ≡ length m.statuses)
  unfolding update_notify
  notify-IsManaged a m m' injector injector' h k f t managed (is, watched, apart, inside) said =
      let ((ss', i'), walked, made) =
        some_of (notify_statuses (some o) g.permutations a l is m.statuses injector) _ _
          (rw (watched, managed.order) at said) in
      let statuses : m'.statuses ≡ ss' = cc in
      let order : m'.order ≡ some o = cc made in
      let w =
        notify_statuses-Walked o g.permutations a l h is m.statuses ss' injector i' apart
          (λ i on. managed-Ready m i t managed (inside i on)) walked in
      (
        record {
          order = order;
          placed = λ i lt.
              let lt' : i < length m.statuses = omega (arith, lt, w.size, ap length statuses) in
              let before = managed.placed i lt' in
              rw statuses (elim (Bool-cases (contains is i)) [
                | inl on ↦
                    notify-Placed a i (status m.statuses i) (status ss' i) h k f t (is, watched, on)
                      before (w.notified i on)
                | inr off ↦ rw (w.others i off) (push-Placed i (status m.statuses i) before)
              ]);
        },
        ap length statuses ∙ w.size,
      )

  -- A cancellation skips a status that does not watch the variable.
  unwatched-NotLast :
      (i : ℕ) (is : List ℕ) (v : BooleanVariable) (infos : List LookupInfo)
      → watch g v ≡ some is
      → contains is i ≡ false
      → All (λ (info : LookupInfo). WatchedBy g info.variable i) infos
      → NotLast v infos
  unwatched-NotLast i is v [] watched off h = tt
  unwatched-NotLast i is v (info ∷ rest) watched off ((js, watching, on), h) = λ same.
      let e : js ≡ is = cc (watching, watched, same) in let bad = rw e at on in cc (bad, off)

  cancel_unwatched :
      (i : ℕ) (is : List ℕ) (s : CosyStatus)
      → contains is i ≡ false
      → watch g (variable l) ≡ some is
      → Placed g o (l ∷ trail) i s
      → CosyStatus.update_cancel l s ≡ s
  unfolding CosyStatus.update_cancel
  cancel_unwatched i is s off watched before =
      cancel_skips (variable l) s.lookup_infos s
        (unwatched-NotLast i is (variable l) s.lookup_infos watched off before.watched)

  pub cancel-IsManaged :
      (m : CosyManager)
      → IsTrail (l ∷ trail)
      → IsManaged g o (l ∷ trail) m
      → IsWatching g (length m.statuses) (variable l)
      → (m' : CosyManager) × (update_cancel g l m ≡ some m')
        × IsManaged g o trail m'
        × (length m'.statuses ≡ length m.statuses)
  unfolding update_cancel
  cancel-IsManaged m t managed (is, watched, apart, inside) =
      let (ss', made, size, said) = cancel_statuses_lem l is m.statuses apart inside in
      (
        record m { statuses = ss' },
        rw (watched, made),
        record {
          order = managed.order;
          placed = λ i lt.
              let before = managed.placed i (omega (arith, lt, size)) in
              let after = cancel-Placed i (status m.statuses i) t before in
              elim (Bool-cases (contains is i)) [
                | inl on ↦ rw (said i, on) after
                | inr off ↦
                    rw (said i, off)
                      (subst (Placed g o trail i)
                        (cancel_unwatched i is (status m.statuses i) off watched before) after)
              ];
        },
        size,
      )
