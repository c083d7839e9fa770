-- ===== src/CosyStatus/Traced.antt =====
-- CosyStatus: the pairs before the lookup index agree after every sequence of notifications and
-- cancellations in which the literal assigned last is cancelled first.
use mathlib.Core.Path.{subst}
use sat_symmetry.Prelude.{
  ℕ, zero, suc, ◌+◌, ◌≤◌, ◌<◌, ◌≡◌, ◌⊎◌, refl, sym, ◌∙◌, arith, true, false, some, List, [], ◌∷◌,
}
use sat_symmetry.Literal.{Literal, BooleanVariable, variable}
use sat_symmetry.Assignment.{Assignment, IsAssignment, valuation}
use sat_symmetry.Assignment.Laws.{has_same_assignment_value_lem}
use sat_symmetry.Permutation.{Permutation}
use sat_symmetry.Order.{Order}
use sat_symmetry.Order.Laws.{IsOrder}
use sat_symmetry.CosyStatus.{
  CosyStatus, LookupInfo, update_notify, update_cancel, lookup_at, is_lookup_end, cancel_info,
}
use sat_symmetry.CosyStatus.Lookup.{twin, agree_at, Agreed, IsStatus}
use sat_symmetry.CosyStatus.Notify.{
  advance, rounds, remember, update_notify_lem, update_notify_moves,
}
use sat_symmetry.CosyStatus.Trail.{
  value_in, IsTrail, agrees_in, Traced, Traced-agreed, Traced-push, Traced-cancel,
}

-- The assignment has the values of the trail.
abbrev pub Follows : Assignment → List Literal → Type 0
Follows a trail = (v : BooleanVariable) → valuation a v ≡ value_in trail v

-- A status that stands where the trail brought it.
pub record IsTraced (p : Permutation) (o : Order) (trail : List Literal) (s : CosyStatus)
    : Type 0 where
  pub status : IsStatus p o s
  pub traced : Traced p s.lookup_order trail s.lookup_infos s.lookup_index

agree_at-agrees_in :
    (p : Permutation) (a : Assignment) (trail : List Literal) (s : CosyStatus) (i : ℕ)
    → IsAssignment a
    → Follows a trail
    → agree_at p a s i ≡ agrees_in p (value_in trail) s.lookup_order i
agree_at-agrees_in p a trail s i k f =
    has_same_assignment_value_lem a k (lookup_at s i) (twin p (lookup_at s i))
    ∙ rw (f (variable (lookup_at s i)), f (variable (twin p (lookup_at s i))))

pub IsTraced-Agreed :
    (p : Permutation) (o : Order) (a : Assignment) (trail : List Literal) (s : CosyStatus)
    → IsAssignment a
    → Follows a trail
    → IsTrail trail
    → IsTraced p o trail s
    → Agreed p a s
IsTraced-Agreed p o a trail s k f t h i lt =
    agree_at-agrees_in p a trail s i k f
    ∙ Traced-agreed p s.lookup_order trail s.lookup_infos s.lookup_index i t h.traced lt

pub push-IsTraced :
    (p : Permutation) (o : Order) (l : Literal) (trail : List Literal) (s : CosyStatus)
    → IsTraced p o trail s
    → IsTraced p o (l ∷ trail) s
push-IsTraced p o l trail s h = record {
  status = h.status;
  traced = Traced-push p s.lookup_order l trail s.lookup_infos s.lookup_index h.traced;
}

-- The segments after a walk over `k` pairs.
Traced-remember :
    (p : Permutation) (o : Order) (a : Assignment) (l : Literal) (trail : List Literal)
    (s : CosyStatus) (k : ℕ)
    → Traced p s.lookup_order trail s.lookup_infos s.lookup_index
    → ((i : ℕ)
        → i < s.lookup_index + k
        → agrees_in p (value_in (l ∷ trail)) s.lookup_order i ≡ true)
    → Traced p s.lookup_order (l ∷ trail) (remember p o a (variable l) k s) (s.lookup_index + k)
Traced-remember p o a l trail s zero h agreed =
    let e : s.lookup_index + 0 ≡ s.lookup_index = omega arith in
    rw e (Traced-push p s.lookup_order l trail s.lookup_infos s.lookup_index h)
Traced-remember p o a l trail s (suc k) h agreed = (
  trail,
  record {
    last = l;
    above = [];
    split = refl;
    same = refl;
    ordered = omega arith;
    agreed = agreed;
  },
  h,
)

-- A notified status: it stands where the new trail brings it, and where it stops the pair does not
-- agree, or the lookup order ends.
pub notify-IsTraced :
    (p : Permutation) (o : Order) (a : Assignment) (l : Literal) (trail : List Literal)
    (s s' : CosyStatus)
    → IsOrder o
    → IsAssignment a
    → Follows a (l ∷ trail)
    → IsTrail (l ∷ trail)
    → IsTraced p o trail s
    → update_notify p o a l s ≡ some s'
    → IsTraced p o (l ∷ trail) s'
      × ((is_lookup_end s' ≡ true) ⊎ (agree_at p a s' s'.lookup_index ≡ false))
notify-IsTraced p o a l trail s s' h k f t traced said =
    let before = push-IsTraced p o l trail s traced in
    let agreed = IsTraced-Agreed p o a (l ∷ trail) s k f t before in
    let (s'', moved, status, agreed', le, order, stops) =
      update_notify_moves p o a l s h traced.status agreed in
    let made = update_notify_lem p o a l s h traced.status in
    let n = advance p o a (rounds p o a s) s in
    let e : s'' ≡ s' = cc in
    let index : s'.lookup_index ≡ s.lookup_index + n = cc in
    let infos : s'.lookup_infos ≡ remember p o a (variable l) n s = cc in
    let order' : s'.lookup_order ≡ s.lookup_order = cc in
    let now : (i : ℕ)
        → i < s.lookup_index + n
        → agrees_in p (value_in (l ∷ trail)) s.lookup_order i ≡ true =
      λ i lt.
        subst (λ ls. agrees_in p (value_in (l ∷ trail)) ls i ≡ true) order'
          (sym (agree_at-agrees_in p a (l ∷ trail) s' i k f)
            ∙ subst (Agreed p a) e agreed' i (omega (arith, index))) in
    (
      record {
        status = subst (IsStatus p o) e status;
        traced = rw (order', infos, index) (Traced-remember p o a l trail s n traced.traced now);
      },
      subst (λ r. (is_lookup_end r ≡ true) ⊎ (agree_at p a r r.lookup_index ≡ false)) e stops,
    )

-- A cancellation leaves the lookup order, and does not go forward.
cancel_bounds :
    (p : Permutation) (v : BooleanVariable) (order trail : List Literal) (infos : List LookupInfo)
    (s : CosyStatus)
    → Traced p order trail infos s.lookup_index
    → ((cancel_info v infos s).lookup_index ≤ s.lookup_index)
      × ((cancel_info v infos s).lookup_order ≡ s.lookup_order)
cancel_bounds p v order trail [] s h = (omega arith, refl)
cancel_bounds p v order trail (info ∷ rest) s (below, passed, older) =
    ground (arith, passed.ordered)

pub cancel-IsTraced :
    (p : Permutation) (o : Order) (l : Literal) (trail : List Literal) (s : CosyStatus)
    → IsTrail (l ∷ trail)
    → IsTraced p o (l ∷ trail) s
    → IsTraced p o trail (update_cancel l s)
unfolding update_cancel
cancel-IsTraced p o l trail s t h =
    let v = variable l in
    let s' = cancel_info v s.lookup_infos s in
    let (le, order) = cancel_bounds p v s.lookup_order (l ∷ trail) s.lookup_infos s h.traced in
    let traced = Traced-cancel p s.lookup_order l trail s.lookup_infos s t refl h.traced in
    record {
      status = record {
        within = rw order (omega (arith, le, h.status.within));
        lookups = rw order h.status.lookups;
      };
      traced = subst (λ ls. Traced p ls trail s'.lookup_infos s'.lookup_index) (sym order) traced;
    }
