-- ===== src/CosyStatus/Cancel.antt =====
-- CosyStatus.cc, updateCancel: how the place that is looked at goes back.
use mathlib.Core.Path.{subst}
use sat_symmetry.Prelude.{ℕ, zero, suc, ◌≡◌, ◌≢◌, refl, sym, arith, some, List, [], ◌∷◌}
use sat_symmetry.Literal.{Literal, BooleanVariable, variable}
use sat_symmetry.Assignment.{Assignment}
use sat_symmetry.Permutation.{Permutation}
use sat_symmetry.Order.{Order}
use sat_symmetry.Order.Laws.{IsOrder}
use sat_symmetry.CosyStatus.{CosyStatus, LookupInfo, update_notify, update_cancel, cancel_info}
use sat_symmetry.CosyStatus.Lookup.{IsStatus}
use sat_symmetry.CosyStatus.Notify.{rounds, advance, notified, update_notify_lem}

-- The last info is of another variable.
abbrev pub NotLast : BooleanVariable → List LookupInfo → Type 0
NotLast v [] = Unit {0}
NotLast v (info ∷ rest) = info.variable ≢ v

pub cancel_skips :
    (v : BooleanVariable) (infos : List LookupInfo) (s : CosyStatus)
    → NotLast v infos
    → cancel_info v infos s ≡ s
cancel_skips v [] s h = refl
cancel_skips v (info ∷ rest) s h = ground arith

-- The place, the infos and the order of two states are the same.
abbrev pub SameLookup : CosyStatus → CosyStatus → Type 0
SameLookup s t =
    (s.lookup_index ≡ t.lookup_index)
    × (s.lookup_infos ≡ t.lookup_infos)
    × (s.lookup_order ≡ t.lookup_order)

cancel_restores :
    (p : Permutation) (o : Order) (a : Assignment) (l : Literal) (s t : CosyStatus) (n : ℕ)
    → NotLast (variable l) s.lookup_infos
    → SameLookup t (notified p o a (variable l) n s)
    → SameLookup (update_cancel l t) s
unfolding update_cancel
cancel_restores p o a l s t zero other (index, infos, order) =
    let other' = subst (NotLast (variable l)) (sym infos) other in
    rw (cancel_skips (variable l) t.lookup_infos t other') (omega (arith, index), infos, order)
cancel_restores p o a l s t (suc n) other (index, infos, order) = ground arith

-- For a well-formed order and status whose last info is of another variable, update_cancel of the
-- literal that update_notify was called with restores the lookup index, the infos and the lookup
-- order.
pub update_cancel-update_notify :
    (p : Permutation) (o : Order) (a : Assignment) (l : Literal) (s s' : CosyStatus)
    → IsOrder o
    → IsStatus p o s
    → NotLast (variable l) s.lookup_infos
    → update_notify p o a l s ≡ some s'
    → SameLookup (update_cancel l s') s
update_cancel-update_notify p o a l s s' h k other said =
    let made = update_notify_lem p o a l s h k in
    cancel_restores p o a l s s' (advance p o a (rounds p o a s) s) other (cc, cc, cc)
