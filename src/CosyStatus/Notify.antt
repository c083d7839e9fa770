-- ===== src/CosyStatus/Notify.antt =====
-- CosyStatus.cc, updateNotify: the place that is looked at.
use native.Mathlib.Decide.{dec_lt}
use sat_symmetry.Prelude.{
  ℕ, zero, suc, ◌+◌, ◌-◌, ◌≤◌, ◌<◌, ◌≡◌, ◌⊎◌, refl, arith, Bool, true, false, some, List, ◌∷◌,
  get_or, length, All, All-get_or, if◌then◌else◌, inl, inr, ◌==◌, leb, Bool-cases,
}
use sat_symmetry.Literal.{Literal, BooleanVariable, variable}
use sat_symmetry.Assignment.{Assignment, has_same_assignment_value}
use sat_symmetry.Permutation.{Permutation}
use sat_symmetry.Order.{Order}
use sat_symmetry.Order.Laws.{IsOrder, no_later, leq_placed}
use sat_symmetry.CosyStatus.{
  CosyStatus, CosyState, LookupInfo, active, lookup_at, notify_loop, update_notify, update_state,
  is_lookup_end, state_of_pair,
}
use sat_symmetry.CosyStatus.Lookup.{twin, IsLookup, agree_at, Agreed, IsStatus}

-- The pair at a place of a list has one value.
abbrev pub agrees : Permutation → Assignment → List Literal → ℕ → Bool
agrees p a ls i = has_same_assignment_value a (get_or ls i 0) (twin p (get_or ls i 0))

-- The number of pairs from a place on that agree, up to a bound.
pub agreeing : Permutation → Assignment → List Literal → ℕ → ℕ → ℕ
agreeing p a ls zero i = 0
agreeing p a ls (suc n) i =
    let rest = agreeing p a ls n (i + 1) in if agrees p a ls i then suc rest else 0

agreeing-le :
    (p : Permutation) (a : Assignment) (ls : List Literal) (n i : ℕ) → agreeing p a ls n i ≤ n
unfolding agreeing
agreeing-le p a ls zero i = omega arith
agreeing-le p a ls (suc n) i = ground (arith, agreeing-le p a ls n (i + 1))

agreeing-agree :
    (p : Permutation) (a : Assignment) (ls : List Literal) (n i j : ℕ)
    → i ≤ j
    → j < i + agreeing p a ls n i
    → agrees p a ls j ≡ true
unfolding agreeing
agreeing-agree p a ls zero i j h lt = absurd (omega arith)
agreeing-agree p a ls (suc n) i j h lt = elim (Bool-cases (agrees p a ls i)) [
  | inl same ↦ elim (Bool-cases (i == j)) [
    | inl here ↦ let e : i ≡ j = ground arith in rw (← e) same
    | inr later ↦ agreeing-agree p a ls n (i + 1) j (ground arith) (ground arith)
  ]
  | inr other ↦ absurd (ground arith)
]

agreeing_stops :
    (p : Permutation) (a : Assignment) (ls : List Literal) (n i : ℕ)
    → agreeing p a ls n i < n
    → agrees p a ls (i + agreeing p a ls n i) ≡ false
unfolding agreeing
agreeing_stops p a ls zero i h = absurd (omega arith)
agreeing_stops p a ls (suc n) i h = elim (Bool-cases (agrees p a ls i)) [
  | inl same ↦
      let next : i + 1 + agreeing p a ls n (i + 1) ≡ i + suc (agreeing p a ls n (i + 1)) =
        omega arith in
      rw same (rw next at (agreeing_stops p a ls n (i + 1) (ground arith)))
  | inr other ↦ let e : i + 0 ≡ i = omega arith in rw other (rw e other)
]

module _ (p : Permutation) (o : Order) (a : Assignment) where
  abbrev moved : ℕ → CosyStatus → CosyStatus
  moved k s = record s { lookup_index = s.lookup_index + k }

  -- After its first round the loop only counts.
  loop_rest :
      (n : ℕ) (v : BooleanVariable) (initial : ℕ) (s : CosyStatus)
      → initial < s.lookup_index
      → s.lookup_index + n ≤ length s.lookup_order
      → All (IsLookup p o) s.lookup_order
      → notify_loop p o a n v initial s
        ≡ some (moved (agreeing p a s.lookup_order n s.lookup_index) s)
  unfolding notify_loop agreeing
  loop_rest zero v initial s h b lookups = ground arith
  loop_rest (suc n) v initial s h b lookups =
      let pair =
        (All-get_or (IsLookup p o) s.lookup_order s.lookup_index 0 lookups (omega arith)).paired in
      elim (Bool-cases (agree_at p a s s.lookup_index)) [
        | inl same ↦
            let later = loop_rest n v initial (moved 1 s) (omega arith) (omega arith) lookups in
            let not_first : (s.lookup_index == initial) ≡ false = ground arith in
            rw (pair, same, not_first, later) (ground arith)
        | inr other ↦ rw (pair, other) (ground arith)
      ]

  -- What `updateNotify` does: it goes over all pairs from its place on that agree, and remembers
  -- the place once if it moved.
  abbrev pub advance : ℕ → CosyStatus → ℕ
  advance limit s = agreeing p a s.lookup_order limit s.lookup_index

  abbrev pub rounds : CosyStatus → ℕ
  rounds s = length s.lookup_order - s.lookup_index

  abbrev pub remember : BooleanVariable → ℕ → CosyStatus → List LookupInfo
  remember v zero s = s.lookup_infos
  remember v (suc k) s = record { variable = v; back_index = s.lookup_index } ∷ s.lookup_infos

  abbrev pub notified : BooleanVariable → ℕ → CosyStatus → CosyStatus
  notified v k s = record s { lookup_index = s.lookup_index + k; lookup_infos = remember v k s }

  notify_loop_lem :
      (n : ℕ) (v : BooleanVariable) (s : CosyStatus)
      → s.lookup_index + n ≤ length s.lookup_order
      → All (IsLookup p o) s.lookup_order
      → notify_loop p o a n v s.lookup_index s ≡ some (notified v (advance n s) s)
  unfolding notify_loop agreeing
  notify_loop_lem zero v s b lookups = ground arith
  notify_loop_lem (suc n) v s b lookups =
      let pair =
        (All-get_or (IsLookup p o) s.lookup_order s.lookup_index 0 lookups (omega arith)).paired in
      elim (Bool-cases (agree_at p a s s.lookup_index)) [
        | inl same ↦
            let s' = record s {
              lookup_index = s.lookup_index + 1;
              lookup_infos = record { variable = v; back_index = s.lookup_index } ∷ s.lookup_infos;
            } in
            let later = loop_rest n v s.lookup_index s' (omega arith) (omega arith) lookups in
            let first : (s.lookup_index == s.lookup_index) ≡ true = ground arith in
            rw (pair, same, first, later) (ground arith)
        | inr other ↦ rw (pair, other) (ground arith)
      ]

  -- The literal of a pair that the order puts first.
  abbrev pub first_of_pair : Literal → Literal → Literal
  first_of_pair x y = if no_later o x y then x else y

  abbrev pub state_at : CosyStatus → CosyState
  state_at s =
      let e = lookup_at s s.lookup_index in
      let m = first_of_pair e (twin p e) in
      state_of_pair p o a e (twin p e) m (if m == e then twin p e else e)

  -- The new state: `update_state` succeeds, and changes the state alone.
  pub update_state_lem :
      (s : CosyStatus)
      → IsOrder o
      → All (IsLookup p o) s.lookup_order
      → update_state p o a s
        ≡ some (record s { state = if is_lookup_end s then active else state_at s })
  unfolding update_state
  update_state_lem s h lookups = elim (Bool-cases (leb (length s.lookup_order) s.lookup_index)) [
    | inl end ↦ rw end
    | inr inside ↦
        let looked =
          All-get_or (IsLookup p o) s.lookup_order s.lookup_index 0 lookups (ground arith) in
        let least =
          leq_placed o (lookup_at s s.lookup_index) (twin p (lookup_at s s.lookup_index)) h
            looked.placed looked.twin_placed in
        rw (inside, looked.paired, least)
  ]

  -- `updateNotify` succeeds: it passes all pairs that agree, remembers the old place if it moved,
  -- and sets the state by the pair where it stops.
  pub update_notify_lem :
      (l : Literal) (s : CosyStatus)
      → IsOrder o
      → IsStatus p o s
      → let s' = notified (variable l) (advance (rounds s) s) s in
        update_notify p o a l s
        ≡ some (record s' { state = if is_lookup_end s' then active else state_at s' })
  unfolding update_notify
  update_notify_lem l s h k =
      rw (notify_loop_lem (rounds s) (variable l) s (omega (arith, k.within)) k.lookups)
        (update_state_lem (notified (variable l) (advance (rounds s) s) s) h k.lookups)

  -- From a well-formed status whose earlier pairs all agree update_notify succeeds, goes forward
  -- to a well-formed status whose earlier pairs all agree, keeps the lookup order, and stops at
  -- the end or at a pair that does not agree.
  pub update_notify_moves :
      (l : Literal) (s : CosyStatus)
      → IsOrder o
      → IsStatus p o s
      → Agreed p a s
      → (s' : CosyStatus) × (update_notify p o a l s ≡ some s')
        × IsStatus p o s'
        × Agreed p a s'
        × (s.lookup_index ≤ s'.lookup_index)
        × (s'.lookup_order ≡ s.lookup_order)
        × ((is_lookup_end s' ≡ true) ⊎ (agree_at p a s' s'.lookup_index ≡ false))
  unfolding is_lookup_end
  update_notify_moves l s h k agreed =
      let n = rounds s in
      let less = agreeing-le p a s.lookup_order n s.lookup_index in
      (
        _,
        update_notify_lem l s h k,
        record { within = omega (arith, less, k.within); lookups = k.lookups },
        λ i lt. elim (dec_lt i s.lookup_index) [
          | yes before ↦ agreed i before
          | no after ↦ agreeing-agree p a s.lookup_order n s.lookup_index i (omega arith) lt
        ],
        omega arith,
        refl,
        stops (Bool-cases (leb (length s.lookup_order) (s.lookup_index + advance n s))),
      )
    where
      stops :
          (leb (length s.lookup_order) (s.lookup_index + advance (rounds s) s) ≡ true)
            ⊎ (leb (length s.lookup_order) (s.lookup_index + advance (rounds s) s) ≡ false)
          → (leb (length s.lookup_order) (s.lookup_index + advance (rounds s) s) ≡ true)
            ⊎ (agree_at p a s (s.lookup_index + advance (rounds s) s) ≡ false)
      stops (inl end) = inl end
      stops (inr inside) =
          inr (agreeing_stops p a s.lookup_order (rounds s) s.lookup_index (ground arith))
