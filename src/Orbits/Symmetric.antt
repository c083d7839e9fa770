-- ===== src/Orbits/Symmetric.antt =====
-- Orbits.cc, assign: which variables are symmetric.
use sat_symmetry.Prelude.{
  ℕ, zero, suc, ◌+◌, ◌≡◌, ◌∙◌, arith, Bool, false, ◌||◌, some, List, [], ◌∷◌, ◌==◌, length, take,
  contains, contains-insert_new, insert_new,
}
use sat_symmetry.Literal.{Literal, BooleanVariable, variable}
use sat_symmetry.Permutation.{Permutation, number_of_cycles, cycle, last_element_in_cycle}
use sat_symmetry.DisjointSets.{add, union}
use sat_symmetry.CosyManager.Walk.{some_of}
use sat_symmetry.Orbits.{Connected, connect, connect_cycle, connect_cycles, connect_all}

-- Some literal is one of the variable.
abbrev pub has_variable : List Literal → BooleanVariable → Bool
has_variable [] v = false
has_variable (l ∷ ls) v = variable l == v || has_variable ls v

-- The last element of a cycle, and the literals of the cycle but the last in its list; none where
-- the list is empty.
abbrev pub elements : Permutation → ℕ → List Literal
elements p c = take (length (cycle p c)) (last_element_in_cycle p c ∷ cycle p c)

-- The cycles `c`, …, `c + n - 1`.
abbrev pub in_cycles : Permutation → ℕ → ℕ → BooleanVariable → Bool
in_cycles p zero c v = false
in_cycles p (suc n) c v = has_variable (elements p c) v || in_cycles p n (c + 1) v

abbrev pub in_some_cycle : List Permutation → BooleanVariable → Bool
in_some_cycle [] v = false
in_some_cycle (p ∷ ps) v = in_cycles p (number_of_cycles p) 0 v || in_some_cycle ps v

connect_cycle-symmetrics :
    (element : Literal) (ls : List Literal) (s s' : Connected) (v : BooleanVariable)
    → connect_cycle element ls s ≡ some s'
    → contains s'.symmetrics v
      ≡ (contains s.symmetrics v || has_variable (take (length ls) (element ∷ ls)) v)
unfolding connect_cycle connect
connect_cycle-symmetrics element [] s s' v said =
    let same : s'.symmetrics ≡ s.symmetrics = cc in rw same (ground arith)
connect_cycle-symmetrics element (image ∷ rest) s s' v said =
    let (s1, made, later) = some_of (connect element image s) _ _ said in
    let (sets, merged, first) =
      some_of (union (variable element) (variable image) (add (variable image) s.sets)) _ _ made in
    let same : s1.symmetrics ≡ insert_new (variable element) s.symmetrics = cc in
    connect_cycle-symmetrics image rest s1 s' v later
    ∙ rw same (ground (arith, contains-insert_new (variable element) v s.symmetrics))

connect_cycles-symmetrics :
    (p : Permutation) (n c : ℕ) (s s' : Connected) (v : BooleanVariable)
    → connect_cycles p n c s ≡ some s'
    → contains s'.symmetrics v ≡ (contains s.symmetrics v || in_cycles p n c v)
unfolding connect_cycles
connect_cycles-symmetrics p zero c s s' v said =
    let same : s'.symmetrics ≡ s.symmetrics = cc in rw same (ground arith)
connect_cycles-symmetrics p (suc n) c s s' v said =
    let element = last_element_in_cycle p c in
    let s0 = record s { sets = add (variable element) s.sets } in
    let (s1, made, later) = some_of (connect_cycle element (cycle p c) s0) _ _ said in
    ground (
      arith,
      connect_cycles-symmetrics p n (c + 1) s1 s' v later,
      connect_cycle-symmetrics element (cycle p c) s0 s1 v made,
    )

pub connect_all-symmetrics :
    (ps : List Permutation) (s s' : Connected) (v : BooleanVariable)
    → connect_all ps s ≡ some s'
    → contains s'.symmetrics v ≡ (contains s.symmetrics v || in_some_cycle ps v)
unfolding connect_all
connect_all-symmetrics [] s s' v said =
    let same : s'.symmetrics ≡ s.symmetrics = cc in rw same (ground arith)
connect_all-symmetrics (p ∷ ps) s s' v said =
    let (s1, made, later) = some_of (connect_cycles p (number_of_cycles p) 0 s) _ _ said in
    ground (
      arith,
      connect_all-symmetrics ps s1 s' v later,
      connect_cycles-symmetrics p (number_of_cycles p) 0 s s1 v made,
    )
