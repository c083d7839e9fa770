-- ===== src/Orbits/Finest.antt =====
-- Orbits.cc, assign: only what the cycles connect has one root.
use sat_symmetry.Prelude.{
  ℕ, zero, suc, ◌+◌, ◌≤◌, ◌<◌, ◌≡◌, refl, sym, ap, ◌∙◌, arith, some, List, [], ◌∷◌, ◌==◌, inl, inr,
  Bool-cases, Option-cases, All, All-implied,
}
use sat_symmetry.Literal.{Literal, variable}
use sat_symmetry.Permutation.{Permutation, number_of_cycles, cycle, last_element_in_cycle}
use sat_symmetry.DisjointSets.{Node, DisjointSets, node_at, add, union}
use sat_symmetry.DisjointSets.Laws.{IsForest, HasRoot, same_root}
use sat_symmetry.DisjointSets.Find.{find_lem}
use sat_symmetry.DisjointSets.Add.{Added, add_lem}
use sat_symmetry.DisjointSets.Union.{Merged, union_lem}
use sat_symmetry.CosyManager.Walk.{some_of}
use sat_symmetry.Orbits.{Connected, connect, connect_cycle, connect_cycles, connect_all}
use sat_symmetry.Orbits.Laws.{
  Rooted, node_of_root, connect_lem, connect_cycle_lem, connect_cycles_lem,
}

module _ (f : ℕ → ℕ) where
  -- A colouring that gives all literals of each cycle the colour of its last element.
  abbrev pub OneColour : Literal → List Literal → Type 0
  OneColour element ls = All (λ (l : Literal). f (variable element) ≡ f (variable l)) ls

  abbrev pub Colours : Permutation → ℕ → ℕ → Type 0
  Colours p n c = (k : ℕ) → c ≤ k → k < c + n → OneColour (last_element_in_cycle p k) (cycle p k)

  abbrev pub ColoursAll : List Permutation → Type 0
  ColoursAll ps = All (λ (p : Permutation). Colours p (number_of_cycles p) 0) ps

  -- Every element has a root of its colour.
  abbrev pub Coloured : DisjointSets → Type 0
  Coloured d =
      (x : ℕ) (n : Node) → node_at d.nodes x ≡ some n → (r : ℕ) × HasRoot d.nodes x r × (f x ≡ f r)

  root-Coloured : (d : DisjointSets) (x r : ℕ) → Coloured d → HasRoot d.nodes x r → f x ≡ f r
  root-Coloured d x r h root =
      let (n, at) = node_of_root d.nodes x r root in
      let (q, root', e) = h x n at in
      let same : q ≡ r = same_root d.nodes x q r root' root in e ∙ ap f same

  add-Coloured : (e : ℕ) (d d' : DisjointSets) → Added e d d' → Coloured d → Coloured d'
  add-Coloured e d d' added h x n at = elim (Bool-cases (e == x)) [
    | inl same ↦
        let e_is : e ≡ x = ground arith in
        elim added.single [
          | inl (root, _) ↦ rw (← e_is) (e, root, refl)
          | inr (m, old, _) ↦
              let (r, root, c) = h e m old in rw (← e_is) (r, added.roots e r root, c)
        ]
    | inr other ↦
        let (r, root, c) = h x n (sym (added.others x other) ∙ at) in (r, added.roots x r root, c)
  ]

  union-Coloured :
      (x y : ℕ) (d d' : DisjointSets) → f x ≡ f y → Merged x y d d' → Coloured d → Coloured d'
  union-Coloured x y d d' e merged h i n at = elim (Option-cases (node_at d.nodes i)) [
    | inl gone ↦ let gone' = merged.absent i gone in cc
    | inr (m, old) ↦
        let (r, root, c) = h i m old in
        let cx : f x ≡ f merged.x_root = root-Coloured d x merged.x_root h merged.of_x in
        let cy : f y ≡ f merged.y_root = root-Coloured d y merged.y_root h merged.of_y in
        let cw : f merged.winner ≡ f merged.loser = elim merged.which [
          | inl (w, l) ↦ ap f w ∙ sym cx ∙ e ∙ cy ∙ sym (ap f l)
          | inr (w, l) ↦ ap f w ∙ sym cy ∙ sym e ∙ cx ∙ sym (ap f l)
        ] in
        elim (Bool-cases (merged.loser == r)) [
          | inl lost ↦
              let l_is : merged.loser ≡ r = ground arith in
              let moved = merged.moved i r root in
              (merged.winner, rw lost at moved, c ∙ sym (ap f l_is) ∙ sym cw)
          | inr kept ↦ let moved = merged.moved i r root in (r, rw kept at moved, c)
        ]
  ]

  connect-Coloured :
      (element image : Literal) (s s' : Connected)
      → IsForest s.sets.nodes
      → Rooted s.sets (variable element)
      → f (variable element) ≡ f (variable image)
      → Coloured s.sets
      → connect element image s ≡ some s'
      → Coloured s'.sets
  unfolding connect
  connect-Coloured element image s s' h (r, root) e coloured made =
      let v = variable element in
      let i = variable image in
      let d = add i s.sets in
      let added = add_lem i s.sets h in
      let (n, at) = node_of_root d.nodes v r (added.roots v r root) in
      let (m, at_i) = added.node in
      let (d', joined, merged) = union_lem d v i n m added.forest at at_i in
      let (sets, joined', whole) = some_of (union v i d) _ _ made in
      let same : d' ≡ s'.sets = cc in
      rw (← same) (union-Coloured v i d d' e merged (add-Coloured i s.sets d added coloured))

  connect_cycle-Coloured :
      (element : Literal) (ls : List Literal) (s s' : Connected)
      → IsForest s.sets.nodes
      → Rooted s.sets (variable element)
      → OneColour element ls
      → Coloured s.sets
      → connect_cycle element ls s ≡ some s'
      → Coloured s'.sets
  unfolding connect_cycle
  connect_cycle-Coloured element [] s s' h root one coloured said =
      let same : s ≡ s' = cc in rw (← same) coloured
  connect_cycle-Coloured element (l ∷ ls) s s' h root (e, one) coloured said =
      let (s1, made, grown, (r, re, rl)) = connect_lem element l s h root in
      let later : connect_cycle l ls s1 ≡ some s' = rw made at said in
      connect_cycle-Coloured l ls s1 s' grown.forest (r, rl)
        (All-implied (λ (x : Literal). f (variable element) ≡ f (variable x))
          (λ (x : Literal). f (variable l) ≡ f (variable x)) (λ x same. sym e ∙ same) ls one)
        (connect-Coloured element l s s1 h root e coloured made) later

  connect_cycles-Coloured :
      (p : Permutation) (n c : ℕ) (s s' : Connected)
      → IsForest s.sets.nodes
      → Colours p n c
      → Coloured s.sets
      → connect_cycles p n c s ≡ some s'
      → Coloured s'.sets
  unfolding connect_cycles
  connect_cycles-Coloured p zero c s s' h one coloured said =
      let same : s ≡ s' = cc in rw (← same) coloured
  connect_cycles-Coloured p (suc n) c s s' h one coloured said =
      let element = last_element_in_cycle p c in
      let e = variable element in
      let s0 = record s { sets = add e s.sets } in
      let added = add_lem e s.sets h in
      let (m, at) = added.node in
      let (r, _, _, root, _) = find_lem s0.sets e m added.forest at in
      let (s1, made, grown, _) = connect_cycle_lem element (cycle p c) s0 added.forest (r, root) in
      let later : connect_cycles p n (c + 1) s1 ≡ some s' = rw made at said in
      connect_cycles-Coloured p n (c + 1) s1 s' grown.forest
        (λ k le lt. one k (omega arith) (omega arith))
        (connect_cycle-Coloured element (cycle p c) s0 s1 added.forest (r, root)
          (one c (omega arith) (omega arith)) (add-Coloured e s.sets s0.sets added coloured) made)
        later

  pub connect_all-Coloured :
      (ps : List Permutation) (s s' : Connected)
      → IsForest s.sets.nodes
      → ColoursAll ps
      → Coloured s.sets
      → connect_all ps s ≡ some s'
      → Coloured s'.sets
  unfolding connect_all
  connect_all-Coloured [] s s' h one coloured said = let same : s ≡ s' = cc in rw (← same) coloured
  connect_all-Coloured (p ∷ ps) s s' h (first, rest) coloured said =
      let (s1, made, grown, _) = connect_cycles_lem p (number_of_cycles p) 0 s h in
      let later : connect_all ps s1 ≡ some s' = rw made at said in
      connect_all-Coloured ps s1 s' grown.forest rest
        (connect_cycles-Coloured p (number_of_cycles p) 0 s s1 h first coloured made) later

  -- Elements with one root have one colour.
  pub Coloured-same_root :
      (d : DisjointSets) (x y r : ℕ)
      → Coloured d
      → HasRoot d.nodes x r
      → HasRoot d.nodes y r
      → f x ≡ f y
  Coloured-same_root d x y r h rx ry = root-Coloured d x r h rx ∙ sym (root-Coloured d y r h ry)
