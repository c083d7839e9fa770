-- ===== src/SymmetryFinder/Found.antt =====
-- The callback of the finders: the permutation that is added to the group.
use sat_symmetry.Prelude.{
  ℕ, zero, suc, ◌+◌, ◌<◌, ◌≡◌, refl, ap, ◌∙◌, arith, Bool, true, false, ◌||◌, none, some, List, [],
  ◌∷◌, ◌==◌, get_elem?, get_or, set, replicate, All, All-append, Option-cases, Bool-cases, inl, inr,
  ◌>>=◌,
}
use sat_symmetry.Literal.{Literal, variable}
use sat_symmetry.Literal.Laws.{variable_lem}
use sat_symmetry.Permutation.{
  Permutation, new_permutation, add_to_current_cycle, close_current_cycle,
}
use sat_symmetry.Permutation.Cycles.{add_lists, close_cycles}
use sat_symmetry.Group.{Group, add_permutation}
use sat_symmetry.Group.Total.{add_permutation_total}
use sat_symmetry.CnfGraph.{node2literal}
use sat_symmetry.SymmetryFinder.{
  push_node, follow, walk_nodes, permutation_of, on_automorphism, on_automorphism_saucy, call_back,
  search_back, Tools, Automorphism, bliss, saucy, SymmetryFinder, ends_of, edges_of, colors_of,
  color_nodes, join_nodes, find_with, find_with_bliss, find_with_saucy, find_automorphism,
}
use sat_symmetry.SymmetryFinder.Nodes.{IsAutomorphism, node2literal-literal_of}
use sat_symmetry.SymmetryFinder.Built.{permutation_of_lem}

module _ (num_vars : ℕ) where
  -- The literals of the permutation are in range.
  pub record InRange (p : Permutation) : Type 0 where
    pub size : p.size ≡ num_vars
    pub literals : All (λ (l : Literal). variable l < num_vars) p.cycles

  node2literal-lt :
      (node : ℕ) (l : Literal) → node2literal node num_vars ≡ some l → variable l < num_vars
  node2literal-lt node l found =
      ground (arith, node2literal-literal_of node num_vars, variable_lem l)

  add-InRange :
      (l : Literal) (p : Permutation)
      → variable l < num_vars
      → InRange p
      → InRange (add_to_current_cycle l p)
  add-InRange l p lt h = record {
    size = size_kept ∙ h.size;
    literals =
        rw (add_lists l p).0 (
          All-append (λ (l : Literal). variable l < num_vars) p.cycles (l ∷ []) h.literals
            (lt, tt));
  }
    where
      size_kept : (add_to_current_cycle l p).size ≡ p.size
      size_kept = unfold add_to_current_cycle in (ground arith)

  push_node-InRange : (node : ℕ) (p : Permutation) → InRange p → InRange (push_node num_vars node p)
  unfolding push_node
  push_node-InRange node p h = elim (Option-cases (node2literal node num_vars)) [
    | inl clause ↦ rw (push_node, clause) h
    | inr (l, found) ↦ rw (push_node, found) (add-InRange l p (node2literal-lt node l found) h)
  ]

  close-InRange : (p : Permutation) → InRange p → InRange (close_current_cycle p)
  close-InRange p h = record {
    size = size_kept ∙ h.size;
    literals = rw (close_cycles p) h.literals;
  }
    where
      size_kept : (close_current_cycle p).size ≡ p.size
      size_kept = unfold close_current_cycle in (ground arith)

  follow-InRange :
      (fuel : ℕ) (aut : List ℕ) (i j : ℕ) (p : Permutation) (seen : List Bool)
      (r : Permutation × List Bool)
      → follow fuel aut num_vars i j p seen ≡ some r
      → InRange p
      → InRange r.0
  unfolding follow
  follow-InRange zero aut i j p seen r e h = cc
  follow-InRange (suc fuel) aut i j p seen r e h = elim (Bool-cases (j == i)) [
    | inl end ↦
        let same : some (p, seen) ≡ some r = rw (follow, end) at e in
        let e' : p ≡ r.0 =
          ap (λ o. elim o as (λ _. Permutation) [ none ↦ p | some q ↦ q.0 ]) same in
        rw (← e') h
    | inr more ↦ elim (Option-cases (get_elem? aut j)) [
      | inl outside ↦ cc (rw (follow, more, outside) at e)
      | inr (next, got) ↦
          follow-InRange fuel aut i next (push_node num_vars j p) (set seen j true) r
            (rw (follow, more, got, ◌>>=◌) at e) (push_node-InRange j p h)
    ]
  ]

  walk_nodes-InRange :
      (k n : ℕ) (aut : List ℕ) (i : ℕ) (p : Permutation) (seen : List Bool) (p' : Permutation)
      → walk_nodes k n aut num_vars i p seen ≡ some p'
      → InRange p
      → InRange p'
  unfolding walk_nodes
  walk_nodes-InRange zero n aut i p seen p' e h = let e' : p ≡ p' = cc in rw (← e') h
  walk_nodes-InRange (suc k) n aut i p seen p' e h = elim (Option-cases (get_elem? aut i)) [
    | inl outside ↦ cc (rw (walk_nodes, outside) at e)
    | inr (next, got) ↦ elim (Bool-cases (i == next || get_or seen i false)) [
      | inl skip ↦
          walk_nodes-InRange k n aut (i + 1) p seen p' (rw (walk_nodes, got, ◌>>=◌, skip) at e) h
      | inr starts ↦
          elim (Option-cases
            (follow n aut num_vars i next (push_node num_vars i p) (set seen i true))) [
              | inl lost ↦ cc (rw (walk_nodes, got, ◌>>=◌, starts, lost) at e)
              | inr (r, followed) ↦
                  walk_nodes-InRange k n aut (i + 1) (close_current_cycle r.0) r.1 p'
                    (rw (walk_nodes, got, ◌>>=◌, starts, followed) at e)
                    (close-InRange r.0 (
                      follow-InRange n aut i next (push_node num_vars i p) (set seen i true) r
                        followed (push_node-InRange i p h)))
            ]
    ]
  ]

  pub permutation_of-InRange :
      (n : ℕ) (aut : List ℕ) (p : Permutation) → permutation_of n aut num_vars ≡ some p → InRange p
  unfolding permutation_of
  permutation_of-InRange n aut p e =
      walk_nodes-InRange n n aut 0 (new_permutation num_vars) (replicate n false) p e
        (unfold new_permutation in record { size = refl; literals = tt })

  pub on_automorphism_total :
      (n : ℕ) (aut : List ℕ) (back : ℕ → ℕ) (group : Group)
      → IsAutomorphism n num_vars aut back
      → (group' : Group) × (on_automorphism num_vars n aut group ≡ some group')
  unfolding on_automorphism
  on_automorphism_total n aut back group a =
      let (p, made, _, _, _) = permutation_of_lem n num_vars aut back a in
      let h = permutation_of-InRange n aut p made in
      let (group', added) = add_permutation_total p group (rw h.size h.literals) in
      (group', rw made added)

  -- x
  pub call_back_total :
      (n : ℕ) (auts : List (List ℕ)) (group : Group)
      → All (λ aut. (back : ℕ → ℕ) × IsAutomorphism n num_vars aut back) auts
      → (group' : Group) × (call_back num_vars n auts group ≡ some group')
  unfolding call_back
  call_back_total n [] group h = (group, refl)
  call_back_total n (aut ∷ auts) group h =
      let (back, a) = h.0 in
      let (group1, one) = on_automorphism_total n aut back group a in
      let (group2, rest) = call_back_total n auts group1 h.1 in (group2, rw one rest)

-- The automorphisms that the tool of a finder reports.
abbrev reports_of : Tools → Automorphism → SymmetryFinder → List (List ℕ)
reports_of tools bliss f =
    let n = f.graph.num_nodes in
    tools.bliss_find_automorphisms
      (join_nodes tools n 0 f.graph (color_nodes tools n 0 f.graph (tools.bliss_graph n)))
reports_of tools saucy f =
    let n = f.graph.num_nodes in
    tools.saucy_search n f.graph.num_edges (0 ∷ ends_of n 0 0 f.graph) (edges_of n 0 f.graph)
      (colors_of n 0 f.graph)

abbrev pub reports : Tools → SymmetryFinder → List (List ℕ)
reports tools f = reports_of tools f.tool f

search_back_lem :
    (num_vars n : ℕ) (auts : List (List ℕ)) (group : Group)
    → search_back num_vars n auts group ≡ call_back num_vars n auts group
unfolding search_back call_back on_automorphism on_automorphism_saucy
search_back_lem num_vars n [] group = refl
search_back_lem num_vars n (aut ∷ auts) group =
    elim (Option-cases (permutation_of n aut num_vars)) [
      | inl lost ↦ rw lost
      | inr (p, made) ↦ elim (Option-cases (add_permutation p group)) [
        | inl outside ↦ rw (made, outside)
        | inr (group', added) ↦ rw (made, added) (search_back_lem num_vars n auts group')
      ]
    ]

find_with_lem :
    (tools : Tools) (tool : Automorphism) (f : SymmetryFinder) (group : Group)
    → find_with tools tool f group
      ≡ call_back f.num_vars f.graph.num_nodes (reports_of tools tool f) group
unfolding find_with_bliss find_with_saucy
find_with_lem tools bliss f group = refl
find_with_lem tools saucy f group =
    search_back_lem f.num_vars f.graph.num_nodes (reports_of tools saucy f) group

pub find_automorphism_lem :
    (tools : Tools) (f : SymmetryFinder) (group : Group)
    → find_automorphism tools f group
      ≡ call_back f.num_vars f.graph.num_nodes (reports tools f) group
unfolding find_automorphism
find_automorphism_lem tools f group = find_with_lem tools f.tool f group
