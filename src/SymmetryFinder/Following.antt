-- ===== src/SymmetryFinder/Following.antt =====
-- The callback of the finders: what holds while a cycle of an automorphism is followed.
use sat_symmetry.Prelude.{
  ℕ, ◌*◌, ◌≤◌, ◌<◌, ◌≡◌, ◌≢◌, ap, arith, Bool, true, false, some, List, [], ◌∷◌, ◌==◌, ltb, length,
  set, contains, contains-append, Bool-cases, inl, inr,
}
use sat_symmetry.Permutation.{Permutation, add_to_current_cycle}
use sat_symmetry.Permutation.Building.{IsBuilding, is_open, last_written, first_open}
use sat_symmetry.Permutation.Cycles.{add_lists}
use sat_symmetry.SymmetryFinder.{push_node}
use sat_symmetry.SymmetryFinder.Nodes.{
  IsAutomorphism, image_at, literal_of, node2literal-literal_of, literal_of_injective, is_seen,
  is_seen-set, is_seen-lt,
}

pub push_node-literal :
    (num_vars node : ℕ) (p : Permutation)
    → node < 2 * num_vars
    → push_node num_vars node p ≡ add_to_current_cycle (literal_of num_vars node) p
unfolding push_node
push_node-literal num_vars node p lt =
    let below : ltb node (2 * num_vars) ≡ true = ground arith in
    rw (push_node, node2literal-literal_of node num_vars, below)

pub push_node-clause :
    (num_vars node : ℕ) (p : Permutation) → 2 * num_vars ≤ node → push_node num_vars node p ≡ p
unfolding push_node
push_node-clause num_vars node p le =
    let above : ltb node (2 * num_vars) ≡ false = ground arith in
    rw (push_node, node2literal-literal_of node num_vars, above)

module _ (n num_vars : ℕ) (aut : List ℕ) (back : ℕ → ℕ) where
  -- The images of the literals of the nodes that were seen, but for the node `open_node`.
  abbrev pub Mapped : ℕ → Permutation → List Bool → Type 0
  Mapped open_node p seen =
      (x : ℕ)
      → is_seen seen x ≡ true
      → x < 2 * num_vars
      → x ≢ open_node
      → p.image (literal_of num_vars x) ≡ some (literal_of num_vars (image_at aut x))

  -- The literals that are written are those of the nodes that were seen.
  abbrev pub Written : Permutation → List Bool → Type 0
  Written p seen =
      (x : ℕ) → x < 2 * num_vars → contains p.cycles (literal_of num_vars x) ≡ is_seen seen x

  -- Between two cycles.
  pub record Outer (p : Permutation) (seen : List Bool) : Type 0 where
    pub size : length seen ≡ n
    pub building : IsBuilding p
    pub closed : is_open p ≡ false
    pub moved : (x : ℕ) → is_seen seen x ≡ true → image_at aut x ≢ x
    pub behind : (x : ℕ) → is_seen seen x ≡ true → is_seen seen (back x) ≡ true
    pub mapped : Mapped n p seen
    pub written : Written p seen

  -- In the cycle of `i`, when `j` is the last node that was seen.
  pub record Inner (i j : ℕ) (p : Permutation) (seen : List Bool) : Type 0 where
    pub size : length seen ≡ n
    pub building : IsBuilding p
    pub begun : is_seen seen i ≡ true
    pub last_seen : is_seen seen j ≡ true
    pub moved : (x : ℕ) → is_seen seen x ≡ true → image_at aut x ≢ x
    pub behind :
        (x : ℕ) → is_seen seen x ≡ true → x ≢ i → (is_seen seen (back x) ≡ true) × (back x ≢ j)
    pub same_kind : ltb j (2 * num_vars) ≡ ltb i (2 * num_vars)
    pub mapped : Mapped j p seen
    pub written : Written p seen
    pub opened : is_open p ≡ ltb i (2 * num_vars)
    pub last : i < 2 * num_vars → last_written p ≡ literal_of num_vars j
    pub first : i < 2 * num_vars → first_open p ≡ literal_of num_vars i

  -- The literals after one more.
  pub Written-add :
      (j : ℕ) (p : Permutation) (seen : List Bool)
      → j < length seen
      → j < 2 * num_vars
      → Written p seen
      → Written (add_to_current_cycle (literal_of num_vars j) p) (set seen j true)
  Written-add j p seen inside lt w x below =
      let (cycles, lims) = add_lists (literal_of num_vars j) p in
      let split = contains-append p.cycles (literal_of num_vars j ∷ []) (literal_of num_vars x) in
      rw cycles (elim (Bool-cases (j == x)) [
        | inl same ↦
            let e : j ≡ x = ground arith in
            ground
              (arith, split, w x below, is_seen-set seen j x inside, ap (literal_of num_vars) e)
        | inr other ↦
            let ne : literal_of num_vars j ≢ literal_of num_vars x =
              literal_of_injective num_vars j x lt below (ground arith) in
            ground (arith, split, w x below, is_seen-set seen j x inside)
      ])

  module _ (a : IsAutomorphism n num_vars aut back) where
    -- The next node was not seen before, unless it is the first one of the cycle.
    pub next_new :
        (i j : ℕ) (p : Permutation) (seen : List Bool)
        → Inner i j p seen
        → image_at aut j ≢ i
        → is_seen seen (image_at aut j) ≡ false
    next_new i j p seen h ne = elim (Bool-cases (is_seen seen (image_at aut j))) [
      | inr new ↦ new
      | inl old ↦
          let lt : j < n = omega (arith, is_seen-lt seen j h.last_seen, h.size) in
          absurd ((h.behind (image_at aut j) old ne).1 (a.goes_back j lt))
    ]
