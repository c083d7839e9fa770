-- ===== src/SymmetryFinder/Step.antt =====
-- The callback of the finders: one more node of a cycle.
use sat_symmetry.Prelude.{
  ℕ, ◌*◌, ◌≤◌, ◌<◌, ◌≡◌, ◌≢◌, sym, ap, ◌∙◌, arith, Bool, true, false, ◌&&◌, some, List, ◌==◌, ltb,
  length, length-set, set, contains, Bool-cases, inl, inr,
}
use sat_symmetry.Permutation.{Permutation, add_to_current_cycle}
use sat_symmetry.Permutation.Building.{is_open, last_written, add-IsBuilding}
use sat_symmetry.Permutation.Steps.{is_open-add, last_written-add, first_open-add, image-add}
use sat_symmetry.SymmetryFinder.{push_node}
use sat_symmetry.SymmetryFinder.Nodes.{
  IsAutomorphism, image_at, literal_of, literal_of_injective, is_seen, is_seen-set, is_seen-lt,
}
use sat_symmetry.SymmetryFinder.Following.{
  push_node-literal, push_node-clause, Mapped, Inner, Written-add, next_new,
}

module _ (n num_vars : ℕ) (aut : List ℕ) (back : ℕ → ℕ)
    (a : IsAutomorphism n num_vars aut back) where
  -- What marking the next node does to the fields on the nodes.
  behind_step :
      (i j : ℕ) (p : Permutation) (seen : List Bool)
      → Inner n num_vars aut back i j p seen
      → image_at aut j ≢ i
      → let k = image_at aut j in
        (x : ℕ)
        → is_seen (set seen k true) x ≡ true
        → x ≢ i
        → (is_seen (set seen k true) (back x) ≡ true) × (back x ≢ k)
  behind_step i j p seen h ne x there other =
      let k = image_at aut j in
      let lt : j < n = omega (arith, is_seen-lt seen j h.last_seen, h.size) in
      let inside : k < length seen = omega (arith, a.inside j lt, h.size) in
      let new = next_new n num_vars aut back a i j p seen h ne in
      let came : back k ≡ j = a.goes_back j lt in
      elim (Bool-cases (k == x)) [
        | inl same ↦
            let e : k ≡ x = ground arith in
            let from : back x ≡ j = ap back (sym e) ∙ came in
            rw from (
              ground (arith, is_seen-set seen k j inside, h.last_seen),
              λ eq. cc (new, h.last_seen, ap (is_seen seen) eq),
            )
        | inr differ ↦
            let old : is_seen seen x ≡ true = ground (arith, is_seen-set seen k x inside) in
            let (seen_back, _) = h.behind x old other in
            (
              ground (arith, is_seen-set seen k (back x) inside),
              λ eq. cc (new, seen_back, ap (is_seen seen) eq),
            )
      ]

  moved_step :
      (i j : ℕ) (p : Permutation) (seen : List Bool)
      → Inner n num_vars aut back i j p seen
      → image_at aut j ≢ i
      → let k = image_at aut j in (x : ℕ) → is_seen (set seen k true) x ≡ true → image_at aut x ≢ x
  moved_step i j p seen h ne x there fixed =
      let k = image_at aut j in
      let lt : j < n = omega (arith, is_seen-lt seen j h.last_seen, h.size) in
      let below : k < n = a.inside j lt in
      let inside : k < length seen = omega (arith, below, h.size) in
      let new = next_new n num_vars aut back a i j p seen h ne in
      elim (Bool-cases (k == x)) [
        | inl same ↦
            let e : k ≡ x = ground arith in
            let stays : image_at aut k ≡ k = ap (image_at aut) e ∙ fixed ∙ sym e in
            let is_j : k ≡ j = sym (a.goes_back k below) ∙ ap back stays ∙ a.goes_back j lt in
            cc (new, h.last_seen, ap (is_seen seen) is_j)
        | inr differ ↦ h.moved x (ground (arith, is_seen-set seen k x inside)) fixed
      ]

  -- The fields on the permutation, where the cycle is one of literals.
  Mapped-step :
      (i j : ℕ) (p : Permutation) (seen : List Bool)
      → Inner n num_vars aut back i j p seen
      → image_at aut j ≢ i
      → i < 2 * num_vars
      → let k = image_at aut j in
        Mapped n num_vars aut back k
          (add_to_current_cycle (literal_of num_vars k) p)
          (set seen k true)
  Mapped-step i j p seen h ne literal x there below differ =
      let k = image_at aut j in
      let lt : j < n = omega (arith, is_seen-lt seen j h.last_seen, h.size) in
      let inside : k < length seen = omega (arith, a.inside j lt, h.size) in
      let old : is_seen seen x ≡ true = ground (arith, is_seen-set seen k x inside) in
      let opened : is_open p ≡ true = ground (arith, h.opened) in
      let j_literal : j < 2 * num_vars = ground (arith, h.same_kind) in
      let added = image-add (literal_of num_vars k) p h.building (literal_of num_vars x) in
      elim (Bool-cases (j == x)) [
        | inl same ↦
            let e : j ≡ x = ground arith in
            let last : last_written p ≡ literal_of num_vars x =
              h.last literal ∙ ap (literal_of num_vars) e in
            let hit : (is_open p && last_written p == literal_of num_vars x) ≡ true =
              ground arith in
            added ∙ rw hit (ap (λ y. some (literal_of num_vars (image_at aut y))) e)
        | inr other ↦
            let ne' : literal_of num_vars j ≢ literal_of num_vars x =
              literal_of_injective num_vars j x j_literal below (ground arith) in
            let miss : (is_open p && last_written p == literal_of num_vars x) ≡ false =
              ground (arith, h.last literal) in
            added ∙ rw miss (h.mapped x old below (ground arith))
      ]

  -- One more node keeps the invariant.
  pub step-Inner :
      (i j : ℕ) (p : Permutation) (seen : List Bool)
      → Inner n num_vars aut back i j p seen
      → image_at aut j ≢ i
      → let k = image_at aut j in
        Inner n num_vars aut back i k (push_node num_vars k p) (set seen k true)
  step-Inner i j p seen h ne =
      let k = image_at aut j in
      let lt : j < n = omega (arith, is_seen-lt seen j h.last_seen, h.size) in
      let inside : k < length seen = omega (arith, a.inside j lt, h.size) in
      let new = next_new n num_vars aut back a i j p seen h ne in
      let size' = length-set seen k true ∙ h.size in
      let begun' : is_seen (set seen k true) i ≡ true =
        ground (arith, is_seen-set seen k i inside, h.begun) in
      let last_seen' : is_seen (set seen k true) k ≡ true =
        ground (arith, is_seen-set seen k k inside) in
      let kind' : ltb k (2 * num_vars) ≡ ltb i (2 * num_vars) = a.kind j lt ∙ h.same_kind in
      elim (Bool-cases (ltb i (2 * num_vars))) [
        | inl literal ↦
            let i_literal : i < 2 * num_vars = ground arith in
            let k_literal : k < 2 * num_vars = ground (arith, kind') in
            let l = literal_of num_vars k in
            let opened : is_open p ≡ true = h.opened ∙ literal in
            let absent : contains p.cycles l ≡ false = h.written k k_literal ∙ new in
            rw (push_node-literal num_vars k p k_literal) (record {
              size = size';
              building = add-IsBuilding l p absent h.building;
              begun = begun';
              last_seen = last_seen';
              moved = moved_step i j p seen h ne;
              behind = behind_step i j p seen h ne;
              same_kind = kind';
              mapped = Mapped-step i j p seen h ne i_literal;
              written = Written-add n num_vars aut back k p seen inside k_literal h.written;
              opened = is_open-add l p h.building ∙ sym literal;
              last = λ _. last_written-add l p h.building;
              first = λ _. first_open-add l p h.building ∙ rw opened (h.first i_literal);
            })
        | inr clause ↦
            let k_clause : 2 * num_vars ≤ k = ground (arith, kind') in
            rw (push_node-clause num_vars k p k_clause) (record {
              size = size';
              building = h.building;
              begun = begun';
              last_seen = last_seen';
              moved = moved_step i j p seen h ne;
              behind = behind_step i j p seen h ne;
              same_kind = kind';
              mapped = λ x there below _.
                  h.mapped x (ground (arith, is_seen-set seen k x inside)) below
                    (ground (arith, h.same_kind));
              written = λ x below. h.written x below ∙ ground (arith, is_seen-set seen k x inside);
              opened = h.opened;
              last = λ lt'. absurd (ground arith);
              first = λ lt'. absurd (ground arith);
            })
      ]
