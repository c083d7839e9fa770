-- ===== src/SymmetryFinder/Cycle.antt =====
-- The callback of the finders: the beginning and the end of a cycle.
use sat_symmetry.Prelude.{
  ℕ, zero, suc, ◌*◌, ◌≤◌, ◌<◌, ◌≡◌, ◌≢◌, refl, sym, ap, ◌∙◌, arith, Bool, true, false, ◌&&◌, some,
  List, [], ◌∷◌, ◌==◌, ltb, length, length-set, get_elem?, set, contains, Bool-cases, inl, inr,
  ◌>>=◌,
}
use sat_symmetry.Permutation.{Permutation, close_current_cycle}
use sat_symmetry.Permutation.Building.{is_open, last_written, add-IsBuilding}
use sat_symmetry.Permutation.Closing.{close-IsBuilding, close_closes}
use sat_symmetry.Permutation.Cycles.{close_cycles}
use sat_symmetry.Permutation.Steps.{
  is_open-add, last_written-add, first_open-add, image-add, image-close,
}
use sat_symmetry.SymmetryFinder.{push_node, follow}
use sat_symmetry.SymmetryFinder.Nodes.{
  IsAutomorphism, image_at, literal_of, literal_of_injective, is_seen, unseen, is_seen-set,
  unseen-set, is_seen-lt,
}
use sat_symmetry.SymmetryFinder.Following.{
  push_node-literal, push_node-clause, Mapped, Outer, Inner, Written-add, next_new,
}
use sat_symmetry.SymmetryFinder.Step.{step-Inner}

pub get_elem?-image_at :
    (xs : List ℕ) (j : ℕ) → j < length xs → get_elem? xs j ≡ some (image_at xs j)
get_elem?-image_at [] j lt = absurd (omega arith)
get_elem?-image_at (x ∷ xs) zero lt = refl
get_elem?-image_at (x ∷ xs) (suc j) lt = get_elem?-image_at xs j (omega arith)

module _ (n num_vars : ℕ) (aut : List ℕ) (back : ℕ → ℕ)
    (a : IsAutomorphism n num_vars aut back) where
  -- The first node of a cycle.
  pub start-Inner :
      (i : ℕ) (p : Permutation) (seen : List Bool)
      → Outer n num_vars aut back p seen
      → i < n
      → is_seen seen i ≡ false
      → image_at aut i ≢ i
      → Inner n num_vars aut back i i (push_node num_vars i p) (set seen i true)
  start-Inner i p seen h lt new moves =
      let inside : i < length seen = omega (arith, lt, h.size) in
      let size' = length-set seen i true ∙ h.size in
      let begun' : is_seen (set seen i true) i ≡ true =
        ground (arith, is_seen-set seen i i inside) in
      let moved' : (x : ℕ) → is_seen (set seen i true) x ≡ true → image_at aut x ≢ x = λ x there.
        elim (Bool-cases (i == x)) [
          | inl same ↦ let e : i ≡ x = ground arith in rw (← e) moves
          | inr other ↦ h.moved x (ground (arith, is_seen-set seen i x inside))
        ] in
      let behind' : (x : ℕ)
          → is_seen (set seen i true) x ≡ true
          → x ≢ i
          → (is_seen (set seen i true) (back x) ≡ true) × (back x ≢ i) =
        λ x there other.
          let old : is_seen seen x ≡ true = ground (arith, is_seen-set seen i x inside) in
          let seen_back = h.behind x old in
          (
            ground (arith, is_seen-set seen i (back x) inside),
            λ eq. cc (new, seen_back, ap (is_seen seen) eq),
          ) in
      elim (Bool-cases (ltb i (2 * num_vars))) [
        | inl literal ↦
            let i_literal : i < 2 * num_vars = ground arith in
            let l = literal_of num_vars i in
            let absent : contains p.cycles l ≡ false = h.written i i_literal ∙ new in
            rw (push_node-literal num_vars i p i_literal) (record {
              size = size';
              building = add-IsBuilding l p absent h.building;
              begun = begun';
              last_seen = begun';
              moved = moved';
              behind = behind';
              same_kind = refl;
              mapped = λ x there below differ.
                  image-add l p h.building (literal_of num_vars x)
                  ∙ rw h.closed (
                      h.mapped x (ground (arith, is_seen-set seen i x inside)) below
                        (omega (arith, a.room, below)));
              written = Written-add n num_vars aut back i p seen inside i_literal h.written;
              opened = is_open-add l p h.building ∙ sym literal;
              last = λ _. last_written-add l p h.building;
              first = λ _. first_open-add l p h.building ∙ rw h.closed;
            })
        | inr clause ↦
            let i_clause : 2 * num_vars ≤ i = ground arith in
            rw (push_node-clause num_vars i p i_clause) (record {
              size = size';
              building = h.building;
              begun = begun';
              last_seen = begun';
              moved = moved';
              behind = behind';
              same_kind = refl;
              mapped = λ x there below _.
                  h.mapped x (ground (arith, is_seen-set seen i x inside)) below
                    (omega (arith, a.room, below));
              written = λ x below. h.written x below ∙ ground (arith, is_seen-set seen i x inside);
              opened = h.closed ∙ sym clause;
              last = λ lt'. absurd (ground arith);
              first = λ lt'. absurd (ground arith);
            })
      ]

  Mapped-close :
      (i j : ℕ) (p : Permutation) (seen : List Bool)
      → Inner n num_vars aut back i j p seen
      → image_at aut j ≡ i
      → Mapped n num_vars aut back n (close_current_cycle p) seen
  Mapped-close i j p seen h end x there below _ =
      let closes = image-close p (literal_of num_vars x) in
      elim (Bool-cases (j == x)) [
        | inl same ↦
            let e : j ≡ x = ground arith in
            let i_literal : i < 2 * num_vars = ground (arith, h.same_kind) in
            let last : last_written p ≡ literal_of num_vars x =
              h.last i_literal ∙ ap (literal_of num_vars) e in
            let hit : (is_open p && last_written p == literal_of num_vars x) ≡ true =
              ground (arith, h.opened) in
            let next : i ≡ image_at aut x = sym end ∙ ap (image_at aut) e in
            closes
            ∙ rw hit (ap some (h.first i_literal) ∙ ap (λ y. some (literal_of num_vars y)) next)
        | inr other ↦
            let image = h.mapped x there below (ground arith) in
            elim (Bool-cases (ltb i (2 * num_vars))) [
              | inl literal ↦
                  let i_literal : i < 2 * num_vars = ground arith in
                  let j_literal : j < 2 * num_vars = ground (arith, h.same_kind) in
                  let ne : literal_of num_vars j ≢ literal_of num_vars x =
                    literal_of_injective num_vars j x j_literal below (ground arith) in
                  let miss : (is_open p && last_written p == literal_of num_vars x) ≡ false =
                    ground (arith, h.last i_literal) in
                  closes ∙ rw miss image
              | inr clause ↦ closes ∙ rw (h.opened, clause) image
            ]
      ]

  -- The end of a cycle.
  pub close-Outer :
      (i j : ℕ) (p : Permutation) (seen : List Bool)
      → Inner n num_vars aut back i j p seen
      → image_at aut j ≡ i
      → Outer n num_vars aut back (close_current_cycle p) seen
  close-Outer i j p seen h end = record {
    size = h.size;
    building = close-IsBuilding p h.building;
    closed = close_closes p;
    moved = h.moved;
    behind = λ x there. elim (Bool-cases (i == x)) [
      | inl same ↦
          let e : i ≡ x = ground arith in
          let lt : j < n = omega (arith, is_seen-lt seen j h.last_seen, h.size) in
          let from : back x ≡ j = ap back (sym e ∙ sym end) ∙ a.goes_back j lt in
          rw from h.last_seen
      | inr other ↦ (h.behind x there (ground arith)).0
    ];
    mapped = Mapped-close i j p seen h end;
    written = λ x below. rw (close_cycles p) (h.written x below);
  }

  -- The loop over a cycle ends, and nodes that were seen stay so.
  pub follow_lem :
      (fuel i j : ℕ) (p : Permutation) (seen : List Bool)
      → Inner n num_vars aut back i j p seen
      → unseen seen < fuel
      → (p' : Permutation) × (seen' : List Bool) × (j' : ℕ) × (follow fuel aut num_vars i
            (image_at aut j)
            p
            seen
          ≡ some (p', seen'))
        × Inner n num_vars aut back i j' p' seen'
        × (image_at aut j' ≡ i)
        × ((x : ℕ) → is_seen seen x ≡ true → is_seen seen' x ≡ true)
  unfolding follow
  follow_lem zero i j p seen h enough = absurd (omega arith)
  follow_lem (suc fuel) i j p seen h enough =
      let k = image_at aut j in
      elim (Bool-cases (k == i)) [
        | inl end ↦ (p, seen, j, rw (follow, end), h, ground arith, λ x there. there)
        | inr more ↦
            let ne : k ≢ i = ground arith in
            let lt : j < n = omega (arith, is_seen-lt seen j h.last_seen, h.size) in
            let inside : k < length seen = omega (arith, a.inside j lt, h.size) in
            let fewer = unseen-set seen k inside (next_new n num_vars aut back a i j p seen h ne) in
            let got : get_elem? aut k ≡ some (image_at aut k) =
              get_elem?-image_at aut k (omega (arith, a.inside j lt, a.size)) in
            let (p', seen', j', made, h', end, kept) =
              follow_lem fuel i k (push_node num_vars k p) (set seen k true)
                (step-Inner n num_vars aut back a i j p seen h ne) (omega (arith, fewer)) in
            (
              p',
              seen',
              j',
              rw (follow, more, got, ◌>>=◌, made),
              h',
              end,
              λ x there. kept x (ground (arith, is_seen-set seen k x inside)),
            )
      ]
