-- ===== src/Orbits/Classes.antt =====
-- Orbits.cc, assign: the orbits are the sets of symmetric variables with one root.
use sat_symmetry.Prelude.{
  ℕ, ◌≡◌, ◌⊎◌, refl, arith, true, ◌||◌, some, List, [], ◌∷◌, ◌==◌, if◌then◌else◌, contains,
  contains-append, inl, inr, Bool-cases,
}
use sat_symmetry.Literal.{BooleanVariable}
use sat_symmetry.Permutation.{Permutation}
use sat_symmetry.DisjointSets.{DisjointSets, new_disjoint_sets}
use sat_symmetry.DisjointSets.Laws.{IsForest, HasRoot, same_root}
use sat_symmetry.DisjointSets.Find.{find_lem}
use sat_symmetry.DisjointSets.Link.{new_disjoint_sets-IsForest}
use sat_symmetry.Orbits.{Connected, Classes, push_class, classes_of, members, assign}
use sat_symmetry.Orbits.Finest.{ColoursAll, connect_all-Coloured, Coloured-same_root}
use sat_symmetry.Orbits.Symmetric.{in_some_cycle, connect_all-symmetrics}
use sat_symmetry.Orbits.Laws.{Rooted, Connects, node_of_root, connect_all_lem}

-- The class of a root.
abbrev pub class_at : Classes → ℕ → List BooleanVariable
class_at [] r = []
class_at ((s, vs) ∷ rest) r = if s == r then vs else class_at rest r

class_at-push :
    (r : ℕ) (v : BooleanVariable) (classes : Classes) (s : ℕ) (w : BooleanVariable)
    → contains (class_at (push_class r v classes) s) w ≡ (
        if r == s
        then contains (class_at classes s) w || v == w
        else contains (class_at classes s) w)
class_at-push r v [] s w = ground arith
class_at-push r v ((q, vs) ∷ rest) s w =
    ground (arith, contains-append vs (v ∷ []) w, class_at-push r v rest s w)

-- The variables go into the classes of their roots.
pub record Sorted (d : DisjointSets) (vs : List BooleanVariable) (before after : Classes)
    : Type 0 where
  pub sound :
      (r w : ℕ)
      → contains (class_at after r) w ≡ true
      → (contains (class_at before r) w ≡ true) ⊎ ((contains vs w ≡ true) × HasRoot d.nodes w r)
  pub kept :
      (r w : ℕ) → contains (class_at before r) w ≡ true → contains (class_at after r) w ≡ true
  pub complete :
      (r w : ℕ) → contains vs w ≡ true → HasRoot d.nodes w r → contains (class_at after r) w ≡ true

classes_of-Sorted :
    (vs : List BooleanVariable) (d : DisjointSets) (classes : Classes)
    → IsForest d.nodes
    → ((v : ℕ) → contains vs v ≡ true → Rooted d v)
    → (classes' : Classes) × (classes_of vs d classes ≡ some classes')
      × Sorted d vs classes classes'
unfolding classes_of
classes_of-Sorted [] d classes h rooted = (
  classes,
  refl,
  record { sound = λ r w on. inl on; kept = λ r w on. on; complete = λ r w on. cc },
)
classes_of-Sorted (v ∷ vs) d classes h rooted =
    let (q, root_v) = rooted v (ground arith) in
    let (n, at) = node_of_root d.nodes v q root_v in
    let (r0, nodes', found, root, relinked) = find_lem d v n h at in
    let d' = record d { nodes = nodes' } in
    let back : (w r : ℕ) → contains vs w ≡ true → HasRoot nodes' w r → HasRoot d.nodes w r =
      λ w r on root'.
        let (s, root_w) = rooted w (ground arith) in
        let e : s ≡ r = same_root nodes' w s r (relinked.roots w s root_w) root' in
        rw e at root_w in
    let (classes', made, rest) =
      classes_of-Sorted vs d' (push_class r0 v classes) relinked.forest
        λ w on. let (s, root_w) = rooted w (ground arith) in (s, relinked.roots w s root_w) in
    (
      classes',
      rw (found, made),
      record {
        sound = λ r w on. elim (rest.sound r w on) [
          | inl pushed ↦ elim (Bool-cases (contains (class_at classes r) w)) [
            | inl old ↦ inl old
            | inr new ↦
                let e : r0 ≡ r = ground (arith, class_at-push r0 v classes r w) in
                let e' : v ≡ w = ground (arith, class_at-push r0 v classes r w) in
                inr (ground arith, rw (e, e') at root)
          ]
          | inr (later, root') ↦ inr (ground arith, back w r later root')
        ];
        kept = λ r w on. rest.kept r w (ground (arith, class_at-push r0 v classes r w));
        complete = λ r w on root_w. elim (Bool-cases (v == w)) [
          | inl same ↦
              let e : v ≡ w = ground arith in
              let e' : r0 ≡ r = same_root d.nodes v r0 r root (rw (← e) at root_w) in
              rest.kept r w (ground (arith, class_at-push r0 v classes r w))
          | inr other ↦ rest.complete r w (ground arith) (relinked.roots w r root_w)
        ];
      },
    )

-- What `assign` leaves: the variables and sets of the first loop, and the classes of the second.
pub record Assigned (ps : List Permutation) (s : Connected) (classes : Classes) : Type 0 where
  pub forest : IsForest s.sets.nodes
  pub connects : Connects ps s.sets
  pub finest :
      (f : ℕ → ℕ)
      → ColoursAll f ps
      → (x y r : ℕ) → HasRoot s.sets.nodes x r
      → HasRoot s.sets.nodes y r
      → f x ≡ f y
  pub symmetric : (v : BooleanVariable) → contains s.symmetrics v ≡ in_some_cycle ps v
  pub sound :
      (r w : ℕ)
      → contains (class_at classes r) w ≡ true
      → (contains s.symmetrics w ≡ true) × HasRoot s.sets.nodes w r
  pub complete :
      (r w : ℕ)
      → contains s.symmetrics w ≡ true
      → HasRoot s.sets.nodes w r
      → contains (class_at classes r) w ≡ true

-- For any permutations and any order of the walk over the map assign gives a result; its orbits
-- are classes of variables, walked over in that order: the symmetric variables are those of the
-- last elements of the cycles that are not empty and of the literals of the cycles but the last in
-- each, the class of a root holds exactly the symmetric variables with this root, and the
-- variables of the literals of each cycle of each permutation have one root; variables with one
-- root are not told apart by any function that gives one value to the variables of each cycle.
pub assign-Assigned :
    (walk : Classes → Classes) (ps : List Permutation)
    → (s : Connected) × (classes : Classes) × (assign walk ps
        ≡ some (record { symmetrics = s.symmetrics; orbits = members (walk classes) }))
      × Assigned ps s classes
unfolding assign new_disjoint_sets
assign-Assigned walk ps =
    let (s, made, grown, connects) =
      connect_all_lem ps (record { symmetrics = []; sets = new_disjoint_sets })
        new_disjoint_sets-IsForest in
    let (classes, sorted, h) =
      classes_of-Sorted s.symmetrics s.sets [] grown.forest (grown.rooted (λ v on. cc)) in
    (
      s,
      classes,
      rw (made, sorted),
      record {
        forest = grown.forest;
        connects = connects;
        finest = λ f one x y r. Coloured-same_root f s.sets x y r (
            connect_all-Coloured f ps (record { symmetrics = []; sets = new_disjoint_sets }) s
              new_disjoint_sets-IsForest one (λ x n at. cc) made);
        symmetric = λ v.
            connect_all-symmetrics ps (record { symmetrics = []; sets = new_disjoint_sets }) s v
              made;
        sound = λ r w on. elim (h.sound r w on) [ inl nothing ↦ cc | inr both ↦ both ];
        complete = h.complete;
      },
    )
