-- ===== src/Orbits/Laws.antt =====
-- Orbits.cc, assign: the elements of a cycle have one root.
use mathlib.Core.Path.{subst}
use sat_symmetry.Prelude.{
  ℕ, zero, suc, ◌+◌, ◌≤◌, ◌<◌, ◌≡◌, ◌⊎◌, refl, arith, true, Option, some, List, [], ◌∷◌, ◌==◌,
  if◌then◌else◌, insert_new, contains, contains-insert_new, inl, inr, Bool-cases, All, All-implied,
}
use sat_symmetry.Literal.{Literal, variable}
use sat_symmetry.Permutation.{Permutation, number_of_cycles, cycle, last_element_in_cycle}
use sat_symmetry.DisjointSets.{Node, DisjointSets, node_at, add}
use sat_symmetry.DisjointSets.Laws.{IsForest, HasRoot, here, above, same_root}
use sat_symmetry.DisjointSets.Find.{find_lem}
use sat_symmetry.DisjointSets.Add.{Added, add_lem}
use sat_symmetry.DisjointSets.Union.{Merged, union_lem}
use sat_symmetry.Orbits.{Connected, connect, connect_cycle, connect_cycles, connect_all}

-- Two elements with one root.
abbrev pub Same : DisjointSets → ℕ → ℕ → Type 0
Same d x y = (r : ℕ) × HasRoot d.nodes x r × HasRoot d.nodes y r

-- Elements that have one root keep one.
abbrev pub Coarser : DisjointSets → DisjointSets → Type 0
Coarser d d' = (x y r : ℕ) → HasRoot d.nodes x r → HasRoot d.nodes y r → Same d' x y

add-Coarser : (e : ℕ) (d d' : DisjointSets) → Added e d d' → Coarser d d'
add-Coarser e d d' h x y r rx ry = (r, h.roots x r rx, h.roots y r ry)

union-Coarser : (i j : ℕ) (d d' : DisjointSets) → Merged i j d d' → Coarser d d'
union-Coarser i j d d' h x y r rx ry =
    ((if h.loser == r then h.winner else r), h.moved x r rx, h.moved y r ry)

union-Same : (x y : ℕ) (d d' : DisjointSets) → Merged x y d d' → Same d' x y
union-Same x y d d' h = (
  h.winner,
  to_winner h.x_root x (elim h.which [ inl (w, l) ↦ inl w | inr (w, l) ↦ inr l ]) h.of_x,
  to_winner h.y_root y (elim h.which [ inl (w, l) ↦ inr l | inr (w, l) ↦ inl w ]) h.of_y,
)
  where
    to_winner :
        (r i : ℕ)
        → (h.winner ≡ r) ⊎ (h.loser ≡ r)
        → HasRoot d.nodes i r
        → HasRoot d'.nodes i h.winner
    to_winner r i (inl w) root = subst (HasRoot d'.nodes i) (ground arith) (h.moved i r root)
    to_winner r i (inr l) root = subst (HasRoot d'.nodes i) (ground arith) (h.moved i r root)

abbrev pub Rooted : DisjointSets → ℕ → Type 0
Rooted d x = (r : ℕ) × HasRoot d.nodes x r

pub node_of_root :
    (nodes : List (Option Node)) (i r : ℕ)
    → HasRoot nodes i r
    → (n : Node) × (node_at nodes i ≡ some n)
node_of_root nodes i r (here n at top) = (n, at)
node_of_root nodes i r (above n at up rest) = (n, at)

-- A step of the loops: elements with one root keep one, and the symmetric variables have one.
pub record Grown (s s' : Connected) : Type 0 where
  pub forest : IsForest s'.sets.nodes
  pub coarser : Coarser s.sets s'.sets
  pub rooted :
      ((v : ℕ) → contains s.symmetrics v ≡ true → Rooted s.sets v)
      → (v : ℕ) → contains s'.symmetrics v ≡ true
      → Rooted s'.sets v

Grown-refl : (s : Connected) → IsForest s.sets.nodes → Grown s s
Grown-refl s h = record { forest = h; coarser = λ x y r rx ry. (r, rx, ry); rooted = λ all. all }

Grown-trans : (s t u : Connected) → Grown s t → Grown t u → Grown s u
Grown-trans s t u g k = record {
  forest = k.forest;
  coarser = λ x y r rx ry. let (q, qx, qy) = g.coarser x y r rx ry in k.coarser x y q qx qy;
  rooted = λ all. k.rooted (g.rooted all);
}

Coarser-Rooted : (d d' : DisjointSets) (x : ℕ) → Coarser d d' → Rooted d x → Rooted d' x
Coarser-Rooted d d' x c (r, root) = let (q, qx, _) = c x x r root root in (q, qx)

module _ (element image : Literal) (s : Connected) (h : IsForest s.sets.nodes)
    (root : Rooted s.sets (variable element)) where
  pub connect_lem :
      (s' : Connected) × (connect element image s ≡ some s')
      × Grown s s'
      × Same s'.sets (variable element) (variable image)
  unfolding connect
  connect_lem =
      let e = variable element in
      let i = variable image in
      let d = add i s.sets in
      let added = add_lem i s.sets h in
      let grown = add-Coarser i s.sets d added in
      let (r, root') = Coarser-Rooted s.sets d e grown root in
      let (n, at_e) = node_of_root d.nodes e r root' in
      let (m, at_i) = added.node in
      let (d', made, merged) = union_lem d e i n m added.forest at_e at_i in
      let merge = union-Coarser e i d d' merged in
      let all : Coarser s.sets d' =
        λ x y q qx qy. let (p, px, py) = grown x y q qx qy in merge x y p px py in
      (
        record { symmetrics = insert_new e s.symmetrics; sets = d' },
        rw made,
        record {
          forest = merged.forest;
          coarser = all;
          rooted = λ before v on. elim (Bool-cases (contains s.symmetrics v)) [
            | inl old ↦ Coarser-Rooted s.sets d' v all (before v old)
            | inr new ↦
                let eq : e ≡ v = ground (arith, contains-insert_new e v s.symmetrics) in
                rw (← eq) (Coarser-Rooted s.sets d' e all root)
          ];
        },
        union-Same e i d d' merged,
      )

Same-sym : (d : DisjointSets) (x y : ℕ) → Same d x y → Same d y x
Same-sym d x y (r, rx, ry) = (r, ry, rx)

Same-trans : (d : DisjointSets) (x y z : ℕ) → Same d x y → Same d y z → Same d x z
Same-trans d x y z (r, rx, ry) (q, qy, qz) =
    let e : q ≡ r = same_root d.nodes y q r qy ry in (r, rx, rw e at qz)

abbrev pub AllSame : Literal → List Literal → DisjointSets → Type 0
AllSame element ls d = All (λ (l : Literal). Same d (variable element) (variable l)) ls

Same-Coarser : (d d' : DisjointSets) (x y : ℕ) → Coarser d d' → Same d x y → Same d' x y
Same-Coarser d d' x y c (r, rx, ry) = c x y r rx ry

pub connect_cycle_lem :
    (element : Literal) (ls : List Literal) (s : Connected)
    → IsForest s.sets.nodes
    → Rooted s.sets (variable element)
    → (s' : Connected) × (connect_cycle element ls s ≡ some s')
      × Grown s s'
      × AllSame element ls s'.sets
unfolding connect_cycle
connect_cycle_lem element [] s h root = (s, refl, Grown-refl s h, tt)
connect_cycle_lem element (l ∷ ls) s h root =
    let (s1, made1, grown1, (r, re, rl)) = connect_lem element l s h root in
    let (s2, made2, grown2, all) = connect_cycle_lem l ls s1 grown1.forest (r, rl) in
    let first =
      Same-Coarser s1.sets s2.sets (variable element) (variable l) grown2.coarser (r, re, rl) in
    (
      s2,
      rw (made1, made2),
      Grown-trans s s1 s2 grown1 grown2,
      (
        first,
        All-implied (λ (x : Literal). Same s2.sets (variable l) (variable x))
            (λ (x : Literal). Same s2.sets (variable element) (variable x))
            (λ x same. Same-trans s2.sets (variable element) (variable l) (variable x) first same)
            ls all,
      ),
    )

abbrev AllCycles : Permutation → ℕ → ℕ → DisjointSets → Type 0
AllCycles p n c d = (k : ℕ) → c ≤ k → k < c + n → AllSame (last_element_in_cycle p k) (cycle p k) d

AllSame-Coarser :
    (element : Literal) (ls : List Literal) (d d' : DisjointSets)
    → Coarser d d'
    → AllSame element ls d
    → AllSame element ls d'
AllSame-Coarser element ls d d' c =
    All-implied (λ (x : Literal). Same d (variable element) (variable x))
      (λ (x : Literal). Same d' (variable element) (variable x))
      (λ x. Same-Coarser d d' (variable element) (variable x) c) ls

pub connect_cycles_lem :
    (p : Permutation) (n c : ℕ) (s : Connected)
    → IsForest s.sets.nodes
    → (s' : Connected) × (connect_cycles p n c s ≡ some s') × Grown s s' × AllCycles p n c s'.sets
unfolding connect_cycles
connect_cycles_lem p zero c s h = (s, refl, Grown-refl s h, λ k le lt. absurd (omega arith))
connect_cycles_lem p (suc n) c s h =
    let element = last_element_in_cycle p c in
    let e = variable element in
    let s0 = record s { sets = add e s.sets } in
    let added = add_lem e s.sets h in
    let coarser = add-Coarser e s.sets s0.sets added in
    let grown0 : Grown s s0 = record {
      forest = added.forest;
      coarser = coarser;
      rooted = λ all v on. Coarser-Rooted s.sets s0.sets v coarser (all v on);
    } in
    let (m, at) = added.node in
    let (r, _, _, root, _) = find_lem s0.sets e m added.forest at in
    let (s1, made1, grown1, all1) =
      connect_cycle_lem element (cycle p c) s0 added.forest (r, root) in
    let (s2, made2, grown2, all2) = connect_cycles_lem p n (c + 1) s1 grown1.forest in
    (
      s2,
      rw (made1, made2),
      Grown-trans s s0 s2 grown0 (Grown-trans s0 s1 s2 grown1 grown2),
      λ k le lt. elim (Bool-cases (c == k)) [
        | inl same ↦
            let eq : c ≡ k = ground arith in
            rw (← eq) (AllSame-Coarser element (cycle p c) s1.sets s2.sets grown2.coarser all1)
        | inr other ↦ all2 k (ground arith) (omega arith)
      ],
    )

-- The literals of each cycle of each permutation have variables with one root.
abbrev pub Connects : List Permutation → DisjointSets → Type 0
Connects ps d = All (λ (p : Permutation). AllCycles p (number_of_cycles p) 0 d) ps

pub connect_all_lem :
    (ps : List Permutation) (s : Connected)
    → IsForest s.sets.nodes
    → (s' : Connected) × (connect_all ps s ≡ some s') × Grown s s' × Connects ps s'.sets
unfolding connect_all
connect_all_lem [] s h = (s, refl, Grown-refl s h, tt)
connect_all_lem (p ∷ ps) s h =
    let (s1, made1, grown1, all1) = connect_cycles_lem p (number_of_cycles p) 0 s h in
    let (s2, made2, grown2, all2) = connect_all_lem ps s1 grown1.forest in
    (
      s2,
      rw (made1, made2),
      Grown-trans s s1 s2 grown1 grown2,
      (
        λ k le lt.
            AllSame-Coarser (last_element_in_cycle p k) (cycle p k) s1.sets s2.sets grown2.coarser
              (all1 k le lt),
        all2,
      ),
    )
