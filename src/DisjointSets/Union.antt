-- ===== src/DisjointSets/Union.antt =====
-- DisjointSets.h, Union: two sets made one.
use sat_symmetry.Prelude.{
  ℕ, ◌+◌, ◌-◌, ◌%◌, ◌^◌, ◌≡◌, ◌⊎◌, refl, arith, Option, none, some, List, ◌==◌, if◌then◌else◌,
  Bool-cases, inl, inr,
}
use sat_symmetry.DisjointSets.{Node, DisjointSets, node_at, link, union}
use sat_symmetry.DisjointSets.Laws.{IsForest, HasRoot, here, root_of, same_root}
use sat_symmetry.DisjointSets.Find.{Relinked, Relinked-trans, find_lem}
use sat_symmetry.DisjointSets.Link.{Moved, link_lem}

-- The root of an element is one after the nodes are relinked.
root_after :
    (nodes nodes' : List (Option Node)) (i r : ℕ) (n : Node)
    → IsForest nodes
    → node_at nodes i ≡ some n
    → HasRoot nodes i r
    → Relinked nodes nodes'
    → (k : Node) × (node_at nodes' r ≡ some k) × (k.parent ≡ none)
root_after nodes nodes' i r n h at root relinked =
    let (k, at_r, top, _) = root_of nodes i r n h at root in
    let (k', at_r', _) = relinked.ranks r k at_r in
    let self : HasRoot nodes r r = here k at_r top in
    let (k'', at_r'', top'', _) =
      root_of nodes' r r k' relinked.forest at_r' (relinked.roots r r self) in
    (k'', at_r'', top'')

-- Two sets made one.
pub record Merged (x y : ℕ) (d d' : DisjointSets) : Type 0 where
  pub x_root : ℕ
  pub y_root : ℕ
  pub of_x : HasRoot d.nodes x x_root
  pub of_y : HasRoot d.nodes y y_root
  pub forest : IsForest d'.nodes
  pub winner : ℕ
  pub loser : ℕ
  pub which : ((winner ≡ x_root) × (loser ≡ y_root)) ⊎ ((winner ≡ y_root) × (loser ≡ x_root))
  pub moved : Moved winner loser d.nodes d'.nodes
  pub absent : (i : ℕ) → node_at d.nodes i ≡ none → node_at d'.nodes i ≡ none
  pub sets :
      d'.num_sets ≡ (if x_root == y_root then d.num_sets else (d.num_sets + (2 ^ 32 - 1)) % 2 ^ 32)

-- In a forest union of two elements that were added gives a forest in which the elements of one of
-- their roots have the other root, all other elements keep theirs, none is new, and the number of
-- sets is one less (modulo 2 ^ 32) exactly if the roots differ.
pub union_lem :
    (d : DisjointSets) (x y : ℕ) (n m : Node)
    → IsForest d.nodes
    → node_at d.nodes x ≡ some n
    → node_at d.nodes y ≡ some m
    → (d' : DisjointSets) × (union x y d ≡ some d') × Merged x y d d'
unfolding union
union_lem d x y n m h at_x at_y =
    let (rx, nodes1, found_x, root_x, relinked1) = find_lem d x n h at_x in
    let (m1, at_y1, _) = relinked1.ranks y m at_y in
    let d1 = record d { nodes = nodes1 } in
    let (ry, nodes2, found_y, root_y1, relinked2) = find_lem d1 y m1 relinked1.forest at_y1 in
    let relinked = Relinked-trans d.nodes nodes1 nodes2 relinked1 relinked2 in
    let (s, _, _, root_y, _) = find_lem d y m h at_y in
    let s_is : s ≡ ry = same_root nodes1 y s ry (relinked1.roots y s root_y) root_y1 in
    let root_y' : HasRoot d.nodes y ry = rw s_is at root_y in
    let (kx, at_kx, top_x) = root_after d.nodes nodes2 x rx n h at_x root_x relinked in
    let (ky, at_ky, top_y) = root_after d.nodes nodes2 y ry m h at_y root_y' relinked in
    elim (Bool-cases (rx == ry)) [
      | inl same ↦
          let e : rx ≡ ry = ground arith in
          (
            record d { nodes = nodes2 },
            rw (found_x, found_y, at_kx, at_ky, same),
            record {
              x_root = rx;
              y_root = ry;
              of_x = root_x;
              of_y = root_y';
              forest = relinked.forest;
              winner = rx;
              loser = ry;
              which = inl (refl, refl);
              moved = λ i r root. elim (Bool-cases (ry == r)) [
                | inl here_too ↦
                    let e' : rx ≡ r = ground arith in rw (here_too, e') (relinked.roots i r root)
                | inr other ↦ rw other (relinked.roots i r root)
              ];
              absent = relinked.absent;
              sets = rw same;
            },
          )
      | inr apart ↦
          let (forest, (w, l, which, moved, absent)) =
            link_lem nodes2 rx ry kx ky relinked.forest at_kx top_x at_ky top_y apart in
          (
            record d {
              nodes = link rx kx ry ky nodes2;
              num_sets = (d.num_sets + (2 ^ 32 - 1)) % 2 ^ 32;
            },
            rw (found_x, found_y, at_kx, at_ky, apart),
            record {
              x_root = rx;
              y_root = ry;
              of_x = root_x;
              of_y = root_y';
              forest = forest;
              winner = w;
              loser = l;
              which = which;
              moved = λ i r root. moved i r (relinked.roots i r root);
              absent = λ i gone. absent i (relinked.absent i gone);
              sets = rw apart;
            },
          )
    ]
