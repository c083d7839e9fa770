-- ===== src/SaucyReader/Nodes.antt =====
-- SaucyReader.cc, graphNodeToInt: which literals a file can name, and why a permutation of them can
-- be added to the group.
use mathlib.Core.Path.{subst}
use sat_symmetry.Prelude.{
  ℕ, zero, suc, ◌+◌, ◌-◌, ◌*◌, ◌/◌, ◌%◌, ◌≤◌, ◌<◌, ◌≡◌, refl, ap, arith, Bool, true, false, ◌==◌,
  leb, Bool-cases, inl, inr, Option, none, some, List, [], ◌∷◌, length, get_or, take, contains,
  has_key, bit_xor, has_key-insert, insert, All, All-append, All-get_or, length-append,
}
use sat_symmetry.Prelude.Int.{ℤ, pos, negsuc}
use sat_symmetry.Literal.{Literal, variable, negated, from_signed}
use sat_symmetry.Literal.Laws.{variable_lem, negated_lem}
use sat_symmetry.Bits.Laws.{bit_xor-one}
use sat_symmetry.Permutation.{
  Permutation, new_permutation, add_to_current_cycle, close_current_cycle, back_or_zero,
  number_of_cycles, cycle, cycle_begin, image_of,
}
use sat_symmetry.Permutation.Building.{
  is_open, last_written, first_open, add_lem, back_or_zero-append,
}
use sat_symmetry.Permutation.Closing.{close_lem}
use sat_symmetry.Group.{Group, add_permutation, is_permutation_spurious}
use sat_symmetry.Group.Laws.{CommutesAt, is_permutation_spurious_lem}
use sat_symmetry.Group.Watch.{add_permutation_lem}
use sat_symmetry.Group.Total.{All-take, All-drop}
use sat_symmetry.Group.Kept.{All-contains}
use sat_symmetry.StreamBuffer.{with_sign}
use sat_symmetry.SaucyReader.{graph_node_to_int}

-- A positive literal is in range; a negative one may be any.
abbrev pub IsNamed : ℕ → Literal → Type 0
IsNamed n l = l % 2 ≡ 0 → l / 2 < n

positive_half : (k : ℕ) (l : Literal) → from_signed (pos k) ≡ some l → l / 2 + 1 ≡ k
unfolding from_signed
positive_half zero l e = cc
positive_half (suc k) l e = let same : k * 2 ≡ l = cc in omega (arith, same)

negative_odd : (k : ℕ) (l : Literal) → from_signed (with_sign true k) ≡ some l → l % 2 ≡ 1
unfolding from_signed
negative_odd zero l e = cc
negative_odd (suc k) l e =
    let same : bit_xor (k * 2) 1 ≡ l = cc in omega (arith, same, bit_xor-one (k * 2))

pub from_signed-IsNamed :
    (n : ℕ) (parsed : ℤ) (l : Literal)
    → from_signed (graph_node_to_int parsed n) ≡ some l
    → IsNamed n l
unfolding graph_node_to_int
from_signed-IsNamed n (negsuc k) l e even = absurd (omega (arith, negative_odd (suc k) l e, even))
from_signed-IsNamed n (pos node) l e even = elim (Bool-cases (leb node n)) [
  | inl low ↦
      let le : node ≤ n = ground arith in
      omega (arith, positive_half node l (rw low at e), even, le)
  | inr high ↦ elim (Bool-cases (leb node (2 * n))) [
    | inl mirrored ↦
        absurd (omega (arith, negative_odd (node - n) l (rw (high, mirrored) at e), even))
    | inr clause ↦ absurd (omega (arith, negative_odd 0 l (rw (high, clause) at e), even))
  ]
]

-- The literals of a permutation that is read are named, also those that have an image.
pub record IsRead (n : ℕ) (p : Permutation) : Type 0 where
  pub size : p.size ≡ n
  pub limit : back_or_zero p.cycles_lim ≤ length p.cycles
  pub named : All (IsNamed n) p.cycles
  pub mapped : (e : Literal) → has_key p.image e ≡ true → IsNamed n e

pub new_permutation-IsRead : (n : ℕ) → IsRead n (new_permutation n)
unfolding new_permutation
new_permutation-IsRead n = record {
  size = refl;
  limit = omega arith;
  named = tt;
  mapped = λ e h. cc;
}

linked-IsNamed :
    (n : ℕ) (k e i : Literal) (p : Permutation)
    → IsNamed n k
    → (has_key p.image e ≡ true → IsNamed n e)
    → has_key (insert k i p.image) e ≡ true
    → IsNamed n e
linked-IsNamed n k e i p name old known = elim (Bool-cases (k == e)) [
  | inl here ↦ let same : k ≡ e = ground arith in subst (IsNamed n) same name
  | inr other ↦ old (ground (arith, has_key-insert k e i p.image))
]

pub add-IsRead :
    (n : ℕ) (l : Literal) (p : Permutation)
    → IsNamed n l
    → IsRead n p
    → IsRead n (add_to_current_cycle l p)
add-IsRead n l p name h = elim (Bool-cases (is_open p)) [
  | inl opened ↦
      let last =
        All-get_or (IsNamed n) p.cycles (length p.cycles - 1) 0 h.named (ground (arith, h.limit)) in
      rw (add_lem l p h.limit, opened)
        (record {
          size = h.size;
          limit = omega (arith, h.limit, length-append p.cycles (l ∷ []));
          named = All-append (IsNamed n) p.cycles (l ∷ []) h.named (name, tt);
          mapped = λ e known. linked-IsNamed n (last_written p) e l p last (h.mapped e) known;
        })
  | inr closed ↦
      rw (add_lem l p h.limit, closed)
        (record {
          size = h.size;
          limit = omega (arith, h.limit, length-append p.cycles (l ∷ []));
          named = All-append (IsNamed n) p.cycles (l ∷ []) h.named (name, tt);
          mapped = h.mapped;
        })
]

pub close-IsRead : (n : ℕ) (p : Permutation) → IsRead n p → IsRead n (close_current_cycle p)
close-IsRead n p h = elim (Bool-cases (is_open p)) [
  | inl opened ↦
      let last =
        All-get_or (IsNamed n) p.cycles (length p.cycles - 1) 0 h.named (ground (arith, h.limit)) in
      rw (close_lem p, opened)
        (record {
          size = h.size;
          limit = omega (arith, back_or_zero-append p.cycles_lim (length p.cycles));
          named = h.named;
          mapped = λ e known.
              linked-IsNamed n (last_written p) e (first_open p) p last (h.mapped e) known;
        })
  | inr closed ↦ rw (close_lem p, closed) h
]

-- A literal out of range has no image for its negation, so a permutation with it is spurious.
commutes_in_range :
    (n : ℕ) (p : Permutation) (l : Literal)
    → IsRead n p
    → IsNamed n l
    → CommutesAt p l
    → variable l < n
unfolding image_of
commutes_in_range n p l h name (x, here, there) =
    let known : has_key p.image (negated l) ≡ true =
      ap (λ (o : Option Literal). elim o as (λ _. Bool) [ none ↦ false | some _ ↦ true ]) there in
    elim (Bool-cases (l % 2 == 0)) [
      | inl even ↦ let e : l % 2 ≡ 0 = ground arith in omega (arith, variable_lem l, name e)
      | inr odd ↦
          let e : negated l % 2 ≡ 0 = ground (arith, negated_lem l) in
          let half : negated l / 2 ≡ l / 2 = omega (arith, negated_lem l) in
          omega (arith, variable_lem l, half, h.mapped (negated l) known e)
    ]

listed-IsNamed :
    (n : ℕ) (ls : List Literal) (l : Literal)
    → All (IsNamed n) ls
    → contains ls l ≡ true
    → IsNamed n l
listed-IsNamed n [] l h there = cc
listed-IsNamed n (x ∷ ls) l h there = elim (Bool-cases (x == l)) [
  | inl here ↦ let same : x ≡ l = ground arith in subst (IsNamed n) same h.0
  | inr later ↦ listed-IsNamed n ls l h.1 (ground arith)
]

-- What is read can be added.
pub add_read_total :
    (n : ℕ) (p : Permutation) (g : Group)
    → IsRead n p
    → (g' : Group) × (add_permutation p g ≡ some g')
unfolding add_permutation cycle
add_read_total n p g h = elim (Bool-cases (number_of_cycles p == 0)) [
  | inl empty ↦ (g, rw empty)
  | inr cycles ↦ elim (Bool-cases (is_permutation_spurious p)) [
    | inl spurious ↦ (g, rw (cycles, spurious))
    | inr commutes ↦
        let (g', made, _, _) = add_permutation_lem p g cycles commutes (λ i le lt.
          All-contains (cycle p i) λ l there. rw h.size (
            commutes_in_range n p l h (listed-IsNamed n (cycle p i) l (cycle-IsNamed i) there)
              (is_permutation_spurious_lem p i l commutes (omega (arith, lt)) there))) in
        (g', made)
  ]
]
  where
    cycle-IsNamed : (i : ℕ) → All (IsNamed n) (cycle p i)
    cycle-IsNamed i =
        All-drop (IsNamed n) (cycle_begin p i) (take (get_or p.cycles_lim i 0) p.cycles)
          (All-take (IsNamed n) (get_or p.cycles_lim i 0) p.cycles h.named)
