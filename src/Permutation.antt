-- ===== src/Permutation.antt =====
-- include/cosy/Permutation.h and src/Permutation.cc: a permutation of literals, written cycle by
-- cycle. `_cycles` holds the cycles one after the other, and `_cycles_lim` where each one ends.
-- The iterator of a cycle is the list that it walks over; `none` of `image_of` and `inverse_of` is
-- the exception of `unordered_map::at`. Printing is left out.
pub mod Building
pub mod Closing
pub mod Cycles
pub mod Around
pub mod Steps
pub mod Tests
use sat_symmetry.Prelude.{
  ℕ, zero, suc, ◌+◌, ◌-◌, Bool, true, false, not, ◌&&◌, Option, none, some, List, [], ◌∷◌, ◌++◌,
  ◌==◌, ltb, if◌then◌else◌, length, get_or, take, drop, Map, empty_map, insert, has_key,
}
use sat_symmetry.Literal.{Literal}

pub record Permutation : Type 0 where
  pub size : ℕ
  pub cycles : List Literal
  pub cycles_lim : List ℕ
  pub image : Map Literal
  pub inverse : Map Literal

-- `Permutation(unsigned int size)`
unfoldable pub new_permutation : ℕ → Permutation
new_permutation size = record {
  size = size;
  cycles = [];
  cycles_lim = [];
  image = empty_map;
  inverse = empty_map;
}

-- `_cycles_lim.empty() ? 0 : _cycles_lim.back()`
abbrev pub back_or_zero : List ℕ → ℕ
back_or_zero [] = 0
back_or_zero (n ∷ []) = n
back_or_zero (n ∷ m ∷ ns) = back_or_zero (m ∷ ns)

-- `_image[e] = i; _inverse[i] = e;`
abbrev pub link : Literal → Literal → Permutation → Permutation
link e i p = record p { image = insert e i p.image; inverse = insert i e p.inverse }

unfoldable pub add_to_current_cycle : Literal → Permutation → Permutation
add_to_current_cycle x p =
    let cs = length p.cycles in
    let back = back_or_zero p.cycles_lim in
    let pushed = record p { cycles = p.cycles ++ x ∷ [] } in
    if ltb 0 (length pushed.cycles) && not (cs == back)
    then link (get_or pushed.cycles (cs - 1) 0) (get_or pushed.cycles cs 0) pushed
    else pushed

unfoldable pub number_of_cycles : Permutation → ℕ
number_of_cycles p = length p.cycles_lim

abbrev pub is_identity : Permutation → Bool
is_identity p = length p.cycles == 0

-- Where cycle `i` begins, and the literals from there to its end.
unfoldable pub cycle_begin : Permutation → ℕ → ℕ
cycle_begin p i = if i == 0 then 0 else get_or p.cycles_lim (i - 1) 0

unfoldable pub cycle : Permutation → ℕ → List Literal
unfolding cycle_begin
cycle p i = drop (cycle_begin p i) (take (get_or p.cycles_lim i 0) p.cycles)

unfoldable pub last_element_in_cycle : Permutation → ℕ → Literal
last_element_in_cycle p i = get_or p.cycles (get_or p.cycles_lim i 0 - 1) 0

-- `DCHECK_GE(sz - last, 2)` is left out: it is a hypothesis of the theorems on built permutations.
unfoldable pub close_current_cycle : Permutation → Permutation
unfolding last_element_in_cycle cycle_begin
close_current_cycle p =
    let sz = length p.cycles in
    let closed = record p { cycles_lim = p.cycles_lim ++ sz ∷ [] } in
    let num_cycle = length closed.cycles_lim - 1 in
    if back_or_zero p.cycles_lim == sz
    then p
    else link (last_element_in_cycle closed num_cycle)
        (get_or closed.cycles (cycle_begin closed num_cycle) 0) closed

abbrev pub support : Permutation → List Literal
support p = p.cycles

unfoldable pub image_of : Permutation → Literal → Option Literal
image_of p element = p.image element

unfoldable pub inverse_of : Permutation → Literal → Option Literal
inverse_of p element = p.inverse element

unfoldable pub is_trivial_image : Permutation → Literal → Bool
is_trivial_image p element = not (has_key p.image element)

unfoldable pub is_trivial_inverse : Permutation → Literal → Bool
is_trivial_inverse p element = not (has_key p.inverse element)

-- A cycle is given literal by literal, and closed.
unfoldable pub add_all : List Literal → Permutation → Permutation
add_all [] p = p
add_all (x ∷ xs) p = add_all xs (add_to_current_cycle x p)
