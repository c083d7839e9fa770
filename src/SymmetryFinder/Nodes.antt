-- ===== src/SymmetryFinder/Nodes.antt =====
-- What an automorphism of the graph is to the finders: a permutation of the nodes that maps the
-- nodes of literals to nodes of literals.
use sat_symmetry.Prelude.{
  ℕ, zero, suc, ◌+◌, ◌-◌, ◌*◌, ◌≤◌, ◌<◌, ◌≡◌, ◌≢◌, refl, arith, Bool, true, false, none, some, List,
  [], ◌∷◌, ◌==◌, ltb, if◌then◌else◌, length, get_or, set, get_or-set,
}
use sat_symmetry.Bits.Laws.{bit_xor-one}
use sat_symmetry.Literal.{Literal, from_signed}
use sat_symmetry.CnfGraph.{node2literal}

abbrev pub image_at : List ℕ → ℕ → ℕ
image_at aut node = get_or aut node 0

-- `back` is the inverse of the automorphism.
pub record IsAutomorphism (n num_vars : ℕ) (aut : List ℕ) (back : ℕ → ℕ) : Type 0 where
  pub size : length aut ≡ n
  pub room : 2 * num_vars ≤ n
  pub inside : (node : ℕ) → node < n → image_at aut node < n
  pub goes_back : (node : ℕ) → node < n → back (image_at aut node) ≡ node
  pub kind :
      (node : ℕ) → node < n → ltb (image_at aut node) (2 * num_vars) ≡ ltb node (2 * num_vars)

-- The literal of a node below `2 * num_vars`.
abbrev pub literal_of : ℕ → ℕ → Literal
literal_of num_vars node = if ltb node num_vars then node * 2 else (node - num_vars) * 2 + 1

pub node2literal-literal_of :
    (node num_vars : ℕ)
    → node2literal node num_vars
      ≡ (if ltb node (2 * num_vars) then some (literal_of num_vars node) else none)
unfolding node2literal from_signed
node2literal-literal_of node num_vars = ground (arith, bit_xor-one ((node - num_vars) * 2))

pub literal_of_injective :
    (num_vars a b : ℕ)
    → a < 2 * num_vars
    → b < 2 * num_vars
    → a ≢ b
    → literal_of num_vars a ≢ literal_of num_vars b
literal_of_injective num_vars a b la lb ne e = ground arith

abbrev pub is_seen : List Bool → ℕ → Bool
is_seen seen node = get_or seen node false

abbrev pub unseen : List Bool → ℕ
unseen [] = 0
unseen (true ∷ seen) = unseen seen
unseen (false ∷ seen) = suc (unseen seen)

pub is_seen-set :
    (seen : List Bool) (j x : ℕ)
    → j < length seen
    → is_seen (set seen j true) x ≡ (if j == x then true else is_seen seen x)
is_seen-set seen j x lt = get_or-set seen j x true false lt

pub unseen-set :
    (seen : List Bool) (j : ℕ)
    → j < length seen
    → is_seen seen j ≡ false
    → suc (unseen (set seen j true)) ≡ unseen seen
unseen-set [] j lt new = absurd (omega arith)
unseen-set (true ∷ seen) zero lt new = cc
unseen-set (false ∷ seen) zero lt new = refl
unseen-set (true ∷ seen) (suc j) lt new = unseen-set seen j (omega arith) new
unseen-set (false ∷ seen) (suc j) lt new = omega (arith, unseen-set seen j (omega arith) new)

pub is_seen-lt : (seen : List Bool) (x : ℕ) → is_seen seen x ≡ true → x < length seen
is_seen-lt [] x h = cc
is_seen-lt (b ∷ seen) zero h = omega arith
is_seen-lt (b ∷ seen) (suc x) h = omega (arith, is_seen-lt seen x h)

pub unseen-le : (seen : List Bool) → unseen seen ≤ length seen
unseen-le [] = omega arith
unseen-le (true ∷ seen) = omega (arith, unseen-le seen)
unseen-le (false ∷ seen) = omega (arith, unseen-le seen)
