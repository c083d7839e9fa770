-- ===== src/Prelude/Maps.antt =====
-- Hash maps and hash sets keyed by numbers. A map is a function: no code here walks over one.
-- A set is a list in the order of insertion.
use Prim.Native.Nat.{ℕ}
use mathlib.Core.Path.{◌≡◌, refl}
use mathlib.Core.Bool.{Bool, true, false, ◌||◌}
use mathlib.Core.List.{List, [], ◌∷◌, ◌++◌}
use mathlib.Core.Option.{Option, none, some}
use native.Mathlib.Omega.{arith}
use sat_symmetry.Prelude.Tests.{◌==◌, if◌then◌else◌}

-- `std::unordered_map` from numbers; `none` is a key that is not there.
abbrev pub Map {ℓ} : Type ℓ → Type ℓ
Map V = ℕ → Option V

module _ {ℓ} {V : Type ℓ} where
  abbrev pub empty_map : Map V
  empty_map k = none

  -- `m[k] = v`
  unfoldable pub insert : ℕ → V → Map V → Map V
  insert k v m j = if k == j then some v else m j

  -- `m.find(k) != m.end()`
  abbrev pub has_key : Map V → ℕ → Bool
  has_key m k = elim (m k) [ none ↦ false | some _ ↦ true ]

  pub insert_lem : (k j : ℕ) (v : V) (m : Map V) → insert k v m j ≡ (if k == j then some v else m j)
  unfolding insert
  insert_lem k j v m = refl

  pub has_key-insert :
      (k j : ℕ) (v : V) (m : Map V) → has_key (insert k v m) j ≡ (k == j || has_key m j)
  has_key-insert k j v m = ground (arith, insert_lem k j v m)

abbrev pub contains : List ℕ → ℕ → Bool
contains [] a = false
contains (x ∷ xs) a = x == a || contains xs a

-- `std::unordered_set::insert`
abbrev pub insert_new : ℕ → List ℕ → List ℕ
insert_new a xs = if contains xs a then xs else xs ++ a ∷ []

pub contains-append :
    (xs ys : List ℕ) (a : ℕ) → contains (xs ++ ys) a ≡ (contains xs a || contains ys a)
contains-append [] ys a = refl
contains-append (x ∷ xs) ys a = ground (arith, contains-append xs ys a)

pub contains-insert_new :
    (a b : ℕ) (xs : List ℕ) → contains (insert_new a xs) b ≡ (contains xs b || a == b)
contains-insert_new a b xs = ground (arith, contains-append xs (a ∷ []) b)
