-- ===== src/Literal.antt =====
-- include/cosy/Literal.h: literals and variables.
-- A `Literal` is its field `_index`, and a `BooleanVariable` its value; both are non-negative.
-- The special indexes of the file (-1, -2, -3) are values of `LiteralIndex` that belong to no
-- literal. `int` arithmetic is unbounded here: see `from_signed_bounds` in `Laws`.
pub mod Laws
pub mod Tests
use sat_symmetry.Prelude.{
  ℕ, zero, suc, ◌+◌, ◌*◌, ◌/◌, Bool, true, false, not, Option, none, some, bit_and, bit_xor, ◌==◌,
  if◌then◌else◌,
}
use sat_symmetry.Prelude.Int.{ℤ, pos, negsuc}

abbrev pub Literal : Type 0
Literal = ℕ

abbrev pub BooleanVariable : Type 0
BooleanVariable = ℕ

abbrev pub LiteralIndex : Type 0
LiteralIndex = ℤ

abbrev pub no_literal_index : LiteralIndex
no_literal_index = negsuc 0

abbrev pub true_literal_index : LiteralIndex
true_literal_index = negsuc 1

abbrev pub false_literal_index : LiteralIndex
false_literal_index = negsuc 2

-- `Literal(int signed_value)`; `none` is the failed CHECK on 0.
unfoldable pub from_signed : ℤ → Option Literal
from_signed (pos zero) = none
from_signed (pos (suc n)) = some (n * 2)
from_signed (negsuc n) = some (bit_xor (n * 2) 1)

-- `Literal(BooleanVariable variable, bool is_positive)`
unfoldable pub literal : BooleanVariable → Bool → Literal
literal v is_positive = if is_positive then v * 2 else bit_xor (v * 2) 1

unfoldable pub variable : Literal → BooleanVariable
variable l = l / 2

unfoldable pub is_positive : Literal → Bool
is_positive l = bit_and l 1 == 0

unfoldable pub is_negative : Literal → Bool
is_negative l = not (bit_and l 1 == 0)

-- `negatedIndex`, and the literal of that index.
unfoldable pub negated : Literal → Literal
negated l = bit_xor l 1

unfoldable pub signed_value : Literal → ℤ
signed_value l = if bit_and l 1 == 0 then pos (l / 2 + 1) else negsuc (l / 2)
