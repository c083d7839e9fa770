-- ===== src/Literal/Tests.antt =====
-- Literals of small numbers, and the theorems applied to them.
use sat_symmetry.Prelude.{◌<◌, ◌^◌, ◌≡◌, refl, arith, some}
use sat_symmetry.Prelude.Int.{negsuc}
use sat_symmetry.Literal.{from_signed}
use sat_symmetry.Literal.Laws.{from_signed_bounds}

minus_two : from_signed (negsuc 1) ≡ some 3
unfolding from_signed
minus_two = refl

from_signed_bounds_example : 3 < 2 ^ 31
from_signed_bounds_example = from_signed_bounds (negsuc 1) 3 minus_two (omega arith)
