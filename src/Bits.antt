-- ===== src/Bits.antt =====
-- The bits of a word, and what `&`, `|`, `^`, `<<` and `~` do to them, at every width.
mod Step
pub mod Laws
use sat_symmetry.Prelude.{ℕ, zero, suc, ◌/◌, ◌%◌}

-- Bit `k` of `a`, as 0 or 1.
abbrev pub bit : ℕ → ℕ → ℕ
bit a zero = a % 2
bit a (suc k) = bit (a / 2) k
