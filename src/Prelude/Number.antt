-- ===== src/Prelude/Number.antt =====
-- `atoi` and `atoll`, with exact integers: C leaves open what an overflow gives.
pub mod Decimal
use Prim.Native.Nat.{ℕ, ◌+◌, ◌-◌, ◌*◌}
use mathlib.Core.Bool.{Bool, ◌&&◌, ◌||◌}
use mathlib.Core.List.{[], ◌∷◌}
use orca_cde.Prelude.Int.{ℤ, pos, neg}
use orca_cde.Prelude.Tests.{leb, ◌==◌, if◌then◌else◌}
use orca_cde.Prelude.Text.{Bytes}

abbrev is_space : ℕ → Bool
is_space c = c == b' ' || leb 9 c && leb c 13

abbrev is_digit : ℕ → Bool
is_digit c = leb b'0' c && leb c b'9'

skip_space : Bytes → Bytes
skip_space [] = []
skip_space (c ∷ s) = if is_space c then skip_space s else c ∷ s

read_digits : ℕ → Bytes → ℕ
read_digits acc [] = acc
read_digits acc (c ∷ s) = if is_digit c then read_digits (acc * 10 + (c - b'0')) s else acc

read_signed : Bytes → ℤ
read_signed [] = pos 0
read_signed (c ∷ s) =
    if c == b'-'
    then neg (read_digits 0 s)
    else if c == b'+'
    then pos (read_digits 0 s)
    else pos (read_digits 0 (c ∷ s))

unfoldable pub atoi : Bytes → ℤ
unfolding skip_space read_digits read_signed
atoi s = read_signed (skip_space s)
