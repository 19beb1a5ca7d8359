-- ===== src/Base/Words.antt =====
-- Casts of C to the fixed widths, and the predicate that a list holds octets.
use Prim.Native.Nat.{ℕ, ◌-◌, ◌*◌, ◌/◌, ◌%◌, ◌^◌, ◌<◌}
use mathlib.Core.List.{List}
use libsfp.Base.Lists.{All}

abbrev pub uint8 : ℕ → ℕ
uint8 n = n % 2 ^ 8

abbrev pub uint16 : ℕ → ℕ
uint16 n = n % 2 ^ 16

-- `x << k` and `x >> k` on values that do not leave `int`, and `x & (2 ^ k - 1)`.
abbrev pub shl : ℕ → ℕ → ℕ
shl x k = x * 2 ^ k

abbrev pub shr : ℕ → ℕ → ℕ
shr x k = x / 2 ^ k

abbrev pub low_bits : ℕ → ℕ → ℕ
low_bits x k = x % 2 ^ k

-- `~x` cast to `uint16_t`, for an `x` of that type.
abbrev pub complement16 : ℕ → ℕ
complement16 x = 2 ^ 16 - 1 - x

abbrev pub IsOctet : ℕ → Type 0
IsOctet x = x < 256

abbrev pub AreOctets : List ℕ → Type 0
AreOctets xs = All IsOctet xs
