-- ===== src/Base/Words.antt =====
-- Machine words as native numbers: masks, complements and the two's complement reading.
use Prim.Native.Nat.{ℕ, ◌-◌, ◌^◌}
pub use Prim.Native.Nat.{bit_and, bit_or}
use mathlib.Core.Bool.{Bool, not}
use flydigi_vader.Base.Tests.{◌==◌}

-- `(x & mask) != 0`
abbrev pub has : ℕ → ℕ → Bool
has x mask = not (bit_and x mask == 0)

-- `x & ~mask` for a word of `w` bits: the integer promotion of `~mask` has the same low bits.
abbrev pub clear : ℕ → ℕ → ℕ → ℕ
clear w x mask = bit_and x (2 ^ w - 1 - mask)
