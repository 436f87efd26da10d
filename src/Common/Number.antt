-- ===== src/Common/Number.antt =====
-- The host's numbers (IEEE doubles) as the guards of the code tell them apart: integers of any
-- size, and every value that is no integer (fractions, infinities, NaN) as one.
use Prim.Native.Nat.{ℕ, suc, ◌-◌, ◌^◌}
use mathlib.Core.Bool.{Bool, false, ◌&&◌}
use locus_pi.Common.Tests.{leb}

-- `negsuc n` is -(n + 1).
pub data Number : Type 0 where
  pos : ℕ → Number
  negsuc : ℕ → Number
  inexact : Number

-- `Number.MAX_SAFE_INTEGER`
abbrev pub max_safe_integer : ℕ
max_safe_integer = 2 ^ 53 - 1

-- `Number.isSafeInteger`
abbrev pub is_safe_integer : Number → Bool
is_safe_integer (pos n) = leb n max_safe_integer
is_safe_integer (negsuc n) = leb (suc n) max_safe_integer
is_safe_integer inexact = false

-- `!(value < bound)` for a safe integer; the guards test `isSafeInteger` first.
abbrev pub at_least : ℕ → Number → Bool
at_least bound (pos n) = leb bound n
at_least bound (negsuc n) = false
at_least bound inexact = false

-- `Number.isSafeInteger(value) && value >= 1`
abbrev pub is_positive_safe : Number → Bool
is_positive_safe v = is_safe_integer v && at_least 1 v
