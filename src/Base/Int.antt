-- ===== src/Base/Int.antt =====
-- Signed integers over the native numbers.
use Prim.Native.Nat.{ℕ, ◌-◌, ◌^◌, ◌<◌}
use mathlib.Core.Path.{◌≡◌}
use native.Mathlib.Omega.{arith}
use kafka_replication.Base.Tests.{ltb, if◌then◌else◌}

-- `negsuc n` is -(n + 1).
pub data ℤ : Type 0 where
  pos : ℕ → ℤ
  negsuc : ℕ → ℤ

-- The int32_t that a 32-bit pattern stands for.
abbrev pub to_int32 : ℕ → ℤ
to_int32 w = if ltb w (2 ^ 31) then pos w else negsuc (2 ^ 32 - w - 1)

abbrev pub from_int32 : ℤ → ℕ
from_int32 (pos n) = n
from_int32 (negsuc n) = 2 ^ 32 - n - 1

abbrev pub IsInt32 : ℤ → Type 0
IsInt32 (pos n) = n < 2 ^ 31
IsInt32 (negsuc n) = n < 2 ^ 31

pub from_int32-lt : (z : ℤ) → IsInt32 z → from_int32 z < 2 ^ 32
from_int32-lt (pos n) h = omega arith
from_int32-lt (negsuc n) h = omega arith

pub to_int32-from_int32 : (z : ℤ) → IsInt32 z → to_int32 (from_int32 z) ≡ z
to_int32-from_int32 (pos n) h = ground arith
to_int32-from_int32 (negsuc n) h = ground arith
