-- ===== src/Base/Int.antt =====
-- The C `int` values that cross an interface: status codes and GPIO readings. They are compared
-- and cast, never added, so the type has its constructors and the cast to `u8`.
use Prim.Native.Nat.{ℕ, ◌-◌, ◌%◌, ◌<◌}
use mathlib.Core.Bool.{Bool, true, false}
use native.Mathlib.Omega.{arith}

-- `negsuc n` is -(n + 1).
pub data ℤ : Type 0 where
  pos : ℕ → ℤ
  negsuc : ℕ → ℤ

-- `v < 0`
abbrev pub is_negative : ℤ → Bool
is_negative (pos n) = false
is_negative (negsuc n) = true

-- `(u8)v`, in two's complement
abbrev pub to_u8 : ℤ → ℕ
to_u8 (pos n) = n % 256
to_u8 (negsuc n) = 255 - n % 256

pub to_u8-lt : (v : ℤ) → to_u8 v < 256
to_u8-lt (pos n) = omega arith
to_u8-lt (negsuc n) = omega arith
