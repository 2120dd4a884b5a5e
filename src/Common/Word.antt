-- ===== src/Common/Word.antt =====
-- Casts to the fixed widths, and the shifts of C on values that are never negative.
use mathlib.Core.Bool.{Bool, true, false, not}
use open_lib.Common.Tests.{◌==◌}
use Prim.Native.Nat.{ℕ, ◌-◌, ◌*◌, ◌/◌, ◌%◌, ◌^◌}

abbrev pub u8 : ℕ → ℕ
u8 n = n % 2 ^ 8

abbrev pub u16 : ℕ → ℕ
u16 n = n % 2 ^ 16

abbrev pub u32 : ℕ → ℕ
u32 n = n % 2 ^ 32

abbrev pub u64 : ℕ → ℕ
u64 n = n % 2 ^ 64

infixl 75 ◌<<<◌ ◌>>>◌
abbrev pub ◌<<<◌ : ℕ → ℕ → ℕ
x <<< k = x * 2 ^ k

abbrev pub ◌>>>◌ : ℕ → ℕ → ℕ
x >>> k = x / 2 ^ k

-- `~x` on a `uint32_t`.
abbrev pub not32 : ℕ → ℕ
not32 x = 2 ^ 32 - 1 - x

-- `(bool)x`, and a `bool` as a number.
abbrev pub to_bool : ℕ → Bool
to_bool x = not (x == 0)

abbrev pub bit_num : Bool → ℕ
bit_num true = 1
bit_num false = 0
