-- ===== src/Common/Words.antt =====
-- Casts to C's fixed widths, and shifts. A word is a number below 2 ^ w.
use Prim.Native.Nat.{ℕ, ◌-◌, ◌+◌, ◌*◌, ◌/◌, ◌%◌, ◌^◌, compare, Ordering}
use mathlib.Core.Bool.{Bool, true, false}

abbrev pub u8 : ℕ → ℕ
u8 n = n % 2 ^ 8

abbrev pub u16 : ℕ → ℕ
u16 n = n % 2 ^ 16

abbrev pub u32 : ℕ → ℕ
u32 n = n % 2 ^ 32

infixl 75 ◌<<<◌ ◌>>>◌
abbrev pub ◌<<<◌ : ℕ → ℕ → ℕ
x <<< k = x * 2 ^ k

abbrev pub ◌>>>◌ : ℕ → ℕ → ℕ
x >>> k = x / 2 ^ k

-- `a - b` of `uint32_t`, which wraps.
abbrev pub sub_u32 : ℕ → ℕ → ℕ
sub_u32 a b = (a + 2 ^ 32 - b % 2 ^ 32) % 2 ^ 32

-- `x & (1 << k)` as a test.
abbrev pub test_bit : ℕ → ℕ → Bool
test_bit x k = elim (compare (x / 2 ^ k % 2) 0) [ Ordering.eq ↦ false | _ ↦ true ]

abbrev pub u64 : ℕ → ℕ
u64 n = n % 2 ^ 64
