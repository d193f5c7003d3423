-- ===== src/Common/Words.antt =====
-- Words of 32 bits as native numbers: wrap by `%`, shift by `/` and `*`, complement, sign.
use Prim.Native.Nat.{ℕ, ◌+◌, ◌-◌, ◌*◌, ◌/◌, ◌%◌, ◌^◌}
use mathlib.Core.Bool.{Bool}
use chungusppc.Common.Tests.{leb, if◌then◌else◌}

infixl 75 ◌<<<◌ ◌>>>◌
abbrev pub ◌<<<◌ : ℕ → ℕ → ℕ
x <<< k = x * 2 ^ k

abbrev pub ◌>>>◌ : ℕ → ℕ → ℕ
x >>> k = x / 2 ^ k

abbrev pub u8 : ℕ → ℕ
u8 x = x % 2 ^ 8

abbrev pub u16 : ℕ → ℕ
u16 x = x % 2 ^ 16

abbrev pub u32 : ℕ → ℕ
u32 x = x % 2 ^ 32

abbrev pub u64 : ℕ → ℕ
u64 x = x % 2 ^ 64

-- `~x` of a `uint32_t`
abbrev pub not32 : ℕ → ℕ
not32 x = 2 ^ 32 - 1 - x

-- `-x` of a `uint32_t`
abbrev pub neg32 : ℕ → ℕ
neg32 x = (2 ^ 32 - x) % 2 ^ 32

-- a - b on `uint32_t`
abbrev pub sub32 : ℕ → ℕ → ℕ
sub32 a b = (a + 2 ^ 32 - b) % 2 ^ 32

-- int32_t(x) < 0
abbrev pub is_neg : ℕ → Bool
is_neg x = leb (2 ^ 31) x

-- int32_t(int16_t(x)) and int32_t(int8_t(x)), as `uint32_t`
abbrev pub sign_extend16 : ℕ → ℕ
sign_extend16 x = if leb (2 ^ 15) (x % 2 ^ 16) then x % 2 ^ 16 + (2 ^ 32 - 2 ^ 16) else x % 2 ^ 16

abbrev pub sign_extend8 : ℕ → ℕ
sign_extend8 x = if leb (2 ^ 7) (x % 2 ^ 8) then x % 2 ^ 8 + (2 ^ 32 - 2 ^ 8) else x % 2 ^ 8
