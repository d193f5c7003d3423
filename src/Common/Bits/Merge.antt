-- ===== src/Common/Bits/Merge.antt =====
-- Words of 32 bits put together from two words under a mask.
use Prim.Native.Nat.{ℕ, ◌-◌, ◌%◌, ◌^◌, ◌<◌}
use Prim.Native.Nat.{bit_and, bit_or}
use mathlib.Core.Path.{◌≡◌}
use native.Mathlib.Nat.{mod-lt}
use native.Mathlib.Omega.{arith}
use chungusppc.Common.Tests.{◌==◌, if◌then◌else◌}
use chungusppc.Common.Words.{not32}
use chungusppc.Common.Bits.{bit, bit-bit_and, bit-bit_or}
use chungusppc.Common.Bits.Shifts.{bit-complement, bit-mask, bit-mod, two-pow-pos}
use chungusppc.Common.Bits.Bounds.{bit_and-lt_right, bit_or-lt, bit_ext}

-- `(x & ~m) | (y & m)` takes the bits under the mask from `y` and the others from `x`.
pub bit_merge :
    (x y m i : ℕ)
    → m < 2 ^ 32
    → i < 32
    → bit (bit_or (bit_and x (not32 m)) (bit_and y m)) i
      ≡ (if bit m i == 1 then bit y i else bit x i)
bit_merge x y m i w h = ground (
  arith,
  bit-bit_or i (bit_and x (not32 m)) (bit_and y m),
  bit-bit_and i x (not32 m),
  bit-bit_and i y m,
  bit-complement 32 m i w h,
)

-- `x & ~m` clears the bits under the mask.
pub bit_clear :
    (x m i : ℕ)
    → m < 2 ^ 32
    → i < 32
    → bit (bit_and x (not32 m)) i ≡ (if bit m i == 1 then 0 else bit x i)
bit_clear x m i w h = ground (arith, bit-bit_and i x (not32 m), bit-complement 32 m i w h)

pub merge-lt : (x y m : ℕ) → m < 2 ^ 32 → bit_or (bit_and x (not32 m)) (bit_and y m) < 2 ^ 32
merge-lt x y m w =
    bit_or-lt 32 (bit_and x (not32 m)) (bit_and y m) (bit_and-lt_right 32 x (not32 m) (omega arith))
      (bit_and-lt_right 32 y m w)

-- A mask of `k` low bits is the remainder by `2 ^ k`.
pub bit_and-mask : (k x : ℕ) → bit_and x (2 ^ k - 1) ≡ x % 2 ^ k
bit_and-mask k x =
    let pos = two-pow-pos k in
    bit_ext k _ _ (bit_and-lt_right k x (2 ^ k - 1) (omega arith)) (mod-lt x pos)
      λ i h. ground (arith, bit-bit_and i x (2 ^ k - 1), bit-mask k i, bit-mod k x i)
