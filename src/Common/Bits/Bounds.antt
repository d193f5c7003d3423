-- ===== src/Common/Bits/Bounds.antt =====
-- The bit operations stay within a width, and the bits below a width determine a number.
use Prim.Native.Nat.{ℕ, zero, suc, ◌/◌, ◌^◌, ◌<◌}
use Prim.Native.Nat.{bit_and, bit_or, bit_xor}
use mathlib.Core.Path.{◌≡◌, sym, ◌∙◌}
use native.Mathlib.Nat.{pow-suc}
use native.Mathlib.Omega.{arith}
use chungusppc.Common.Bits.Step.{
  bit_and_step, bit_or_step, bit_xor_step, bit_and-zero_left, bit_or-zero_left, bit_xor-zero_left,
  bit_and-zero,
}
use chungusppc.Common.Bits.{bit, bit-suc}

pub bit_and-lt : (k a b : ℕ) → a < 2 ^ k → bit_and a b < 2 ^ k
bit_and-lt zero zero b h = omega (arith, bit_and-zero_left b)
bit_and-lt zero (suc a) b h = absurd (omega arith)
bit_and-lt (suc k) a b h =
    let half : a / 2 < 2 ^ k = omega (arith, pow-suc 2 k) in
    omega (arith, bit_and_step a b, pow-suc 2 k, bit_and-lt k (a / 2) (b / 2) half)

pub bit_and-lt_right : (k a b : ℕ) → b < 2 ^ k → bit_and a b < 2 ^ k
bit_and-lt_right zero a zero h = omega (arith, bit_and-zero a)
bit_and-lt_right zero a (suc b) h = absurd (omega arith)
bit_and-lt_right (suc k) a b h =
    let half : b / 2 < 2 ^ k = omega (arith, pow-suc 2 k) in
    omega (arith, bit_and_step a b, pow-suc 2 k, bit_and-lt_right k (a / 2) (b / 2) half)

pub bit_or-lt : (k a b : ℕ) → a < 2 ^ k → b < 2 ^ k → bit_or a b < 2 ^ k
bit_or-lt zero zero b h g = omega (arith, bit_or-zero_left b)
bit_or-lt zero (suc a) b h g = absurd (omega arith)
bit_or-lt (suc k) a b h g = omega (
  arith,
  bit_or_step a b,
  pow-suc 2 k,
  bit_or-lt k (a / 2) (b / 2) (omega (arith, pow-suc 2 k)) (omega (arith, pow-suc 2 k)),
)

pub bit_xor-lt : (k a b : ℕ) → a < 2 ^ k → b < 2 ^ k → bit_xor a b < 2 ^ k
bit_xor-lt zero zero b h g = omega (arith, bit_xor-zero_left b)
bit_xor-lt zero (suc a) b h g = absurd (omega arith)
bit_xor-lt (suc k) a b h g = omega (
  arith,
  bit_xor_step a b,
  pow-suc 2 k,
  bit_xor-lt k (a / 2) (b / 2) (omega (arith, pow-suc 2 k)) (omega (arith, pow-suc 2 k)),
)

pub bit_ext : (k x y : ℕ) → x < 2 ^ k → y < 2 ^ k → ((i : ℕ) → i < k → bit x i ≡ bit y i) → x ≡ y
bit_ext zero x y hx hy e = omega arith
bit_ext (suc k) x y hx hy e =
    let halves : x / 2 ≡ y / 2 =
      bit_ext k (x / 2) (y / 2) (omega (arith, pow-suc 2 k)) (omega (arith, pow-suc 2 k))
        (λ i h. sym (bit-suc x i) ∙ e (suc i) (omega arith) ∙ bit-suc y i) in
    omega (arith, e 0 (omega arith), halves)
