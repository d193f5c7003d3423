-- ===== src/Common/Bits/Shifts.antt =====
-- Bits of shifted words, of powers of two and of masks.
use Prim.Native.Nat.{ℕ, zero, suc, ◌+◌, ◌-◌, ◌*◌, ◌/◌, ◌%◌, ◌^◌, ◌<◌}
use Prim.Native.Nat.{bit_and}
use mathlib.Core.Path.{◌≡◌, refl, ap, sym, ◌∙◌}
use native.Mathlib.Nat.{
  pow-suc, div-div-eq-div-mul, one-le-pow, mod-lt, mul-add-mod_self_left, mod-eq_of_lt, div-add-mod,
  zero-div,
}
use native.Mathlib.Omega.{arith}
use chungusppc.Common.Tests.{ltb, ◌==◌, if◌then◌else◌, to_nat}
use chungusppc.Common.Bits.{bit, bit-suc}
use chungusppc.Common.Bits.Step.{bit_and_step, bit_and-zero}

pub two-pow-pos : (k : ℕ) → 0 < 2 ^ k
two-pow-pos k = one-le-pow k 2 (omega arith)

pub pow-add : (a b : ℕ) → 2 ^ (a + b) ≡ 2 ^ a * 2 ^ b
pow-add zero b = let plain : 0 + b ≡ b = omega arith in rw plain (omega arith)
pow-add (suc a) b =
    let regroup : suc a + b ≡ suc (a + b) = omega arith in
    rw regroup (
      omega (
        arith,
        pow-suc 2 (a + b),
        ap (λ (t : ℕ). t * 2 ^ b) (pow-suc 2 a),
        ap (λ (t : ℕ). t * 2) (pow-add a b),
      ))

-- `x >> k`
pub bit-shr : (x k i : ℕ) → bit (x / 2 ^ k) i ≡ bit x (k + i)
bit-shr x k i =
    ap (λ t. t % 2) (div-div-eq-div-mul x (2 ^ k) (2 ^ i) ∙ ap (λ t. x / t) (sym (pow-add k i)))

times_one : (x : ℕ) → x * 2 ^ 0 ≡ x
times_one x = omega arith

minus_zero : (i : ℕ) → i - 0 ≡ i
minus_zero i = omega arith

suc_minus : (i k : ℕ) → suc i - suc k ≡ i - k
suc_minus i k = omega arith

mod_one : (x : ℕ) → x % 2 ^ 0 ≡ 0
mod_one x = omega arith

halve_shl : (x k : ℕ) → x * 2 ^ suc k / 2 ≡ x * 2 ^ k
halve_shl x k = omega (arith, ap (λ (t : ℕ). x * t) (pow-suc 2 k))

double : (x p : ℕ) → x * (p * 2) % 2 ≡ 0
double x p = omega arith

pub halve_pow : (k : ℕ) → 2 ^ suc k / 2 ≡ 2 ^ k
halve_pow k = omega (arith, pow-suc 2 k)

parity_mod : (k x : ℕ) → x % 2 ^ suc k % 2 ≡ x % 2
parity_mod k x =
    omega (arith, div-add-mod x (2 ^ suc k), ap (λ (t : ℕ). t * (x / 2 ^ suc k)) (pow-suc 2 k))

halve_mod : (k x : ℕ) → x % 2 ^ suc k / 2 ≡ x / 2 % 2 ^ k
halve_mod k x =
    let q = x / 2 / 2 ^ k in
    let r = x / 2 % 2 ^ k in
    let split : x ≡ 2 ^ suc k * q + (2 * r + x % 2) =
      omega
        (arith, div-add-mod (x / 2) (2 ^ k), ap (λ (t : ℕ). t * (x / 2 / 2 ^ k)) (pow-suc 2 k)) in
    let small : 2 * r + x % 2 < 2 ^ suc k =
      omega (arith, mod-lt (x / 2) (two-pow-pos k), pow-suc 2 k) in
    let rest : x % 2 ^ suc k ≡ 2 * r + x % 2 =
      ap (λ t. t % 2 ^ suc k) split
      ∙ mul-add-mod_self_left (2 ^ suc k) q (2 * r + x % 2)
      ∙ mod-eq_of_lt small in
    omega (arith, rest)

-- `x << k`, with no width
pub bit-shl : (x k i : ℕ) → bit (x * 2 ^ k) i ≡ (if ltb i k then 0 else bit x (i - k))
bit-shl x zero i =
    ground (arith, ap (λ (t : ℕ). bit t i) (times_one x), ap (λ (t : ℕ). bit x t) (minus_zero i))
bit-shl x (suc k) zero = ground (arith, pow-suc 2 k, double x (2 ^ k))
bit-shl x (suc k) (suc i) = ground (
  arith,
  bit-suc (x * 2 ^ suc k) i,
  ap (λ (t : ℕ). bit t i) (halve_shl x k),
  bit-shl x k i,
  ap (λ (t : ℕ). bit x t) (suc_minus i k),
)

-- Reduction to `k` bits.
pub bit-mod : (k x i : ℕ) → bit (x % 2 ^ k) i ≡ (if ltb i k then bit x i else 0)
bit-mod zero x i = ground (arith, ap (λ (t : ℕ). bit t i) (mod_one x), zero-div (2 ^ i))
bit-mod (suc k) x zero = ground (arith, parity_mod k x)
bit-mod (suc k) x (suc i) = ground (
  arith,
  bit-suc (x % 2 ^ suc k) i,
  bit-suc x i,
  ap (λ (t : ℕ). bit t i) (halve_mod k x),
  bit-mod k (x / 2) i,
)

pub bit-pow : (k i : ℕ) → bit (2 ^ k) i ≡ to_nat (i == k)
bit-pow zero zero = refl
bit-pow zero (suc i) = ground (arith, bit-suc 1 i, zero-div (2 ^ i))
bit-pow (suc k) zero = ground (arith, pow-suc 2 k)
bit-pow (suc k) (suc i) =
    ground (arith, bit-suc (2 ^ suc k) i, ap (λ (t : ℕ). bit t i) (halve_pow k), bit-pow k i)

-- The complement within `k` bits.
pub bit-complement : (k x i : ℕ) → x < 2 ^ k → i < k → bit (2 ^ k - 1 - x) i ≡ 1 - bit x i
bit-complement zero x i h g = absurd (omega arith)
bit-complement (suc k) x zero h g = omega (arith, pow-suc 2 k)
bit-complement (suc k) x (suc i) h g =
    let half : x / 2 < 2 ^ k = omega (arith, pow-suc 2 k) in
    let halves : (2 ^ suc k - 1 - x) / 2 ≡ 2 ^ k - 1 - x / 2 = omega (arith, pow-suc 2 k) in
    bit-suc _ i
    ∙ ap (λ t. bit t i) halves
    ∙ bit-complement k (x / 2) i half (omega arith)
    ∙ ap (λ t. 1 - t) (sym (bit-suc x i))

-- The `k` low bits.
pub bit-mask : (k i : ℕ) → bit (2 ^ k - 1) i ≡ to_nat (ltb i k)
bit-mask zero i = ground (arith, zero-div (2 ^ i))
bit-mask (suc k) zero = ground (arith, pow-suc 2 k, two-pow-pos k)
bit-mask (suc k) (suc i) =
    let halves : (2 ^ suc k - 1) / 2 ≡ 2 ^ k - 1 = omega (arith, pow-suc 2 k, two-pow-pos k) in
    ground (arith, bit-suc (2 ^ suc k - 1) i, ap (λ (t : ℕ). bit t i) halves, bit-mask k i)

-- Testing one bit.
pub bit_and-pow : (k x : ℕ) → bit_and x (2 ^ k) ≡ bit x k * 2 ^ k
bit_and-pow zero x = omega (arith, bit_and_step x 1, bit_and-zero (x / 2))
bit_and-pow (suc k) x =
    let halves : 2 ^ suc k / 2 ≡ 2 ^ k = halve_pow k in
    let rest : bit_and (x / 2) (2 ^ suc k / 2) ≡ bit x (suc k) * 2 ^ k =
      ap (bit_and (x / 2)) halves
      ∙ bit_and-pow k (x / 2)
      ∙ ap (λ t. t * 2 ^ k) (sym (bit-suc x k)) in
    omega (
      arith,
      bit_and_step x (2 ^ suc k),
      rest,
      pow-suc 2 k,
      ap (λ (t : ℕ). bit x (suc k) * t) (pow-suc 2 k),
    )
