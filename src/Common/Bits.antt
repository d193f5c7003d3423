-- ===== src/Common/Bits.antt =====
-- `&`, `|` and `^` of the native numbers, bit by bit, at every width.
pub mod Step
pub mod Bounds
pub mod Shifts
pub mod Merge
pub mod Halves
use Prim.Native.Nat.{min, max}
use Prim.Native.Nat.{ℕ, zero, suc, ◌+◌, ◌-◌, ◌*◌, ◌/◌, ◌%◌, ◌^◌, ◌≤◌, ◌<◌}
use Prim.Native.Nat.{bit_and, bit_or, bit_xor}
use mathlib.Core.Path.{◌≡◌, refl, ap, sym, ◌∙◌}
use mathlib.Core.Logic.{◌⊎◌, inl, inr}
use native.Mathlib.Nat.{pow-suc, div-div-eq-div-mul, one-le-pow, mul_comm}
use native.Mathlib.Omega.{arith}
use Step.{bit_and_step, bit_or_step, bit_xor_step}

-- Bit `i` of `x`, counted from the least significant one.
abbrev pub bit : ℕ → ℕ → ℕ
bit x i = x / 2 ^ i % 2

pub bit-suc : (x i : ℕ) → bit x (suc i) ≡ bit (x / 2) i
bit-suc x i =
    ap (λ t. t % 2)
      (ap (λ t. x / t) (pow-suc 2 i ∙ mul_comm (2 ^ i) 2) ∙ sym (div-div-eq-div-mul x 2 (2 ^ i)))

pub bit-lt : (x i : ℕ) → bit x i < 2
bit-lt x i = omega arith

-- Bit `i` of a conjunction, a disjunction and an exclusive disjunction.
pub bit-bit_and : (i a b : ℕ) → bit (bit_and a b) i ≡ min (bit a i) (bit b i)
bit-bit_and zero a b = omega (arith, bit_and_step a b)
bit-bit_and (suc i) a b = ground (
  arith,
  bit-suc (bit_and a b) i,
  bit-suc a i,
  bit-suc b i,
  bit_and_step a b,
  bit-bit_and i (a / 2) (b / 2),
  ap (λ (t : ℕ). bit t i) (halve_and a b),
)
  where
    halve_and : (a b : ℕ) → bit_and a b / 2 ≡ bit_and (a / 2) (b / 2)
    halve_and a b = omega (arith, bit_and_step a b)

pub bit-bit_or : (i a b : ℕ) → bit (bit_or a b) i ≡ max (bit a i) (bit b i)
bit-bit_or zero a b = omega (arith, bit_or_step a b)
bit-bit_or (suc i) a b = ground (
  arith,
  bit-suc (bit_or a b) i,
  bit-suc a i,
  bit-suc b i,
  bit-bit_or i (a / 2) (b / 2),
  ap (λ (t : ℕ). bit t i) (halve_or a b),
)
  where
    halve_or : (a b : ℕ) → bit_or a b / 2 ≡ bit_or (a / 2) (b / 2)
    halve_or a b = omega (arith, bit_or_step a b)

pub bit-bit_xor : (i a b : ℕ) → bit (bit_xor a b) i ≡ (bit a i + bit b i) % 2
bit-bit_xor zero a b = omega (arith, bit_xor_step a b)
bit-bit_xor (suc i) a b = ground (
  arith,
  bit-suc (bit_xor a b) i,
  bit-suc a i,
  bit-suc b i,
  bit-bit_xor i (a / 2) (b / 2),
  ap (λ (t : ℕ). bit t i) (halve_xor a b),
)
  where
    halve_xor : (a b : ℕ) → bit_xor a b / 2 ≡ bit_xor (a / 2) (b / 2)
    halve_xor a b = omega (arith, bit_xor_step a b)
