-- ===== src/Common/Bits/Step.antt =====
-- The recursion on the lowest binary digit that the native bit operations satisfy.
use Prim.Native.Nat.{min, max, digits, bitwise, bit_and-bitwise, bit_or-bitwise, bit_xor-bitwise}
use Prim.Native.Nat.{ℕ, zero, suc, ◌+◌, ◌*◌, ◌/◌, ◌%◌, ◌≤◌, bit_and, bit_or, bit_xor, differ}
use mathlib.Core.Path.{◌≡◌, refl}
use native.Mathlib.Nat.{le_refl}
use native.Mathlib.Omega.{arith}

module _ (tail : ℕ → ℕ) (digit : ℕ → ℕ → ℕ) where
  -- More fuel than the first operand asks for changes nothing.
  digits_more :
      (fuel spare x y : ℕ)
      → x ≤ fuel
      → x ≤ spare
      → digits tail digit fuel x y ≡ digits tail digit spare x y
  digits_more zero zero x y low high = refl
  digits_more zero (suc spare) zero y low high = refl
  digits_more zero (suc spare) (suc x) y low high = elim low [ ]
  digits_more (suc fuel) zero zero y low high = refl
  digits_more (suc fuel) zero (suc x) y low high = elim high [ ]
  digits_more (suc fuel) (suc spare) zero y low high = refl
  digits_more (suc fuel) (suc spare) (suc x) y low high =
      rw (digits_more fuel spare (suc x / 2) (y / 2) (omega arith) (omega arith))

  bitwise-suc :
      (x y : ℕ)
      → bitwise tail digit (suc x) y
        ≡ bitwise tail digit (suc x / 2) (y / 2) * 2 + digit (suc x % 2) (y % 2)
  bitwise-suc x y =
      omega (arith, digits_more x (suc x / 2) (suc x / 2) (y / 2) (omega arith) (le_refl _))

pub bit_and_step : (x y : ℕ) → bit_and x y ≡ bit_and (x / 2) (y / 2) * 2 + min (x % 2) (y % 2)
bit_and_step zero y = simp bit_and-bitwise (omega arith)
bit_and_step (suc x) y = simp bit_and-bitwise (bitwise-suc (λ rest. 0) min x y)

pub bit_or_step : (x y : ℕ) → bit_or x y ≡ bit_or (x / 2) (y / 2) * 2 + max (x % 2) (y % 2)
bit_or_step zero y = simp bit_or-bitwise (omega arith)
bit_or_step (suc x) y = simp bit_or-bitwise (bitwise-suc (λ rest. rest) max x y)

differ-eq-mod : (x y : ℕ) → x ≤ 1 → y ≤ 1 → differ x y ≡ (x + y) % 2
differ-eq-mod zero y low high = omega arith
differ-eq-mod (suc zero) zero low high = refl
differ-eq-mod (suc zero) (suc zero) low high = refl
differ-eq-mod (suc zero) (suc (suc y)) low high = absurd (omega arith)
differ-eq-mod (suc (suc x)) y low high = absurd (omega arith)

pub bit_xor_step : (x y : ℕ) → bit_xor x y ≡ bit_xor (x / 2) (y / 2) * 2 + (x % 2 + y % 2) % 2
bit_xor_step zero y = simp bit_xor-bitwise (omega arith)
bit_xor_step (suc x) y =
    simp bit_xor-bitwise
      (omega (arith, bitwise-suc (λ rest. rest) differ x y, differ-eq-mod (suc x % 2) (y % 2)))

pub bit_and-zero_left : (y : ℕ) → bit_and 0 y ≡ 0
bit_and-zero_left y = bit_and-bitwise 0 y

pub bit_or-zero_left : (y : ℕ) → bit_or 0 y ≡ y
bit_or-zero_left y = bit_or-bitwise 0 y

pub bit_xor-zero_left : (y : ℕ) → bit_xor 0 y ≡ y
bit_xor-zero_left y = bit_xor-bitwise 0 y

bit_and-zero_fuel : (fuel x : ℕ) → x ≤ fuel → bit_and x 0 ≡ 0
bit_and-zero_fuel fuel zero low = bit_and-zero_left 0
bit_and-zero_fuel zero (suc x) low = elim low [ ]
bit_and-zero_fuel (suc fuel) (suc x) low =
    omega (arith, bit_and_step (suc x) 0, bit_and-zero_fuel fuel (suc x / 2) (omega arith))

pub bit_and-zero : (x : ℕ) → bit_and x 0 ≡ 0
bit_and-zero x = bit_and-zero_fuel x x (le_refl x)

bit_or-zero_fuel : (fuel x : ℕ) → x ≤ fuel → bit_or x 0 ≡ x
bit_or-zero_fuel fuel zero low = bit_or-zero_left 0
bit_or-zero_fuel zero (suc x) low = elim low [ ]
bit_or-zero_fuel (suc fuel) (suc x) low =
    omega (arith, bit_or_step (suc x) 0, bit_or-zero_fuel fuel (suc x / 2) (omega arith))

pub bit_or-zero : (x : ℕ) → bit_or x 0 ≡ x
bit_or-zero x = bit_or-zero_fuel x x (le_refl x)
