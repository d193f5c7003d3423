-- ===== src/Cpu/Shift/Amount.antt =====
-- The shifts by a register or a field: shift amounts up to 63, and the carry of the arithmetic ones.
use chungusppc.Common.{
  ℕ, ◌+◌, ◌-◌, ◌*◌, ◌/◌, ◌%◌, ◌^◌, ◌<◌, ◌≡◌, ap, arith, Bool, if◌then◌else◌, truth,
}
use chungusppc.Common.{bit_and, u32, inl, inr, Bool-cases}
use chungusppc.Common.Int.{signed32, shr_ℤ}
use mathlib.Core.Path.{subst}
use native.Mathlib.Nat.{div-eq_of_lt, div-le_self}
use chungusppc.Common.Bits.Shifts.{bit_and-pow, pow-add, two-pow-pos}
use chungusppc.Common.Bits.Merge.{bit_and-mask}
use chungusppc.Cpu.State.{State, IsWord}
use chungusppc.Cpu.Decode.{reg_a, reg_b, reg_d}
use chungusppc.Cpu.Write.{IsWrite, IsWrite-end}
use chungusppc.Cpu.Shift.{shift, sar32}

-- A shift to the left by `32 + k` leaves no bit.
shl_all : (x k : ℕ) → x * 2 ^ (32 + k) % 2 ^ 32 ≡ 0
shl_all x k =
    let regroup : x * 2 ^ (32 + k) ≡ x * 2 ^ k * 2 ^ 32 =
      omega (arith, ap (λ (t : ℕ). x * t) (pow-add 32 k)) in
    omega (arith, regroup)

shr_all : (x k : ℕ) → x < 2 ^ 32 → x / 2 ^ (32 + k) ≡ 0
shr_all x k h = div-eq_of_lt (omega (arith, pow-add 32 k, two-pow-pos k))

pub shifted-eq :
    (is_left : Bool) (x b : ℕ)
    → x < 2 ^ 32
    → (if truth (bit_and b 0x20)
        then 0
        else if is_left
        then u32 (x * 2 ^ bit_and b 0x1f)
        else x / 2 ^ bit_and b 0x1f)
      ≡ (if is_left then x * 2 ^ (b % 64) % 2 ^ 32 else x / 2 ^ (b % 64))
shifted-eq is_left x b h = rw (bit_and-mask 5 b) (elim (Bool-cases (truth (bit_and b 0x20))) [
  | inl t ↦
      let high : b % 64 ≡ 32 + b % 32 = ground (arith, bit_and-pow 5 b) in
      rw (t, high) (ground (arith, shl_all x (b % 32), shr_all x (b % 32) h))
  | inr t ↦ let low : b % 64 ≡ b % 32 = ground (arith, bit_and-pow 5 b) in rw (t, low)
])

-- On a state of machine words, `slw` and `srw` shift rS by rB modulo 64, so that an amount of 32 or more
-- gives 0; CR0 describes the result where Rc is set, and nothing else changes.
pub shift-IsWrite :
    (is_left rec : Bool) (s : State) (op : ℕ)
    → IsWord s
    → let x = s.gpr (reg_d op) in
      let n = s.gpr (reg_b op) % 64 in
      IsWrite rec
        (reg_a op)
        (if is_left then x * 2 ^ n % 2 ^ 32 else x / 2 ^ n)
        s
        (shift is_left rec s op)
unfolding shift
shift-IsWrite is_left rec s op w =
    subst (λ v. IsWrite rec (reg_a op) v s (shift is_left rec s op)) same
      (IsWrite-end rec (reg_a op) shifted s)
  where
    x : ℕ
    x = s.gpr (reg_d op)

    b : ℕ
    b = s.gpr (reg_b op)

    shifted : ℕ
    shifted =
        if truth (bit_and b 0x20)
        then 0
        else if is_left
        then u32 (x * 2 ^ bit_and b 0x1f)
        else x / 2 ^ bit_and b 0x1f

    same : shifted ≡ (if is_left then x * 2 ^ (b % 64) % 2 ^ 32 else x / 2 ^ (b % 64))
    same = shifted-eq is_left x b (w.gpr_lt (reg_d op))

-- A word that is read as a signed number and shifted stays one.
pub signed32-sar32 : (x n : ℕ) → x < 2 ^ 32 → signed32 (sar32 x n) ≡ shr_ℤ (signed32 x) n
signed32-sar32 x n h = ground (arith, div-le_self x (2 ^ n), div-le_self (2 ^ 32 - x - 1) (2 ^ n))
