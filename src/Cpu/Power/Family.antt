-- ===== src/Cpu/Power/Family.antt =====
-- The shifts of the POWER architecture (cpu/ppc/poweropcodes.cpp).
use chungusppc.Common.{
  ℕ, ◌+◌, ◌-◌, ◌*◌, ◌/◌, ◌%◌, ◌^◌, ◌≡◌, Bool, if◌then◌else◌, bit, truth, bit_and, ◌==◌, ltb, ◌&&◌,
  min, is_neg, to_nat,
}
use chungusppc.Cpu.State.{State, IsWord}
use chungusppc.Cpu.Decode.{reg_a, reg_b, reg_d}
use chungusppc.Cpu.Effect.{keep_bits, ca_bits}
use chungusppc.Cpu.Power.Mq.{
  amount, sle, sliq, slq, sre, sriq, srq, long_amount, sleq, slliq, sllq, sreq, srliq, srlq, sraiq,
  sraq, srea,
}
use chungusppc.Cpu.Power.Shifts.{IsRotl, IsRotr, IsRightShift, IsLeftShift, logical_shifts-IsEffect}
use chungusppc.Common.Int.{signed32, shr_ℤ}
use chungusppc.Cpu.Power.Merge.{shl_over, shr_over, IsMerge, mq_shifts-IsMerge}
use chungusppc.Cpu.Power.{maskg, maskir, rlmi, rrib}
use chungusppc.Cpu.Power.Masks.{IsBits, masks-IsBits}
use chungusppc.Cpu.Shift.Rotate.{in_mask, rotated_bit}
use chungusppc.Cpu.Power.Arithmetic.{arithmetic_shifts-IsEffect}

-- On a state of machine words, `sliq` and `sle` put rS times a power of two into rA, `sriq` and `sre`
-- the quotient, by an amount below 32, and `slq` and `srq` do so with rB modulo 64; MQ gets rS,
-- rotated by the amount modulo 32, CR0 describes rA where Rc is set, and nothing else changes.
-- On a state of machine words, `sleq` and `slliq` shift rS to the left and bring in the low bits of MQ,
-- `sreq` and `srliq` to the right and bring in its high bits; MQ gets rS, rotated. `sllq` and `srlq`
-- do so too but keep MQ, and with the bit 0x20 of rB they give MQ without the bits shifted over.
-- CR0 describes rA where Rc is set, and nothing else changes.
-- On a state of machine words, `sraiq`, `srea` and `sraq` put into rA the signed rS divided by a power
-- of two and rounded down, the amount being the field SH, rB modulo 32, and rB modulo 64 but at most
-- 31; XER[CA] tells that rS is negative and that bits were lost, MQ gets rS rotated to the right, CR0
-- describes rA where Rc is set, and nothing else changes.
-- On a state of machine words, `maskg` makes the mask from bit rS through bit rB (modulo 32, in
-- PowerPC's numbering, around the end of the word if rB is smaller), `maskir` inserts rS under the mask
-- rB into rA, `rlmi` inserts rS rotated by rB under the mask of the opcode, and `rrib` inserts the
-- first bit of rS at bit rB modulo 32; CR0 describes rA where Rc is set, and nothing else changes.
pub power_shifts_lem :
    (rec : Bool) (s : State) (op : ℕ)
    → IsWord s
    → (let x = s.gpr (reg_d op) in
        let b = s.gpr (reg_b op) in
        let n = amount s op in
        let keep = keep_bits s in
        IsLeftShift rec op (reg_b op) (x * 2 ^ reg_b op % 2 ^ 32) keep s (sliq rec s op)
        × IsLeftShift rec op n (x * 2 ^ n % 2 ^ 32) keep s (sle rec s op)
        × IsLeftShift rec op n (x * 2 ^ (b % 64) % 2 ^ 32) keep s (slq rec s op)
        × IsRightShift rec op (reg_b op) (x / 2 ^ reg_b op) keep s (sriq rec s op)
        × IsRightShift rec op n (x / 2 ^ n) keep s (sre rec s op)
        × IsRightShift rec op n (x / 2 ^ (b % 64)) keep s (srq rec s op))
      × (let x = s.gpr (reg_d op) in
          let m = s.spr 0 in
          let n = amount s op in
          let k = reg_b op in
          ((q : ℕ) × IsRotl x n q × IsMerge rec op (shl_over x m n) q s (sleq rec s op))
          × ((q : ℕ) × IsRotl x k q × IsMerge rec op (shl_over x m k) q s (slliq rec s op))
          × ((q : ℕ) × IsRotr x n q × IsMerge rec op (shr_over x m n) q s (sreq rec s op))
          × ((q : ℕ) × IsRotr x k q × IsMerge rec op (shr_over x m k) q s (srliq rec s op))
          × IsMerge rec op
              (λ i. if long_amount s op then (if ltb i n then 0 else bit m i) else shl_over x m n i)
              m
              s
              (sllq rec s op)
          × IsMerge rec op
              (λ i.
                if long_amount s op
                then (if ltb (i + n) 32 then bit m i else 0)
                else shr_over x m n i)
              m
              s
              (srlq rec s op))
      × (let x = s.gpr (reg_d op) in
          let b = s.gpr (reg_b op) in
          let n = amount s op in
          let lost = λ (k : ℕ). ca_bits (is_neg x && truth (x % 2 ^ k)) s in
          ((v : ℕ) × (signed32 v ≡ shr_ℤ (signed32 x) (reg_b op))
            × IsRightShift rec op (reg_b op) v (lost (reg_b op)) s (sraiq rec s op))
          × ((v : ℕ) × (signed32 v ≡ shr_ℤ (signed32 x) n)
              × IsRightShift rec op n v (lost n) s (srea rec s op))
          × ((v : ℕ) × (signed32 v ≡ shr_ℤ (signed32 x) (min (b % 64) 31))
              × IsRightShift rec op n v (lost (b % 64)) s (sraq rec s op)))
      × (let a = s.gpr (reg_a op) in
          let b = s.gpr (reg_b op) in
          let d = s.gpr (reg_d op) in
          IsBits rec op (λ i. to_nat (in_mask (d % 32) (b % 32) i)) s (maskg rec s op)
          × IsBits rec op (λ i. if bit b i == 1 then bit d i else bit a i) s (maskir rec s op)
          × IsBits (bit_and op 1 == 1) op (rotated_bit op d b (bit a)) s (rlmi s op)
          × IsBits rec op
              (λ i. if i == 31 - b % 32 then to_nat (is_neg d) else bit a i)
              s
              (rrib rec s op))
power_shifts_lem rec s op w = (
  logical_shifts-IsEffect rec s op w,
  mq_shifts-IsMerge rec s op w,
  arithmetic_shifts-IsEffect rec s op w,
  masks-IsBits rec s op w,
)
