-- ===== src/Cpu/Tests/Power.antt =====
-- The POWER instructions, the divisions and the immediate forms on the concrete state.
use chungusppc.Cpu.Power.Family.{power_shifts_lem}
use chungusppc.Cpu.Power.Numbers.{power_numbers_lem}
use chungusppc.Common.{
  ℕ, ◌+◌, ◌*◌, ◌/◌, ◌%◌, ◌^◌, ◌≡◌, refl, true, false, ◌==◌, if◌then◌else◌, bit, to_nat, min, max,
  arith,
}
use chungusppc.Common.Int.{pos, signed32, shr_ℤ, wrap_ℤ, ◌*ℤ◌, ◌-ℤ◌}
use chungusppc.Cpu.State.{IsWord, State}
use chungusppc.Cpu.Write.{IsWrite}
use chungusppc.Cpu.Effect.{IsEffect, keep_bits, ca_bits, ov_bits}
use chungusppc.Cpu.Arith.{addi}
use chungusppc.Cpu.Arith.Spec.{overflows}
use chungusppc.Cpu.Multiply.{mulli, mullw, divw, divwu}
use chungusppc.Cpu.Multiply.Laws.{double_word}
use chungusppc.Cpu.Multiply.Division.{IsOvWrite, divw_lem, divw_special, mullw-divwu-IsOvWrite}
use chungusppc.Cpu.Logic.{andirc, ori, xori, exts}
use chungusppc.Cpu.Logic.Immediate.{immediates_lem, field_bit, signed_part}
use chungusppc.Cpu.Shift.Rotate.{in_mask, rotated_bit}
use chungusppc.Cpu.Power.{
  clcs, clcs_value, abs, nabs, doz, dozi, mul, divs, maskg, maskir, rlmi, rrib,
}
use chungusppc.Cpu.Power.Mq.{
  sle, sleq, sliq, slliq, sllq, slq, sraiq, sraq, sre, srea, sreq, sriq, srliq, srlq, srq,
}
use chungusppc.Cpu.Power.Shifts.{IsRotl, IsRotr, IsLeftShift, IsRightShift}
use chungusppc.Cpu.Power.Merge.{IsMerge, shl_over, shr_over}
use chungusppc.Cpu.Power.Masks.{IsBits}
use chungusppc.Cpu.Power.Overflow.{IsNumber, DivsGives, abs_ℤ, monus_ℤ}
use chungusppc.Cpu.Tests.{sample, sample-IsWord, op_add}

immediates_lem_example :
    (((v : ℕ) × IsWrite true 4 v sample (andirc true sample op_add)
        × ((i : ℕ) → bit v i ≡ min (bit 0x8000_00f0 i) (field_bit true op_add i)))
      × ((v : ℕ) × IsWrite false 4 v sample (ori true sample op_add)
          × ((i : ℕ) → bit v i ≡ max (bit 0x8000_00f0 i) (field_bit true op_add i)))
      × ((v : ℕ) × IsWrite false 4 v sample (xori true sample op_add)
          × ((i : ℕ) → bit v i ≡ (bit 0x8000_00f0 i + field_bit true op_add i) % 2)))
    × (IsWrite false 3 0xae14_ffff sample (addi true sample op_add)
        × IsWrite false 3 (0x7fff_ffff * 0x2e15 % 2 ^ 32) sample (mulli sample op_add))
    × ((v : ℕ) × IsWrite true 4 v sample (exts true true sample op_add)
        × (signed32 v ≡ signed_part 8 0x8000_00f0))
immediates_lem_example = immediates_lem true true true sample op_add sample-IsWord

-- The same state with 0 in r5.
abbrev zero_divisor : State
zero_divisor = record sample { gpr = λ r. if r == 5 then 0 else 7 }

mullw-divwu-IsOvWrite_example :
    (IsOvWrite true true 3
      (wrap_ℤ 32 (signed32 7 *ℤ signed32 0))
      (overflows (signed32 7 *ℤ signed32 0))
      zero_divisor
      (mullw true true zero_divisor op_add))
    × (IsOvWrite true true 3 (7 / 0) true zero_divisor (divwu true true zero_divisor op_add))
mullw-divwu-IsOvWrite_example = mullw-divwu-IsOvWrite true true zero_divisor op_add

-- The line of a data cache on a processor that is no 601.
clcs_line : (clcs sample 0x7c6d_0426).gpr 3 ≡ 0x20
unfolding clcs clcs_value
clcs_line = refl

power_shifts_lem_example :
    (IsLeftShift true op_add 5 0x1e00 (keep_bits sample) sample (sliq true sample op_add)
      × IsLeftShift true op_add 1 0x1e0 (keep_bits sample) sample (sle true sample op_add)
      × IsLeftShift true op_add 1 0x1e0 (keep_bits sample) sample (slq true sample op_add)
      × IsRightShift true op_add 5
          (0x8000_00f0 / 2 ^ 5)
          (keep_bits sample)
          sample
          (sriq true sample op_add)
      × IsRightShift true op_add 1
          (0x8000_00f0 / 2 ^ 1)
          (keep_bits sample)
          sample
          (sre true sample op_add)
      × IsRightShift true op_add 1
          (0x8000_00f0 / 2 ^ 1)
          (keep_bits sample)
          sample
          (srq true sample op_add))
    × (((q : ℕ) × IsRotl 0x8000_00f0 1 q
          × IsMerge true op_add (shl_over 0x8000_00f0 0x2003 1) q sample (sleq true sample op_add))
        × ((q : ℕ) × IsRotl 0x8000_00f0 5 q
            × IsMerge true op_add
                (shl_over 0x8000_00f0 0x2003 5)
                q
                sample
                (slliq true sample op_add))
        × ((q : ℕ) × IsRotr 0x8000_00f0 1 q
            × IsMerge true op_add
                (shr_over 0x8000_00f0 0x2003 1)
                q
                sample
                (sreq true sample op_add))
        × ((q : ℕ) × IsRotr 0x8000_00f0 5 q
            × IsMerge true op_add
                (shr_over 0x8000_00f0 0x2003 5)
                q
                sample
                (srliq true sample op_add))
        × IsMerge true op_add
            (shl_over 0x8000_00f0 0x2003 1)
            0x2003
            sample
            (sllq true sample op_add)
        × IsMerge true op_add
            (shr_over 0x8000_00f0 0x2003 1)
            0x2003
            sample
            (srlq true sample op_add))
    × (((v : ℕ) × (signed32 v ≡ shr_ℤ (signed32 0x8000_00f0) 5)
          × IsRightShift true op_add 5 v (ca_bits true sample) sample (sraiq true sample op_add))
        × ((v : ℕ) × (signed32 v ≡ shr_ℤ (signed32 0x8000_00f0) 1)
            × IsRightShift true op_add 1 v (ca_bits false sample) sample (srea true sample op_add))
        × ((v : ℕ) × (signed32 v ≡ shr_ℤ (signed32 0x8000_00f0) 1)
            × IsRightShift true op_add 1 v (ca_bits false sample) sample (sraq true sample op_add)))
    × (IsBits true op_add (λ i. to_nat (in_mask 16 1 i)) sample (maskg true sample op_add)
        × IsBits true op_add
            (λ i. if bit 1 i == 1 then bit 0x8000_00f0 i else bit 0x7fff_ffff i)
            sample
            (maskir true sample op_add)
        × IsBits true op_add
            (rotated_bit op_add 0x8000_00f0 1 (bit 0x7fff_ffff))
            sample
            (rlmi sample op_add)
        × IsBits true op_add
            (λ i. if i == 30 then 1 else bit 0x7fff_ffff i)
            sample
            (rrib true sample op_add))
power_shifts_lem_example = power_shifts_lem true sample op_add sample-IsWord

zero_divisor-IsWord : IsWord zero_divisor
zero_divisor-IsWord = record {
  gpr_lt = λ r. ground arith;
  spr_lt = sample-IsWord.spr_lt;
  sr_lt = sample-IsWord.sr_lt;
  cr_lt = sample-IsWord.cr_lt;
  msr_lt = sample-IsWord.msr_lt;
  pc_lt = sample-IsWord.pc_lt;
  next_pc_lt = sample-IsWord.next_pc_lt;
}

power_numbers_lem_example :
    (IsNumber true true 3 (abs_ℤ (signed32 7)) zero_divisor (abs true true zero_divisor op_add)
      × IsNumber true true 3
          (pos 0 -ℤ abs_ℤ (signed32 7))
          zero_divisor
          (nabs true true zero_divisor op_add)
      × IsNumber true true 3
          (monus_ℤ (signed32 0) (signed32 7))
          zero_divisor
          (doz true true zero_divisor op_add)
      × IsWrite false 3
          (wrap_ℤ 32 (monus_ℤ (signed32 0x2e15) (signed32 7)))
          zero_divisor
          (dozi zero_divisor op_add))
    × (((hi lo : ℕ) × (double_word hi lo ≡ signed32 7 *ℤ signed32 0)
          × IsEffect true 3 hi lo lo
              (ov_bits true (overflows (signed32 7 *ℤ signed32 0)) zero_divisor)
              zero_divisor
              (mul true true zero_divisor op_add))
        × ((q r : ℕ) × DivsGives 7 0 q r
            × IsEffect true 3 q r r
                (ov_bits true true zero_divisor)
                zero_divisor
                (divs true true zero_divisor op_add)))
power_numbers_lem_example = power_numbers_lem true true zero_divisor op_add zero_divisor-IsWord

divw_lem_example :
    (v : ℕ) × (v ≡ divw_special true true zero_divisor op_add)
    × IsOvWrite true true 3 v true zero_divisor (divw true true zero_divisor op_add)
divw_lem_example = divw_lem true true zero_divisor op_add zero_divisor-IsWord
