-- ===== src/Cpu/Tests.antt =====
-- A processor state with concrete registers, and what the instructions do on it.
mod Power
mod Memory
use chungusppc.Cpu.Shift.Family.{shifts_lem}
use chungusppc.Cpu.Condition.Family.{fields_lem}
use chungusppc.Common.{
  ℕ, ◌^◌, ◌%◌, ◌<◌, ◌≡◌, ◌≢◌, ◌*◌, ◌+◌, refl, arith, true, false, ◌==◌, if◌then◌else◌, bit, to_nat,
}
use chungusppc.Common.Int.{signed32, shr_ℤ, ◌*ℤ◌}
use chungusppc.Cpu.State.{State, IsWord}
use chungusppc.Cpu.Flags.{changecrf0, setsoov, carry}
use chungusppc.Cpu.Flags.Bits.{xer_bit}
use chungusppc.Cpu.Write.{IsWrite}
use chungusppc.Cpu.Arith.{add, adde, addme, addze, subf, subfe, subfme, subfze, neg, addic, subfic}
use chungusppc.Cpu.Arith.Spec.{IsSum}
use chungusppc.Cpu.Arith.Family.{adds-IsSum, subtracts-IsSum}
use chungusppc.Cpu.Logic.{LogicalFun, logical, cntlzw}
use chungusppc.Cpu.Logic.Laws.{register_logic_lem, truth_table, IsLeading}
use chungusppc.Cpu.Multiply.{mulhw, mulhwu, mullw}
use chungusppc.Cpu.Multiply.Laws.{products-IsWrite, double_word}
use chungusppc.Cpu.Shift.{shift, sraw, srawi, rlwinm, rlwnm, rlwimi}
use chungusppc.Cpu.Shift.Amount.{shift-IsWrite}
use chungusppc.Cpu.Shift.Arithmetic.{IsCarryWrite, sra-IsCarryWrite}
use chungusppc.Cpu.Shift.Rotate.{rotates-IsWrite, rotated_bit}
use chungusppc.Cpu.Condition.{cmp, cmpi, cmpl, cmpli, mcrf, mtcrf, mcrxr}
use chungusppc.Cpu.Condition.Fields.{
  IsFieldWrite, cmp_field, compares-IsFieldWrite, field_moves_lem,
}
use chungusppc.Cpu.Condition.Single.{IsBitWrite, cr_logical, cr_logical-IsBitWrite}
use chungusppc.Cpu.Branch.{bc, bclr, br_bd}
use chungusppc.Cpu.Branch.Laws.{IsBranch, conditional-IsBranch}

-- r4 is the greatest signed word and r5 is one; CA and SO of XER are set.
abbrev pub sample : State
sample = record {
  pc = 0x1000;
  gpr = λ r. if r == 4 then 0x7fff_ffff else if r == 5 then 1 else 0x8000_00f0;
  cr = 0x2480_0001;
  spr = λ r. if r == 1 then 0xa000_0000 else if r == 9 then 2 else 0x2003;
  msr = 0x3030;
  sr = λ _. 0;
  reserve = false;
  next_pc = 0;
  exec_flags = 0;
  is_601 = false;
  is_603 = false;
  include_601 = false;
}

pub sample-IsWord : IsWord sample
sample-IsWord = record {
  gpr_lt = λ r. ground arith;
  spr_lt = λ r. ground arith;
  sr_lt = λ r. omega arith;
  cr_lt = omega arith;
  msr_lt = omega arith;
  pc_lt = omega arith;
  next_pc_lt = omega arith;
}

-- `add. r3, r4, r5` with its OE bit
abbrev pub op_add : ℕ
op_add = 0x7c64_2e15

adds-IsSum_example :
    IsSum true true true 0x7fff_ffff 1 0 3 sample (add true true true sample op_add)
    × IsSum true true true 0x7fff_ffff 1 1 3 sample (adde true true sample op_add)
    × IsSum true true true 0x7fff_ffff 0xffff_ffff 1 3 sample (addme true true sample op_add)
    × IsSum true true true 0x7fff_ffff 0 1 3 sample (addze true true sample op_add)
    × IsSum true true false 0x7fff_ffff 0x2e15 0 3 sample (addic true sample op_add)
adds-IsSum_example = adds-IsSum true true true sample op_add sample-IsWord

subtracts-IsSum_example :
    IsSum true true true 0x8000_0000 1 1 3 sample (subf true true true sample op_add)
    × IsSum true true true 0x8000_0000 1 1 3 sample (subfe true true sample op_add)
    × IsSum true true true 0x8000_0000 0xffff_ffff 1 3 sample (subfme true true sample op_add)
    × IsSum true true true 0x8000_0000 0 1 3 sample (subfze true true sample op_add)
    × IsSum false true true 0x8000_0000 0 1 3 sample (neg true true sample op_add)
    × IsSum true false false 0x8000_0000 0x2e15 1 3 sample (subfic sample op_add)
subtracts-IsSum_example = subtracts-IsSum true true true sample op_add sample-IsWord

-- The sum of the greatest signed word and one is negative, and overflows.
add_sum : (add true true true sample op_add).gpr 3 ≡ 0x8000_0000
unfolding add
add_sum = refl

add_overflow : xer_bit (add true true true sample op_add) 30 ≡ 1
unfolding add changecrf0 setsoov carry
add_overflow = refl

register_logic_lem_example :
    ((v : ℕ) × IsWrite true 4 v sample (logical LogicalFun.nand true sample op_add)
      × ((i : ℕ)
          → i < 32
          → bit v i ≡ to_nat (truth_table LogicalFun.nand (bit 0x8000_00f0 i == 1) (bit 1 i == 1))))
    × ((n : ℕ) × IsWrite true 4 n sample (cntlzw true sample op_add) × IsLeading 0x8000_00f0 n)
register_logic_lem_example = register_logic_lem LogicalFun.nand true sample op_add sample-IsWord

products-IsWrite_example :
    ((hi lo : ℕ) × IsWrite true 3 hi sample (mulhw true sample op_add)
      × IsWrite true 3 lo sample (mullw true false sample op_add)
      × (double_word hi lo ≡ signed32 0x7fff_ffff *ℤ signed32 1))
    × ((hi lo : ℕ) × IsWrite true 3 hi sample (mulhwu true sample op_add)
        × IsWrite true 3 lo sample (mullw true false sample op_add)
        × (hi * 2 ^ 32 + lo ≡ 0x7fff_ffff * 1))
products-IsWrite_example = products-IsWrite true sample op_add sample-IsWord

rotates-IsWrite_example :
    ((v : ℕ) × IsWrite true 4 v sample (rlwinm sample op_add)
      × ((i : ℕ) → i < 32 → bit v i ≡ rotated_bit op_add 0x8000_00f0 5 (λ _. 0) i))
    × ((v : ℕ) × IsWrite true 4 v sample (rlwnm sample op_add)
        × ((i : ℕ) → i < 32 → bit v i ≡ rotated_bit op_add 0x8000_00f0 1 (λ _. 0) i))
    × ((v : ℕ) × IsWrite true 4 v sample (rlwimi sample op_add)
        × ((i : ℕ)
            → i < 32
            → bit v i ≡ rotated_bit op_add 0x8000_00f0 5 (λ j. bit 0x7fff_ffff j) i))
rotates-IsWrite_example = rotates-IsWrite sample op_add sample-IsWord

-- `cmpw cr2, r4, r5`
abbrev op_cmp : ℕ
op_cmp = 0x7d04_2800

cr_logical-IsBitWrite_example : IsBitWrite 8 true sample (cr_logical LogicalFun.nand sample op_cmp)
cr_logical-IsBitWrite_example = cr_logical-IsBitWrite LogicalFun.nand sample op_cmp

-- `bdnzl` to the word eight bytes back
abbrev op_bdnz : ℕ
op_bdnz = 0x4200_fff9

conditional-IsBranch_example :
    (IsBranch true true 0xff8 1 sample (bc true false sample op_bdnz))
    × (IsBranch true true 0x2000 1 sample (bclr true sample op_bdnz))
conditional-IsBranch_example = conditional-IsBranch true false sample op_bdnz (omega arith)

shifts_lem_example :
    (IsWrite true 4 (0x8000_00f0 * 2 ^ 1 % 2 ^ 32) sample (shift true true sample op_add))
    × (((v : ℕ) × (signed32 v ≡ shr_ℤ (signed32 0x8000_00f0) 5)
          × IsCarryWrite true 4 v true sample (srawi true sample op_add))
        × ((v : ℕ) × (signed32 v ≡ shr_ℤ (signed32 0x8000_00f0) 1)
            × IsCarryWrite true 4 v false sample (sraw true sample op_add)))
shifts_lem_example = shifts_lem true true sample op_add sample-IsWord

fields_lem_example :
    (IsFieldWrite 8 (cmp_field false true 1) sample (cmp sample op_cmp)
      × IsFieldWrite 8 (cmp_field false true 1) sample (cmpi sample op_cmp)
      × IsFieldWrite 8 (cmp_field false true 1) sample (cmpl sample op_cmp)
      × IsFieldWrite 8 (cmp_field false true 1) sample (cmpli sample op_cmp))
    × ((IsFieldWrite 8 4 sample (mcrf sample op_cmp))
        × ((bit (mtcrf sample op_cmp).cr 23 ≡ 1)
            × (mtcrf sample op_cmp ≡ record sample { cr = (mtcrf sample op_cmp).cr }))
        × ((bit (mcrxr sample op_cmp).cr 23 ≡ 1)
            × ((mcrxr sample op_cmp).spr 1 ≡ 0)
            × ((mcrxr sample op_cmp).gpr ≡ sample.gpr)
            × ((r : ℕ) → r ≢ 1 → (mcrxr sample op_cmp).spr r ≡ sample.spr r)))
fields_lem_example = fields_lem sample op_cmp 23 sample-IsWord (omega arith)
