-- ===== src/Cpu/Branch.antt =====
-- The branching instructions of cpu/ppc/ppcopcodes.cpp.
pub mod Laws
pub mod Targets
use chungusppc.Common.{ℕ, ◌+◌, if◌then◌else◌, Bool, ◌&&◌, not, truth, to_nat}
use chungusppc.Common.{bit_and, bit_or, ◌<<<◌, ◌>>>◌, u32, not32, sub32, sign_extend16}
use chungusppc.Common.Int.{signed32, wrap_ℤ, shr_ℤ}
use chungusppc.Cpu.State.{State, set_spr}
use chungusppc.Cpu.Spr

-- EXEF_BRANCH
abbrev pub exef_branch : ℕ
exef_branch = 1

abbrev pub br_bo : ℕ → ℕ
br_bo op = bit_and (op >>> 21) 0x1f

abbrev pub br_bi : ℕ → ℕ
br_bi op = bit_and (op >>> 16) 0x1f

-- int32_t((opcode & ~3UL) << 6) >> 6, as `uint32_t`
pub adr_li : ℕ → ℕ
adr_li op = wrap_ℤ 32 (shr_ℤ (signed32 (u32 (bit_and op (not32 3) <<< 6))) 6)

-- int32_t(int16_t(opcode & ~3UL))
pub br_bd : ℕ → ℕ
br_bd op = sign_extend16 (bit_and op (not32 3))

abbrev same_truth : Bool → Bool → Bool
same_truth a b = if a then b else not b

-- (br_bo & 0x04) | ((ctr != 0) == !(br_bo & 0x02))
pub ctr_ok : ℕ → ℕ → Bool
ctr_ok bo ctr =
    truth
      (bit_or (bit_and bo 0x04) (to_nat (same_truth (truth ctr) (not (truth (bit_and bo 0x02))))))

-- (br_bo & 0x10) | (!(cr & (0x80000000UL >> br_bi)) == !(br_bo & 0x08))
pub cnd_ok : ℕ → ℕ → ℕ → Bool
cnd_ok bo bi cr = truth (
    bit_or (bit_and bo 0x10) (
      to_nat (
        same_truth (not (truth (bit_and cr (0x8000_0000 >>> bi))))
          (not (truth (bit_and bo 0x08))))))

-- `ppc_next_instruction_address = target; exec_flags = EXEF_BRANCH;`
abbrev jump : State → ℕ → State
jump s target = record s { next_pc = target; exec_flags = exef_branch }

abbrev link_if : Bool → State → State
link_if l s = if l then set_spr s Spr.lr (u32 (s.pc + 4)) else s

pub b : Bool → Bool → State → ℕ → State
unfolding adr_li
b l a s op =
    let target = if a then adr_li op else u32 (s.pc + adr_li op) in
    let s1 = record s { next_pc = target } in
    let s2 = if l then set_spr s1 Spr.lr (u32 (s.pc + 4)) else s1 in
    record s2 { exec_flags = exef_branch }

pub bc : Bool → Bool → State → ℕ → State
unfolding br_bd ctr_ok cnd_ok
bc l a s op =
    let bo = br_bo op in
    let s1 = if truth (bit_and bo 0x04) then s else set_spr s Spr.ctr (sub32 (s.spr Spr.ctr) 1) in
    let s2 =
      if ctr_ok bo (s1.spr Spr.ctr) && cnd_ok bo (br_bi op) s1.cr
      then jump s1 (if a then br_bd op else u32 (s1.pc + br_bd op))
      else s1 in
    link_if l s2

pub bcctr : Bool → Bool → State → ℕ → State
unfolding ctr_ok cnd_ok
bcctr l for601 s op =
    let bo = br_bo op in
    let ctr = s.spr Spr.ctr in
    let new_ctr = if for601 then sub32 ctr 1 else ctr in
    let s1 =
      if for601 then if truth (bit_and bo 0x04) then s else set_spr s Spr.ctr new_ctr else s in
    let s2 =
      if ctr_ok bo new_ctr && cnd_ok bo (br_bi op) s1.cr
      then jump s1 (bit_and ctr (not32 3))
      else s1 in
    link_if l s2

pub bclr : Bool → State → ℕ → State
unfolding ctr_ok cnd_ok
bclr l s op =
    let bo = br_bo op in
    let s1 = if truth (bit_and bo 0x04) then s else set_spr s Spr.ctr (sub32 (s.spr Spr.ctr) 1) in
    let s2 =
      if ctr_ok bo (s1.spr Spr.ctr) && cnd_ok bo (br_bi op) s1.cr
      then jump s1 (bit_and (s1.spr Spr.lr) (not32 3))
      else s1 in
    link_if l s2
