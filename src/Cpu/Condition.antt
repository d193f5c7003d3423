-- ===== src/Cpu/Condition.antt =====
-- The comparisons and the instructions on the condition register of cpu/ppc/ppcopcodes.cpp. The
-- invalid forms that CHECK_INVALID would report are not compiled in.
use chungusppc.Common.{ℕ, ◌+◌, ◌-◌, ◌==◌, if◌then◌else◌, Bool, ◌&&◌, ◌||◌, not, truth, ltb}
pub mod Fields
pub mod Single
pub mod RoundTrip
pub mod Family
use chungusppc.Common.{bit_and, bit_or, bit_xor, ◌<<<◌, ◌>>>◌, not32, u8}
use chungusppc.Common.Int.{signed32, ltb_ℤ}
use chungusppc.Cpu.State.{State, set_gpr, set_spr}
use chungusppc.Cpu.Decode.{reg_a, reg_b, reg_d, crf_d, crf_s, simm, uimm}
use chungusppc.Cpu.Spr
use chungusppc.Cpu.Xer

-- XER[SO] at the place of CR0[SO].
abbrev pub xercon : State → ℕ
xercon s = bit_and (s.spr Spr.xer) Xer.so >>> 3

-- `cr = (cr & ~(0xf0000000 >> crf)) | ((cmp_c + xercon) >> crf)`, which ends each comparison.
pub put_crf : State → ℕ → ℕ → State
put_crf s crf c = record s {
  cr = bit_or (bit_and s.cr (not32 (0xf000_0000 >>> crf))) ((c + xercon s) >>> crf);
}

pub cmp : State → ℕ → State
unfolding put_crf
cmp s op =
    let a = s.gpr (reg_a op) in
    let b = s.gpr (reg_b op) in
    put_crf s (crf_d op) (
      if a == b
      then 0x2000_0000
      else if ltb_ℤ (signed32 b) (signed32 a)
      then 0x4000_0000
      else 0x8000_0000)

pub cmpi : State → ℕ → State
unfolding put_crf
cmpi s op =
    let a = s.gpr (reg_a op) in
    let b = simm op in
    put_crf s (crf_d op) (
      if a == b
      then 0x2000_0000
      else if ltb_ℤ (signed32 b) (signed32 a)
      then 0x4000_0000
      else 0x8000_0000)

pub cmpl : State → ℕ → State
unfolding put_crf
cmpl s op =
    let a = s.gpr (reg_a op) in
    let b = s.gpr (reg_b op) in
    put_crf s (crf_d op)
      (if a == b then 0x2000_0000 else if ltb b a then 0x4000_0000 else 0x8000_0000)

pub cmpli : State → ℕ → State
unfolding put_crf
cmpli s op =
    let a = s.gpr (reg_a op) in
    let b = uimm op in
    put_crf s (crf_d op)
      (if a == b then 0x2000_0000 else if ltb b a then 0x4000_0000 else 0x8000_0000)

pub mcrf : State → ℕ → State
mcrf s op =
    let grab_s = bit_and (s.cr >>> (28 - crf_s op)) 0xf in
    record s {
      cr = bit_or (bit_and s.cr (not32 (0xf000_0000 >>> crf_d op))) (grab_s <<< (28 - crf_d op));
    }

-- Setting and clearing the bit that PowerPC numbers `d`.
pub set_cr_bit : State → ℕ → State
set_cr_bit s d = record s { cr = bit_or s.cr (0x8000_0000 >>> d) }

pub clear_cr_bit : State → ℕ → State
clear_cr_bit s d = record s { cr = bit_and s.cr (not32 (0x8000_0000 >>> d)) }

abbrev cr_shifted : State → ℕ → ℕ
cr_shifted s r = s.cr >>> (31 - r)

abbrev cr_masked : State → ℕ → ℕ
cr_masked s r = bit_and s.cr (0x8000_0000 >>> r)

pub crand : State → ℕ → State
unfolding set_cr_bit clear_cr_bit
crand s op =
    let ir = u8 (bit_and (cr_shifted s (reg_a op)) (cr_shifted s (reg_b op))) in
    if truth (bit_and ir 1) then set_cr_bit s (reg_d op) else clear_cr_bit s (reg_d op)

pub crandc : State → ℕ → State
unfolding set_cr_bit clear_cr_bit
crandc s op =
    if truth (cr_masked s (reg_a op)) && not (truth (cr_masked s (reg_b op)))
    then set_cr_bit s (reg_d op)
    else clear_cr_bit s (reg_d op)

pub creqv : State → ℕ → State
unfolding set_cr_bit clear_cr_bit
creqv s op =
    let ir = u8 (bit_xor (cr_shifted s (reg_a op)) (cr_shifted s (reg_b op))) in
    if truth (bit_and ir 1) then clear_cr_bit s (reg_d op) else set_cr_bit s (reg_d op)

pub crnand : State → ℕ → State
unfolding set_cr_bit clear_cr_bit
crnand s op =
    let ir = u8 (bit_and (cr_shifted s (reg_a op)) (cr_shifted s (reg_b op))) in
    if truth (bit_and ir 1) then clear_cr_bit s (reg_d op) else set_cr_bit s (reg_d op)

pub crnor : State → ℕ → State
unfolding set_cr_bit clear_cr_bit
crnor s op =
    let ir = u8 (bit_or (cr_shifted s (reg_a op)) (cr_shifted s (reg_b op))) in
    if truth (bit_and ir 1) then clear_cr_bit s (reg_d op) else set_cr_bit s (reg_d op)

pub cror : State → ℕ → State
unfolding set_cr_bit clear_cr_bit
cror s op =
    let ir = u8 (bit_or (cr_shifted s (reg_a op)) (cr_shifted s (reg_b op))) in
    if truth (bit_and ir 1) then set_cr_bit s (reg_d op) else clear_cr_bit s (reg_d op)

pub crorc : State → ℕ → State
unfolding set_cr_bit clear_cr_bit
crorc s op =
    if truth (cr_masked s (reg_a op)) || not (truth (cr_masked s (reg_b op)))
    then set_cr_bit s (reg_d op)
    else clear_cr_bit s (reg_d op)

pub crxor : State → ℕ → State
unfolding set_cr_bit clear_cr_bit
crxor s op =
    let ir = u8 (bit_xor (cr_shifted s (reg_a op)) (cr_shifted s (reg_b op))) in
    if truth (bit_and ir 1) then set_cr_bit s (reg_d op) else clear_cr_bit s (reg_d op)

pub mfcr : State → ℕ → State
mfcr s op = set_gpr s (reg_d op) s.cr

abbrev pick : Bool → ℕ → ℕ
pick t mask = if t then mask else 0

-- The mask of the fields that `crm` names.
pub mtcrf_mask : ℕ → ℕ
mtcrf_mask crm =
    let m7 = pick (truth (bit_and crm 0x80)) 0xf000_0000 in
    let m6 = bit_or m7 (pick (truth (bit_and crm 0x40)) 0x0f00_0000) in
    let m5 = bit_or m6 (pick (truth (bit_and crm 0x20)) 0x00f0_0000) in
    let m4 = bit_or m5 (pick (truth (bit_and crm 0x10)) 0x000f_0000) in
    let m3 = bit_or m4 (pick (truth (bit_and crm 0x08)) 0x0000_f000) in
    let m2 = bit_or m3 (pick (truth (bit_and crm 0x04)) 0x0000_0f00) in
    let m1 = bit_or m2 (pick (truth (bit_and crm 0x02)) 0x0000_00f0) in
    let m0 = bit_or m1 (pick (truth (bit_and crm 0x01)) 0x0000_000f) in
    if crm == 0xff then 0xffff_ffff else m0

pub mtcrf : State → ℕ → State
unfolding mtcrf_mask
mtcrf s op =
    let crm = u8 (bit_and (op >>> 12) 0xff) in
    let mask = mtcrf_mask crm in
    record s { cr = bit_or (bit_and s.cr (not32 mask)) (bit_and (s.gpr (reg_d op)) mask) }

pub mcrxr : State → ℕ → State
mcrxr s op =
    let xer = s.spr Spr.xer in
    let s1 = record s {
      cr =
          bit_or (bit_and s.cr (not32 (0xf000_0000 >>> crf_d op)))
            (bit_and xer 0xf000_0000 >>> crf_d op);
    } in
    set_spr s1 Spr.xer (bit_and xer 0x0fff_ffff)
