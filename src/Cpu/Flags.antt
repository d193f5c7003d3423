-- ===== src/Cpu/Flags.antt =====
-- The flag helpers of cpu/ppc/ppcopcodes.cpp: `ppc_changecrf0`, `ppc_carry`, `ppc_setsoov`.
pub mod Bits
use chungusppc.Common.{ℕ, ◌-◌, ◌^◌, ◌==◌, if◌then◌else◌, bit_and, bit_or, bit_xor}
use chungusppc.Common.{◌>>>◌, not32, is_neg, truth, to_nat}
use chungusppc.Cpu.State.{State, set_spr}
use chungusppc.Cpu.Spr
use chungusppc.Cpu.Xer
use chungusppc.Cpu.CrBit

-- XER[CA] as 0 or 1.
abbrev pub xer_ca : State → ℕ
xer_ca s = to_nat (truth (bit_and (s.spr Spr.xer) Xer.ca))

-- `ppc_state.spr[SPR::XER] |= XER::SO | XER::OV` and `&= ~XER::OV`
abbrev pub set_so_ov : State → State
set_so_ov s = set_spr s Spr.xer (bit_or (s.spr Spr.xer) (bit_or Xer.so Xer.ov))

abbrev pub clear_ov : State → State
clear_ov s = set_spr s Spr.xer (bit_and (s.spr Spr.xer) (not32 Xer.ov))

unfoldable pub changecrf0 : State → ℕ → State
changecrf0 s result = record s {
  cr =
      bit_or
        (bit_or (bit_and s.cr 0x0fff_ffff)
          (if result == 0 then CrBit.eq else if is_neg result then CrBit.lt else CrBit.gt))
        (bit_and (s.spr Spr.xer) Xer.so >>> 3);
}

-- `ppc_carry`, of a sum of two words that is wider than one.
unfoldable pub carry : State → ℕ → State
carry s result_l =
    set_spr s Spr.xer
      (bit_or (bit_and (s.spr Spr.xer) (not32 Xer.ca)) (bit_and (result_l >>> (32 - 29)) Xer.ca))

unfoldable pub setsoov : State → ℕ → ℕ → ℕ → State
setsoov s a b d = set_spr s Spr.xer (
    bit_or (bit_and (s.spr Spr.xer) (not32 Xer.ov))
      (if is_neg (bit_and (bit_xor a b) (bit_xor a d)) then bit_or Xer.so Xer.ov else 0))
