-- ===== src/Cpu/Machine.antt =====
-- The processor with what surrounds its registers: the globals of the interpreter that exceptions and
-- supervisor instructions change (cpu/ppc/ppcexec.cpp, ppcexceptions.cpp and, for the choice of the
-- translation tables, ppcmmu.cpp). `E` is the state of the rest of the emulator.
pub mod Handler
pub mod Architecture
pub mod Modes
pub mod EntryMsr
pub mod Entry
pub mod Handled
pub mod Supervisor
pub mod ReturnMsr
pub mod Return
pub mod Pending
pub mod Alignment
pub mod Privilege
pub mod Invariant
mod Tests
use chungusppc.Common.{
  ℕ, ◌+◌, ◌*◌, ◌^◌, ◌==◌, ltb, not, ◌&&◌, Bool, true, false, if◌then◌else◌, bit_and, bit_or,
  bit_xor, u32, truth, to_nat,
}
use chungusppc.Cpu.State.{State}
use chungusppc.Cpu.Msr

pub data PoCause : Type 0 where
  po_none po_starting_up po_quit po_quitting po_shut_down po_shutting_down : PoCause
  po_restart po_restarting po_disassemble_on po_disassemble_off : PoCause
  po_enter_debugger po_entered_debugger po_signal_interrupt : PoCause
  po_benchmark_exception po_endian_switch : PoCause

pub data PowMode : Type 0 where
  never unconditional by_hid0 : PowMode

-- `fpu_on` tells which of the two tables `ppc_opcode_grabber` points to. `itlb_mode` and `dtlb_mode` are
-- `CurITLBMode` and `CurDTLBMode`, `itlb` and `dtlb` the number of the table behind `pCurITLB1` and
-- `pCurDTLB1`.
pub record Machine (E : Type 0) : Type 0 where
  pub cpu : State
  pub shadow_gprs : ℕ → ℕ
  pub fpu_on : Bool
  pub is_le : Bool
  pub power_on : Bool
  pub power_off_reason : PoCause
  pub int_pin : Bool
  pub dec_exception_pending : Bool
  pub thrm_exception_pending : Bool
  pub pow_mode : PowMode
  pub pow_hid0_mask : ℕ
  pub itlb_mode : ℕ
  pub dtlb_mode : ℕ
  pub itlb : ℕ
  pub dtlb : ℕ
  pub env : E

-- What the processor calls outside of it, and SUPPORTS_PPC_LITTLE_ENDIAN_MODE of the build.
pub record Host (E : Type 0) : Type 0 where
  pub supports_le : Bool
  pub do_ctx_sync : E → E
  pub mmu_pat_ctx_changed : E → E

-- The mode that the two bits of MSR ask for; user mode cannot disable translations.
unfoldable pub mmu_mode : Bool → Bool → ℕ
mmu_mode translate user = to_nat translate * 2 + to_nat user

unfoldable pub switch_mode : ℕ → ℕ
switch_mode mode = if mode == 1 then 0 else mode

-- `itlb1_mode1` is the table of mode 0.
unfoldable pub mode_table : ℕ → ℕ
mode_table mode = if switch_mode mode == 0 then 1 else switch_mode mode

module _ {E : Type 0} where
  unfoldable pub power_off : PoCause → Machine E → Machine E
  power_off reason m = record m { power_on = false; power_off_reason = reason }

  -- Without support for little-endian mode, there is no `is_LE`.
  unfoldable pub change_endian : Host E → Bool → Machine E → Machine E
  change_endian h new_le m =
      if h.supports_le
      then if to_nat m.is_le == to_nat new_le
        then m
        else power_off PoCause.po_endian_switch (record m { is_le = new_le })
      else if new_le
      then power_off PoCause.po_enter_debugger m
      else m

  -- GPR0-3 and the shadow registers change places.
  unfoldable pub swap_gprs : Machine E → Machine E
  swap_gprs m = record m {
    cpu = record m.cpu { gpr = λ r. if ltb r 4 then m.shadow_gprs r else m.cpu.gpr r };
    shadow_gprs = λ r. if ltb r 4 then m.cpu.gpr r else m.shadow_gprs r;
  }

  unfoldable pub msr_did_change : ℕ → ℕ → Bool → Machine E → Machine E
  msr_did_change old_msr_val new_msr_val set_next_instruction_address m =
      let changed = bit_xor old_msr_val new_msr_val in
      let m1 = record m { cpu = record m.cpu { msr = new_msr_val } } in
      let m2 = if m1.cpu.is_603 && truth (bit_and changed Msr.tgpr) then swap_gprs m1 else m1 in
      if truth (bit_and changed Msr.fp)
      then record m2 {
        fpu_on = truth (bit_and new_msr_val Msr.fp);
        cpu = record m2.cpu {
          exec_flags = bit_or m2.cpu.exec_flags 8;
          next_pc = if set_next_instruction_address then u32 (m2.cpu.pc + 4) else m2.cpu.next_pc;
        };
      }
      else m2

  unfoldable pub mmu_change_mode : Machine E → Machine E
  mmu_change_mode m =
      let user = truth (bit_and m.cpu.msr Msr.pr) in
      let i = mmu_mode (truth (bit_and m.cpu.msr Msr.ir)) user in
      let d = mmu_mode (truth (bit_and m.cpu.msr Msr.dr)) user in
      record m {
        itlb_mode = if m.itlb_mode == i then m.itlb_mode else switch_mode i;
        itlb = if m.itlb_mode == i then m.itlb else mode_table i;
        dtlb_mode = if m.dtlb_mode == d then m.dtlb_mode else switch_mode d;
        dtlb = if m.dtlb_mode == d then m.dtlb else mode_table d;
      }
