-- ===== src/Cpu/Machine/Handler.antt =====
-- `ppc_exception_handler` of cpu/ppc/ppcexceptions.cpp, and the sources of exceptions in
-- cpu/ppc/ppcexec.cpp.
use chungusppc.Common.{
  ℕ, ◌+◌, ◌^◌, ◌-◌, not, ◌&&◌, Bool, true, false, if◌then◌else◌, bit_and, bit_or, u32, not32, truth,
  to_nat, ◌<<<◌,
}
use chungusppc.Cpu.State.{State, update}
use chungusppc.Cpu.Msr
use chungusppc.Cpu.Spr
use chungusppc.Cpu.Machine.{Machine, Host, PoCause, change_endian, msr_did_change, mmu_change_mode}

pub data ExceptType : Type 0 where
  exc_system_reset exc_machine_check exc_dsi exc_isi exc_ext_int exc_alignment : ExceptType
  exc_program exc_no_fpu exc_decr exc_syscall exc_trace exc_fp_assist exc_perf_mon_int : ExceptType
  exc_itlb_miss exc_dtlb_load_miss exc_dtlb_store_miss : ExceptType
  exc_inst_addr_bp exc_sys_mgmt_int exc_thrm_mgmt_int : ExceptType

-- `uint32_t(exception_type)`
unfoldable pub except_code : ExceptType → ℕ
except_code exc_system_reset = 0x01
except_code exc_machine_check = 0x02
except_code exc_dsi = 0x03
except_code exc_isi = 0x04
except_code exc_ext_int = 0x05
except_code exc_alignment = 0x06
except_code exc_program = 0x07
except_code exc_no_fpu = 0x08
except_code exc_decr = 0x09
except_code exc_syscall = 0x0c
except_code exc_trace = 0x0d
except_code exc_fp_assist = 0x0e
except_code exc_perf_mon_int = 0x0f
except_code exc_itlb_miss = 0x10
except_code exc_dtlb_load_miss = 0x11
except_code exc_dtlb_store_miss = 0x12
except_code exc_inst_addr_bp = 0x13
except_code exc_sys_mgmt_int = 0x14
except_code exc_thrm_mgmt_int = 0x17

-- enum Exc_Cause
abbrev pub fpu_off : ℕ
fpu_off = 2 ^ (31 - 11)

abbrev pub illegal_op : ℕ
illegal_op = 2 ^ (31 - 12)

abbrev pub not_allowed : ℕ
not_allowed = 2 ^ (31 - 13)

abbrev pub trap : ℕ
trap = 2 ^ (31 - 14)

-- A call that may end in the handler: it returns, it leaves by `longjmp` to the main loop, or the emulator
-- is aborted.
pub data Flow (E : Type 0) : Type 0 where
  returned : Machine E → Flow E
  jumped : Machine E → Flow E
  aborted : Flow E

-- The rest of the function after a call.
unfoldable pub and_then : {E : Type 0} → Flow E → (Machine E → Flow E) → Flow E
and_then (returned m) next = next m
and_then (jumped m) next = jumped m
and_then aborted next = aborted

abbrev pub word_of : ℕ → ℕ
word_of pc = bit_and pc 0xffff_fffc

-- How SRR0 is found.
pub data ReturnTo : Type 0 where
  this_instruction fetched interrupted next_instruction unknown : ReturnTo

unfoldable pub return_to : ExceptType → ReturnTo
return_to exc_system_reset = this_instruction
return_to exc_dsi = this_instruction
return_to exc_alignment = this_instruction
return_to exc_program = this_instruction
return_to exc_no_fpu = this_instruction
return_to exc_dtlb_load_miss = this_instruction
return_to exc_dtlb_store_miss = this_instruction
return_to exc_machine_check = this_instruction
return_to exc_isi = fetched
return_to exc_itlb_miss = fetched
return_to exc_ext_int = interrupted
return_to exc_decr = interrupted
return_to exc_thrm_mgmt_int = interrupted
return_to exc_syscall = next_instruction
return_to exc_trace = next_instruction
return_to exc_fp_assist = unknown
return_to exc_perf_mon_int = unknown
return_to exc_inst_addr_bp = unknown
return_to exc_sys_mgmt_int = unknown

-- `exec_flags & ~EXEF_OPC_DECODER`
abbrev pub leaving : State → Bool
leaving s = truth (bit_and s.exec_flags (not32 8))

unfoldable pub saved_address : ReturnTo → State → ℕ
saved_address this_instruction s = word_of s.pc
saved_address fetched s = if leaving s then s.next_pc else word_of s.pc
saved_address interrupted s = if leaving s then s.next_pc else u32 (word_of s.pc + 4)
saved_address next_instruction s = u32 (word_of s.pc + 4)
saved_address unknown s = s.spr Spr.srr0

unfoldable pub is_tlb_miss : ExceptType → Bool
is_tlb_miss exc_itlb_miss = true
is_tlb_miss exc_dtlb_load_miss = true
is_tlb_miss exc_dtlb_store_miss = true
is_tlb_miss _ = false

-- `new_msr_val`
unfoldable pub entry_msr : ExceptType → State → ℕ
entry_msr ty s =
    let kept = bit_and s.msr 0xfffb_1041 in
    let regular = bit_and kept (not32 Msr.tgpr) in
    let m =
      if s.is_603 then (if is_tlb_miss ty then bit_or regular Msr.tgpr else regular) else kept in
    if s.is_601 then m else bit_or (bit_and m (not32 Msr.le)) (to_nat (truth (bit_and m Msr.ile)))

unfoldable pub is_recoverable : ExceptType → Bool
is_recoverable exc_machine_check = false
is_recoverable exc_system_reset = false
is_recoverable _ = true

unfoldable pub is_asynchronous : ExceptType → Bool
is_asynchronous exc_ext_int = true
is_asynchronous exc_decr = true
is_asynchronous _ = false

unfoldable pub is_endian_switch : PoCause → Bool
is_endian_switch PoCause.po_endian_switch = true
is_endian_switch _ = false

unfoldable pub is_unknown : ReturnTo → Bool
is_unknown unknown = true
is_unknown _ = false

module _ {E : Type 0} where
  -- SRR0, SRR1 and the address of the handler
  unfoldable pub save : ExceptType → ℕ → Machine E → Machine E
  save ty srr1_bits m =
      let s = m.cpu in
      record m {
        cpu = record s {
          next_pc = except_code ty <<< 8;
          spr =
              update (update s.spr Spr.srr0 (saved_address (return_to ty) s)) Spr.srr1
                (bit_or (bit_and s.msr 0xff73) srr1_bits);
        };
      }

  unfoldable pub follow_endian : Host E → ℕ → Machine E → Machine E
  follow_endian h new_msr_val m =
      if m.cpu.is_601 then m else change_endian h (truth (bit_and new_msr_val Msr.le)) m

  unfoldable pub vector : Machine E → Machine E
  vector m = record m {
    cpu = record m.cpu {
      next_pc =
          if truth (bit_and m.cpu.msr Msr.ip)
          then bit_or m.cpu.next_pc 0xfff0_0000
          else m.cpu.next_pc;
      exec_flags = 2;
    };
  }

module _ {E : Type 0} (h : Host E) where
  unfoldable pub synchronize : Bool → Machine E → Machine E
  synchronize recoverable m = if recoverable then record m { env = h.do_ctx_sync m.env } else m

  -- From the save registers to the end of the context switch.
  unfoldable pub enter : ExceptType → ℕ → Machine E → Machine E
  enter ty srr1_bits m =
      let new_msr_val = entry_msr ty m.cpu in
      let endian = follow_endian h new_msr_val (save ty srr1_bits m) in
      let switched = msr_did_change m.cpu.msr new_msr_val false endian in
      mmu_change_mode (synchronize (is_recoverable ty) (vector switched))

  unfoldable pub exception_handler : ExceptType → ℕ → Machine E → Flow E
  exception_handler ty srr1_bits m =
      let entered = enter ty srr1_bits m in
      if is_unknown (return_to ty)
      then aborted
      else if is_asynchronous ty
      then returned entered
      else jumped (
          if not entered.power_on && is_endian_switch entered.power_off_reason
          then record entered { power_on = true }
          else entered)

  -- The text that the source logs is left out.
  unfoldable pub illegalop : Machine E → Flow E
  illegalop m = exception_handler exc_program illegal_op m

  unfoldable pub fpu_unavailable : Machine E → Flow E
  fpu_unavailable m = exception_handler exc_no_fpu fpu_off m

  unfoldable pub assert_int : Machine E → Flow E
  assert_int m =
      let pending = record m { int_pin = true } in
      if truth (bit_and m.cpu.msr Msr.ee)
      then exception_handler exc_ext_int 0 pending
      else returned pending

  unfoldable pub release_int : Machine E → Machine E
  release_int m = record m { int_pin = false }
