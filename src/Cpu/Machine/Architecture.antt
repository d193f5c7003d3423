-- ===== src/Cpu/Machine/Architecture.antt =====
-- What the PowerPC architecture and the 603 manual say of each exception that
-- `ppc_exception_handler` of cpu/ppc/ppcexceptions.cpp takes: where its handler is, where it will return
-- to, and whether the processor stays in the instruction.
use chungusppc.Common.{ℕ, ◌+◌, ◌*◌, ◌^◌, ◌%◌, ◌≡◌, refl, Bool, if◌then◌else◌, bit_and, truth}
use chungusppc.Cpu.State.{State}
use chungusppc.Cpu.Spr
use chungusppc.Cpu.Machine.Handler.{
  ExceptType, exc_system_reset, exc_machine_check, exc_dsi, exc_isi, exc_ext_int, exc_alignment,
  exc_program, exc_no_fpu, exc_decr, exc_syscall, exc_trace, exc_fp_assist, exc_perf_mon_int,
  exc_itlb_miss, exc_dtlb_load_miss, exc_dtlb_store_miss, exc_inst_addr_bp, exc_sys_mgmt_int,
  exc_thrm_mgmt_int, except_code, return_to, saved_address, is_asynchronous, is_unknown,
}

-- The offset of the handler
abbrev pub handler_offset : ExceptType → ℕ
handler_offset exc_system_reset = 0x100
handler_offset exc_machine_check = 0x200
handler_offset exc_dsi = 0x300
handler_offset exc_isi = 0x400
handler_offset exc_ext_int = 0x500
handler_offset exc_alignment = 0x600
handler_offset exc_program = 0x700
handler_offset exc_no_fpu = 0x800
handler_offset exc_decr = 0x900
handler_offset exc_syscall = 0xc00
handler_offset exc_trace = 0xd00
handler_offset exc_fp_assist = 0xe00
handler_offset exc_perf_mon_int = 0xf00
handler_offset exc_itlb_miss = 0x1000
handler_offset exc_dtlb_load_miss = 0x1100
handler_offset exc_dtlb_store_miss = 0x1200
handler_offset exc_inst_addr_bp = 0x1300
handler_offset exc_sys_mgmt_int = 0x1400
handler_offset exc_thrm_mgmt_int = 0x1700

-- The instruction that is executed, and the one after it
abbrev current : State → ℕ
current s = bit_and s.pc 0xffff_fffc

abbrev following : State → ℕ
following s = (current s + 4) % 2 ^ 32

-- A branch, or another change of context, has set the address of the next instruction.
abbrev has_target : State → Bool
has_target s = truth (bit_and s.exec_flags 0xffff_fff7)

-- SRR0: for a fault the instruction that has to be tried again, for an interrupt the one that has
-- not been executed yet, for a system call and a trace the one that follows
abbrev pub resume_address : ExceptType → State → ℕ
resume_address exc_dsi s = current s
resume_address exc_alignment s = current s
resume_address exc_program s = current s
resume_address exc_no_fpu s = current s
resume_address exc_dtlb_load_miss s = current s
resume_address exc_dtlb_store_miss s = current s
resume_address exc_system_reset s = current s
resume_address exc_machine_check s = current s
resume_address exc_isi s = if has_target s then s.next_pc else current s
resume_address exc_itlb_miss s = if has_target s then s.next_pc else current s
resume_address exc_ext_int s = if has_target s then s.next_pc else following s
resume_address exc_decr s = if has_target s then s.next_pc else following s
resume_address exc_thrm_mgmt_int s = if has_target s then s.next_pc else following s
resume_address exc_syscall s = following s
resume_address exc_trace s = following s
resume_address _ s = s.spr Spr.srr0

-- What becomes of the instruction: the external and the decrementer interrupt are taken between
-- instructions, four types are not emulated, and the others leave the instruction.
pub data Ending : Type 0 where
  goes_on leaves unsupported : Ending

abbrev pub ending : ExceptType → Ending
ending exc_ext_int = goes_on
ending exc_decr = goes_on
ending exc_fp_assist = unsupported
ending exc_perf_mon_int = unsupported
ending exc_inst_addr_bp = unsupported
ending exc_sys_mgmt_int = unsupported
ending _ = leaves

pub offset-eq : (ty : ExceptType) → except_code ty * 2 ^ 8 ≡ handler_offset ty
unfolding except_code
offset-eq exc_system_reset = refl
offset-eq _ = refl

pub resume-eq : (ty : ExceptType) (s : State) → saved_address (return_to ty) s ≡ resume_address ty s
unfolding saved_address return_to
resume-eq exc_system_reset s = refl
resume-eq _ s = refl

pub ending-eq :
    (ty : ExceptType)
    → (if is_unknown (return_to ty)
        then unsupported
        else if is_asynchronous ty
        then goes_on
        else leaves)
      ≡ ending ty
unfolding is_unknown return_to is_asynchronous
ending-eq exc_system_reset = refl
ending-eq _ = refl
