-- ===== src/Cpu/Machine/Supervisor.antt =====
-- The system call, the return from an interrupt and the instructions on MSR and the segment registers
-- (cpu/ppc/ppcopcodes.cpp).
use chungusppc.Common.{
  ℕ, ◌+◌, ◌==◌, ◌&&◌, ◌||◌, Bool, true, false, if◌then◌else◌, bit_and, bit_or, u32, not32, truth,
  ◌>>>◌,
}
use chungusppc.Cpu.State.{State, update, set_gpr, set_spr}
use chungusppc.Cpu.Decode.{reg_d, reg_b}
use chungusppc.Cpu.Msr
use chungusppc.Cpu.Spr
use chungusppc.Cpu.Machine.{Machine, Host, PowMode, msr_did_change, mmu_change_mode}
use chungusppc.Cpu.Machine.Handler.{
  ExceptType, Flow, returned, and_then, not_allowed, word_of, follow_endian, exception_handler,
}

-- The MSR that `rfi` sets.
unfoldable pub return_msr : State → ℕ
return_msr s =
    let replace = if s.is_603 then 0xff73 else 0x87c0_ff73 in
    let from_srr1 = bit_and (s.spr Spr.srr1) (bit_and replace (not32 Msr.pow)) in
    let new = bit_or (bit_and s.msr (not32 (bit_or replace Msr.pow))) from_srr1 in
    if s.is_603 then bit_and new (not32 Msr.tgpr) else new

-- The segment that an opcode names, and the one of an address.
abbrev pub sr_field : ℕ → ℕ
sr_field opcode = bit_and (opcode >>> 16) 0xf

unfoldable pub sleeps : {E : Type 0} → PowMode → Machine E → Bool
sleeps PowMode.unconditional m = true
sleeps PowMode.by_hid0 m = truth (bit_and (m.cpu.spr Spr.hid0) m.pow_hid0_mask)
sleeps PowMode.never m = false

module _ {E : Type 0} where
  abbrev pub has_pending : Machine E → Bool
  has_pending m = m.int_pin || m.dec_exception_pending || m.thrm_exception_pending

module _ {E : Type 0} (h : Host E) where
  -- The check that supervisor instructions start with.
  unfoldable pub supervisor : Machine E → (Machine E → Flow E) → Flow E
  supervisor m rest =
      if truth (bit_and m.cpu.msr Msr.pr)
      then exception_handler h ExceptType.exc_program not_allowed m
      else rest m

  unfoldable pub sc : Machine E → Flow E
  sc m = exception_handler h ExceptType.exc_syscall 0 (record m { env = h.do_ctx_sync m.env })

  -- The exception that waits, if there is one, in the order of priority.
  unfoldable pub pending_exception : Machine E → Flow E
  pending_exception m =
      if m.int_pin
      then exception_handler h ExceptType.exc_ext_int 0 m
      else if m.dec_exception_pending
      then exception_handler h ExceptType.exc_decr 0 (record m { dec_exception_pending = false })
      else if m.thrm_exception_pending
      then exception_handler h ExceptType.exc_thrm_mgmt_int 0
          (record m { thrm_exception_pending = false })
      else returned m

  -- MSR, the endianness and the shadow registers
  unfoldable pub restore_msr : Machine E → Machine E
  restore_msr m =
      let new_msr_val = return_msr m.cpu in
      msr_did_change m.cpu.msr new_msr_val true (follow_endian h new_msr_val m)

  unfoldable pub resume : Machine E → Machine E
  resume m =
      let target = record m {
        cpu = record m.cpu { next_pc = bit_and (m.cpu.spr Spr.srr0) (not32 3) };
        env = h.do_ctx_sync m.env;
      } in
      let moved = mmu_change_mode target in
      record moved { cpu = record moved.cpu { exec_flags = bit_or moved.cpu.exec_flags 4 } }

  -- The rest of `rfi` with the new MSR
  unfoldable pub finish_rfi : Machine E → Flow E
  finish_rfi m1 =
      let save_srr0 = bit_and (m1.cpu.spr Spr.srr0) (not32 3) in
      if truth (bit_and m1.cpu.msr Msr.ee) && has_pending m1
      then and_then (pending_exception m1)
          (λ m2. returned (record m2 { cpu = set_spr m2.cpu Spr.srr0 save_srr0 }))
      else returned (resume m1)

  unfoldable pub rfi : Machine E → Flow E
  rfi m = supervisor m (λ m. finish_rfi (restore_msr m))

  unfoldable pub mfmsr : ℕ → Machine E → Flow E
  mfmsr opcode m =
      supervisor m (λ m. returned (record m { cpu = set_gpr m.cpu (reg_d opcode) m.cpu.msr }))

  -- `mtmsr` after MSR has changed
  unfoldable pub finish_mtmsr : Machine E → Flow E
  finish_mtmsr m1 =
      if truth (bit_and m1.cpu.msr Msr.ee) && has_pending m1
      then pending_exception m1
      else if truth (bit_and m1.cpu.msr Msr.pow) && sleeps m1.pow_mode m1
      then returned (record m1 {
        cpu = record m1.cpu {
          exec_flags = bit_or m1.cpu.exec_flags 16;
          next_pc = u32 (word_of m1.cpu.pc + 4);
        };
      })
      else returned (mmu_change_mode m1)

  unfoldable pub mtmsr : ℕ → Machine E → Flow E
  mtmsr opcode m = supervisor m (λ m.
      let new_msr_val = m.cpu.gpr (reg_d opcode) in
      finish_mtmsr (msr_did_change m.cpu.msr new_msr_val true (follow_endian h new_msr_val m)))

  -- The write to a segment register that `mtsr` and `mtsrin` share
  unfoldable pub write_sr : ℕ → ℕ → Machine E → Machine E
  write_sr n val m = if m.cpu.sr n == val then m else record m {
    cpu = record m.cpu { sr = update m.cpu.sr n val };
    env = h.mmu_pat_ctx_changed m.env;
  }

  unfoldable pub mtsr : ℕ → Machine E → Flow E
  mtsr opcode m =
      supervisor m (λ m. returned (write_sr (sr_field opcode) (m.cpu.gpr (reg_d opcode)) m))

  unfoldable pub mtsrin : ℕ → Machine E → Flow E
  mtsrin opcode m =
      supervisor m
        (λ m. returned (write_sr (m.cpu.gpr (reg_b opcode) >>> 28) (m.cpu.gpr (reg_d opcode)) m))

  unfoldable pub mfsr : ℕ → Machine E → Flow E
  mfsr opcode m =
      supervisor m (λ m.
        returned (record m { cpu = set_gpr m.cpu (reg_d opcode) (m.cpu.sr (sr_field opcode)) }))

  unfoldable pub mfsrin : ℕ → Machine E → Flow E
  mfsrin opcode m = supervisor m (λ m. returned (record m {
    cpu = set_gpr m.cpu (reg_d opcode) (m.cpu.sr (m.cpu.gpr (reg_b opcode) >>> 28));
  }))
