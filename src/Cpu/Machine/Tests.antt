-- ===== src/Cpu/Machine/Tests.antt =====
-- The theorems on exceptions and supervisor instructions at a 603 in user mode and in supervisor mode.
use chungusppc.Common.{
  ℕ, ◌+◌, ◌≡◌, ◌==◌, all_below, all_below_sound, ◌||◌, not, refl, true, false, if◌then◌else◌, bit,
  bit_and, truth, arith, ◌>>>◌,
}
use chungusppc.Cpu.State.{State}
use chungusppc.Cpu.Msr
use chungusppc.Cpu.Tests.{sample}
use chungusppc.Cpu.Machine.{
  Machine, Host, PoCause, PowMode, mode_table, switch_mode, change_endian, swap_gprs,
  msr_did_change,
}
use chungusppc.Cpu.Machine.Alignment.{alignment_dsisr, opcode_form, is_multiple_load, form_bits}
use chungusppc.Cpu.Machine.Handled.{enter-IsEntry}
use chungusppc.Cpu.Machine.Handler.{
  ExceptType, ReturnTo, returned, and_then, enter, saved_address, exception_handler, follow_endian,
  assert_int,
}
use chungusppc.Cpu.Machine.Invariant.{Everywhere, machine-IsSwitched}
use chungusppc.Cpu.Machine.Modes.{IsSwitched}
use chungusppc.Cpu.Machine.Pending.{IsTaken, rfi-pending}
use chungusppc.Cpu.Machine.Privilege.{IsRefused, supervisor-IsRefused, IsCopied, mfsr-mtsr}
use chungusppc.Cpu.Machine.Return.{KeepsContext, IsResumed, IsRestorable, rfi-exception_handler}
use chungusppc.Cpu.Machine.ReturnMsr.{lost}
use chungusppc.Cpu.Machine.Supervisor.{
  return_msr, restore_msr, sr_field, rfi, sc, mfmsr, mtmsr, mtsr, mtsrin, mfsr, mfsrin,
}

-- A 603 in user mode with translation and interrupts; SRR1 is 0x3030 | EE.
abbrev cpu_603 : State
cpu_603 = record sample {
  msr = 0xf070;
  is_603 = true;
  spr = λ r. if r == 27 then 0xb030 else if r == 26 then 0x2003 else 0;
}

abbrev quiet_machine : Machine ℕ
quiet_machine = record {
  cpu = cpu_603;
  shadow_gprs = λ r. r;
  fpu_on = true;
  is_le = false;
  power_on = true;
  power_off_reason = PoCause.po_none;
  int_pin = false;
  dec_exception_pending = false;
  thrm_exception_pending = false;
  pow_mode = PowMode.never;
  pow_hid0_mask = 0;
  itlb_mode = 3;
  dtlb_mode = 3;
  itlb = 3;
  dtlb = 3;
  env = 0;
}

-- The same in supervisor mode, while a thermal interrupt waits
abbrev hot_machine : Machine ℕ
hot_machine = record quiet_machine {
  cpu = record cpu_603 { msr = 0x3030 };
  thrm_exception_pending = true;
}

abbrev big_endian_host : Host ℕ
big_endian_host = record {
  supports_le = false;
  do_ctx_sync = λ n. n + 1;
  mmu_pat_ctx_changed = λ n. n;
}

quiet_machine-IsSwitched : IsSwitched quiet_machine
unfolding mode_table switch_mode
quiet_machine-IsSwitched = ((refl, refl), (refl, refl))

supervisor-IsRefused_example :
    IsRefused big_endian_host quiet_machine (rfi big_endian_host quiet_machine)
    × IsRefused big_endian_host quiet_machine (mfmsr big_endian_host 0 quiet_machine)
    × IsRefused big_endian_host quiet_machine (mtmsr big_endian_host 0 quiet_machine)
    × IsRefused big_endian_host quiet_machine (mtsr big_endian_host 0 quiet_machine)
    × IsRefused big_endian_host quiet_machine (mtsrin big_endian_host 0 quiet_machine)
    × IsRefused big_endian_host quiet_machine (mfsr big_endian_host 0 quiet_machine)
    × IsRefused big_endian_host quiet_machine (mfsrin big_endian_host 0 quiet_machine)
supervisor-IsRefused_example =
    supervisor-IsRefused big_endian_host 0 quiet_machine refl quiet_machine-IsSwitched

mfsr-mtsr_example :
    IsCopied big_endian_host
      (sr_field 0x7c83_01a4)
      4
      5
      hot_machine
      (and_then (mtsr big_endian_host 0x7c83_01a4 hot_machine) (mfsr big_endian_host 0x7ca3_04a6))
    × IsCopied big_endian_host (hot_machine.cpu.gpr 0 >>> 28) 4 5 hot_machine (
        and_then
          (mtsrin big_endian_host 0x7c83_01a4 hot_machine)
          (mfsrin big_endian_host 0x7ca3_04a6))
mfsr-mtsr_example = mfsr-mtsr big_endian_host 0x7c83_01a4 0x7ca3_04a6 hot_machine refl refl refl

machine-IsSwitched_example :
    Everywhere IsSwitched (exception_handler big_endian_host ExceptType.exc_dsi 0 quiet_machine)
    × Everywhere IsSwitched (sc big_endian_host quiet_machine)
    × Everywhere IsSwitched (rfi big_endian_host quiet_machine)
    × Everywhere IsSwitched (mtmsr big_endian_host 0 quiet_machine)
    × Everywhere IsSwitched (mfmsr big_endian_host 0 quiet_machine)
    × Everywhere IsSwitched (assert_int big_endian_host quiet_machine)
machine-IsSwitched_example =
    machine-IsSwitched big_endian_host ExceptType.exc_dsi 0 0 quiet_machine quiet_machine-IsSwitched

enabled : truth (bit_and (return_msr hot_machine.cpu) Msr.ee) ≡ true
unfolding return_msr
enabled = refl

hot_machine-IsSwitched : IsSwitched hot_machine
unfolding mode_table switch_mode
hot_machine-IsSwitched = ((refl, refl), (refl, refl))

rfi-pending_example :
    IsTaken big_endian_host ExceptType.exc_thrm_mgmt_int false 0x2000
      (restore_msr big_endian_host hot_machine)
      (rfi big_endian_host hot_machine)
rfi-pending_example =
    rfi-pending big_endian_host hot_machine refl enabled refl hot_machine-IsSwitched

-- The address in SRR0 was 0x2000, and the `rfi` stands at 0x1000.
lost_address :
    saved_address ReturnTo.interrupted (restore_msr big_endian_host hot_machine).cpu ≡ 0x1004
unfolding saved_address restore_msr return_msr follow_endian change_endian msr_did_change swap_gprs
lost_address = refl

-- `stwu r3, 1(r4)`
stwu_dsisr : alignment_dsisr 0x9464_0001 ≡ 0x4864
unfolding alignment_dsisr opcode_form form_bits is_multiple_load
stwu_dsisr = refl

-- A handler of the TLB miss that has changed nothing
abbrev miss_entry : Machine ℕ
miss_entry = enter big_endian_host ExceptType.exc_itlb_miss 0 quiet_machine

abbrev handled_machine : Machine ℕ
handled_machine = record quiet_machine {
  cpu = miss_entry.cpu;
  shadow_gprs = miss_entry.shadow_gprs;
  itlb_mode = 0;
  dtlb_mode = 0;
  itlb = 1;
  dtlb = 1;
}

handled_machine-KeepsContext : KeepsContext miss_entry.cpu miss_entry.shadow_gprs handled_machine
unfolding mode_table switch_mode
handled_machine-KeepsContext = record {
  srr0 = refl;
  srr1 = refl;
  msr = refl;
  is_603 = refl;
  shadow = λ r. refl;
  tables = ((refl, refl), (refl, refl));
}

cpu_603-IsRestorable : IsRestorable 0 cpu_603
unfolding all_below
cpu_603-IsRestorable i h =
    let table : (not (bit (lost true) i == 1) || bit 0xf070 i == 0) ≡ true =
      all_below_sound 32 (λ i. not (bit (lost true) i == 1) || bit 0xf070 i == 0) i refl h in
    (λ e. ground arith, λ e. ground arith)

rfi-exception_handler_example :
    (r : Machine ℕ) × (rfi big_endian_host handled_machine ≡ returned r)
    × IsResumed ExceptType.exc_itlb_miss quiet_machine handled_machine r
rfi-exception_handler_example =
    rfi-exception_handler big_endian_host ExceptType.exc_itlb_miss 0 quiet_machine handled_machine
      miss_entry.cpu miss_entry.shadow_gprs miss_entry.itlb miss_entry.dtlb
      (enter-IsEntry big_endian_host ExceptType.exc_itlb_miss 0 quiet_machine
        quiet_machine-IsSwitched)
      handled_machine-KeepsContext cpu_603-IsRestorable refl
