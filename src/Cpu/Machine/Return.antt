-- ===== src/Cpu/Machine/Return.antt =====
-- An exception, its handler and the `rfi` that ends it (cpu/ppc/ppcexceptions.cpp and ppcopcodes.cpp).
use chungusppc.Common.{
  ℕ, ◌+◌, ◌%◌, ◌<◌, ◌≡◌, ◌==◌, ltb, ◌&&◌, refl, sym, ◌∙◌, ap, Bool, Bool-cases, true, false, inl,
  inr, if◌then◌else◌, bit, bit_and, bit_xor, not32, truth, to_nat, arith,
}
use chungusppc.Cpu.State.{State}
use chungusppc.Cpu.Msr
use chungusppc.Cpu.Spr
use chungusppc.Cpu.Machine.{
  Machine, Host, mmu_change_mode, change_endian, power_off, msr_did_change, swap_gprs,
}
use chungusppc.Cpu.Machine.Modes.{
  IsSwitched, IsTranslating, table_for, mode-IsSwitched, SameTables-IsSwitched,
}
use chungusppc.Cpu.Machine.EntryMsr.{truth-bit_and, plain_bit}
use chungusppc.Cpu.Machine.Entry
use chungusppc.Cpu.Machine.Entry.{switches_gprs, gprs_after, shadow_after}
use chungusppc.Cpu.Machine.Architecture.{resume-eq}
use chungusppc.Cpu.Machine.Handled.{IsEntry}
use chungusppc.Cpu.Machine.Handler.{
  ExceptType, saved_address, return_to, is_tlb_miss, follow_endian, returned,
}
use chungusppc.Cpu.Machine.ReturnMsr.{lost, restored, return_msr-bit, round_trip-bit, tgpr-changes}
use chungusppc.Cpu.Machine.Supervisor.{
  return_msr, supervisor, restore_msr, resume, finish_rfi, has_pending, rfi,
}

-- What the handler of an exception keeps for its `rfi`: s are the registers on its entry and n the machine at its
-- end.
pub record KeepsContext {E : Type 0} (s : State) (shadow_gprs : ℕ → ℕ) (n : Machine E)
    : Type 0 where
  pub srr0 : n.cpu.spr Spr.srr0 ≡ s.spr Spr.srr0
  pub srr1 : n.cpu.spr Spr.srr1 ≡ s.spr Spr.srr1
  pub msr : n.cpu.msr ≡ s.msr
  pub is_603 : n.cpu.is_603 ≡ s.is_603
  pub shadow : (r : ℕ) → n.shadow_gprs r ≡ shadow_gprs r
  pub tables : IsSwitched n

-- The machine m goes on after an exception whose handler ended with the machine n.
pub record IsResumed {E : Type 0} (ty : ExceptType) (m n r : Machine E) : Type 0 where
  pub next_pc : r.cpu.next_pc ≡ bit_and (saved_address (return_to ty) m.cpu) (not32 3)
  pub msr : (i : ℕ) → i < 32 → bit r.cpu.msr i ≡ bit m.cpu.msr i
  pub gpr :
      (j : ℕ)
      → r.cpu.gpr j
        ≡ (if m.cpu.is_603 && is_tlb_miss ty && ltb j 4 then m.cpu.gpr j else n.cpu.gpr j)
  pub itable : r.itlb ≡ table_for r.cpu.msr Msr.ir
  pub dtable : r.dtlb ≡ table_for r.cpu.msr Msr.dr

-- The privileged state and the bits that come back.
abbrev pub IsRestorable : ℕ → State → Type 0
IsRestorable srr1_bits s =
    (i : ℕ)
    → i < 32
    → (bit (lost s.is_603) i ≡ 1 → bit s.msr i ≡ 0)
      × (bit (restored s.is_603) i ≡ 1 → bit srr1_bits i ≡ 0)

module _ {E : Type 0} (h : Host E) (n : Machine E) where
  abbrev endian : Machine E
  endian = follow_endian h (return_msr n.cpu) n

  pub restored-msr : (restore_msr h n).cpu.msr ≡ return_msr n.cpu
  unfolding restore_msr
  restored-msr = (Entry.msr-Keeps n.cpu.msr (return_msr n.cpu) true endian).0

  pub restored-spr : (restore_msr h n).cpu.spr ≡ n.cpu.spr
  unfolding restore_msr
  restored-spr =
      (Entry.msr-Keeps n.cpu.msr (return_msr n.cpu) true endian).1
      ∙ ap (λ s. s.spr) (Entry.endian-keeps h (return_msr n.cpu) n).0

  restored-gpr :
      (r : ℕ)
      → (restore_msr h n).cpu.gpr r
        ≡ gprs_after (switches_gprs n.cpu.msr (return_msr n.cpu) n.cpu) n r
  unfolding restore_msr
  restored-gpr r =
      let k = Entry.endian-keeps h (return_msr n.cpu) n in
      (Entry.msr-gprs n.cpu.msr (return_msr n.cpu) true endian r).0 ∙ rw (k.0, k.1) refl

  pub restored-IsSwitched : IsSwitched n → IsSwitched (restore_msr h n)
  unfolding restore_msr
  restored-IsSwitched q =
      SameTables-IsSwitched endian (restore_msr h n)
        (Entry.msr-Keeps n.cpu.msr (return_msr n.cpu) true endian).3
        (SameTables-IsSwitched n endian (Entry.endian-keeps h (return_msr n.cpu) n).2 q)

  pub restored-pending :
      ((restore_msr h n).int_pin ≡ n.int_pin)
      × ((restore_msr h n).dec_exception_pending ≡ n.dec_exception_pending)
      × ((restore_msr h n).thrm_exception_pending ≡ n.thrm_exception_pending)
  unfolding restore_msr follow_endian change_endian power_off msr_did_change swap_gprs
  restored-pending = ground arith

resume-IsTranslating :
    {E : Type 0} (h : Host E) (n : Machine E) → IsSwitched n → IsTranslating (resume h n)
unfolding resume
resume-IsTranslating h n q =
    (mode-IsSwitched
      (record n {
        cpu = record n.cpu { next_pc = bit_and (n.cpu.spr Spr.srr0) (not32 3) };
        env = h.do_ctx_sync n.env;
      })
      q).1

miss_parity : (miss : Bool) (b : ℕ) → b ≡ 0 → ((b + to_nat miss) % 2 == 1) ≡ miss
miss_parity true b z = ground arith
miss_parity false b z = ground arith

module _ {E : Type 0} (h : Host E) (ty : ExceptType) (srr1_bits : ℕ) (m n : Machine E) (s : State)
    (shadow_gprs : ℕ → ℕ) (itlb dtlb : ℕ) (e : IsEntry ty srr1_bits m s shadow_gprs itlb dtlb)
    (kept : KeepsContext s shadow_gprs n) (fits : IsRestorable srr1_bits m.cpu) where
  same_603 : n.cpu.is_603 ≡ m.cpu.is_603
  same_603 = kept.is_603 ∙ e.keeps.5

  msr-back : (i : ℕ) → i < 32 → bit (return_msr n.cpu) i ≡ bit m.cpu.msr i
  msr-back i small =
      return_msr-bit n.cpu i small
      ∙ rw (same_603, kept.srr1, e.srr1, kept.msr)
          (round_trip-bit ty m.cpu srr1_bits s.msr i small (e.msr i small) (fits i small).0
            (fits i small).1)

  miss_switches : switches_gprs m.cpu.msr s.msr m.cpu ≡ (m.cpu.is_603 && is_tlb_miss ty)
  miss_switches = elim (Bool-cases m.cpu.is_603) [
    | inl yes' ↦
        rw (yes', tgpr-changes m.cpu.msr s.msr, e.msr 17 (omega arith), yes')
          (miss_parity (is_tlb_miss ty) (bit m.cpu.msr 17)
            ((fits 17 (omega arith)).0 (rw yes' refl)))
    | inr no' ↦ rw no' refl
  ]

  -- GPR0-3 change places again if they did so before.
  switch-back :
      switches_gprs n.cpu.msr (return_msr n.cpu) n.cpu ≡ switches_gprs m.cpu.msr s.msr m.cpu
  switch-back =
      let bits : bit n.cpu.msr 17 + bit (return_msr n.cpu) 17 ≡ bit m.cpu.msr 17 + bit s.msr 17 =
        omega (arith, msr-back 17 (omega arith), ap (λ x. bit x 17) kept.msr) in
      let same =
        tgpr-changes n.cpu.msr (return_msr n.cpu)
        ∙ ap (λ (t : ℕ). t % 2 == 1) bits
        ∙ sym (tgpr-changes m.cpu.msr s.msr) in
      ap (λ b. b && truth (bit_and (bit_xor n.cpu.msr (return_msr n.cpu)) Msr.tgpr)) same_603
      ∙ ap (λ t. m.cpu.is_603 && t) same

  supervisor-mode : truth (bit_and n.cpu.msr Msr.pr) ≡ false
  supervisor-mode =
      truth-bit_and 14 n.cpu.msr ∙ rw (kept.msr, e.msr 14 (omega arith)) (entry_pr m.cpu.is_603)
    where
      entry_pr : (b : Bool) → (plain_bit b (is_tlb_miss ty) m.cpu.msr 14 == 1) ≡ false
      entry_pr true = refl
      entry_pr false = refl

  module _ (quiet : (bit m.cpu.msr 15 == 1 && has_pending n) ≡ false) where
    stays :
        (truth (bit_and (restore_msr h n).cpu.msr Msr.ee) && has_pending (restore_msr h n)) ≡ false
    stays =
        let k = restored-pending h n in
        rw
          (
            restored-msr h n,
            truth-bit_and 15 (return_msr n.cpu),
            msr-back 15 (omega arith),
            k.0,
            k.1,
            k.2,
          )
          quiet

    rfi-resume : rfi h n ≡ returned (resume h (restore_msr h n))
    unfolding rfi supervisor finish_rfi
    rfi-resume = rw (supervisor-mode, stays) refl

    resumed : IsResumed ty m n (resume h (restore_msr h n))
    unfolding resume mmu_change_mode
    resumed =
        let translated =
          resume-IsTranslating h (restore_msr h n) (restored-IsSwitched h n kept.tables) in
        record {
          next_pc =
              ap (λ x. bit_and x (not32 3))
                (ap (λ f. f Spr.srr0) (restored-spr h n)
                  ∙ kept.srr0
                  ∙ (e.srr0 ∙ sym (resume-eq ty m.cpu)));
          msr = λ i small. ap (λ x. bit x i) (restored-msr h n) ∙ msr-back i small;
          gpr = λ j.
              restored-gpr h n j
              ∙ rw (switch-back, kept.shadow j, e.shadow j, miss_switches) (ground arith);
          itable = translated.0;
          dtable = translated.1;
        }

    -- The handler of an exception may change what it likes but SRR0, SRR1, MSR, the shadow registers
    -- and the tables in use. If it leaves these as they are and no interrupt waits that the restored
    -- MSR enables, its `rfi` goes on at the word of the saved address, with every bit of MSR as before
    -- the exception, the translation tables for that MSR, and, after a TLB miss on a 603, GPR0-3 as
    -- before the exception. The bits of MSR that an exception clears and `rfi` does not restore were
    -- 0 before, as are the bits of the cause in the part that `rfi` restores.
    pub rfi-exception_handler : (r : Machine E) × (rfi h n ≡ returned r) × IsResumed ty m n r
    rfi-exception_handler = (resume h (restore_msr h n), rfi-resume, resumed)
