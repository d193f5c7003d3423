-- ===== src/Cpu/Machine/Entry.antt =====
-- What an exception leaves behind (`ppc_exception_handler` of cpu/ppc/ppcexceptions.cpp): the save
-- registers, the vector, the machine state register and the registers that are switched.
use chungusppc.Common.{
  ℕ, ◌+◌, ◌*◌, ◌^◌, ◌≡◌, ◌==◌, ltb, ◌&&◌, refl, ◌∙◌, ap, Bool, Bool-cases, true, false, inl, inr,
  if◌then◌else◌, bit, bit_and, bit_or, bit_xor, truth, arith,
}
use mathlib.Core.Path.{subst}
use chungusppc.Cpu.Machine.EntryMsr.{plain_bit-ip, truth-bit_and, entry_msr-bit}
use chungusppc.Cpu.State.{State}
use chungusppc.Cpu.Msr
use chungusppc.Cpu.Machine.Modes.{
  IsSwitched, IsTranslating, mode-IsSwitched, SameTables, SameTables-IsSwitched,
}
use chungusppc.Cpu.Machine.{
  Machine, Host, power_off, change_endian, swap_gprs, msr_did_change, mmu_change_mode,
}
use chungusppc.Cpu.Machine.Handler.{
  is_tlb_miss, save, follow_endian, vector, synchronize, is_recoverable, ExceptType, except_code,
  entry_msr, enter,
}

-- The registers that an exception leaves alone.
abbrev pub Keeps : State → State → Type 0
Keeps s t =
    (t.cr ≡ s.cr)
    × (t.sr ≡ s.sr)
    × (t.pc ≡ s.pc)
    × (t.reserve ≡ s.reserve)
    × (t.is_601 ≡ s.is_601)
    × (t.is_603 ≡ s.is_603)
    × (t.include_601 ≡ s.include_601)

-- MSR[TGPR] changes on a 603.
abbrev pub switches_gprs : ℕ → ℕ → State → Bool
switches_gprs old new s = s.is_603 && truth (bit_and (bit_xor old new) Msr.tgpr)

-- The general registers and the ones in the shadow, after a change of MSR.
abbrev pub gprs_after : {E : Type 0} → Bool → Machine E → ℕ → ℕ
gprs_after switch m r = if switch && ltb r 4 then m.shadow_gprs r else m.cpu.gpr r

abbrev pub shadow_after : {E : Type 0} → Bool → Machine E → ℕ → ℕ
shadow_after switch m r = if switch && ltb r 4 then m.cpu.gpr r else m.shadow_gprs r

-- The bits of the prefix lie above those of the vectors.
vector_or :
    (ty : ExceptType)
    → bit_or (except_code ty * 2 ^ 8) 0xfff0_0000 ≡ except_code ty * 2 ^ 8 + 0xfff0_0000
unfolding except_code
vector_or ExceptType.exc_system_reset = refl
vector_or _ = refl

module _ {E : Type 0} where
  pub endian-keeps :
      (h : Host E) (new : ℕ) (m : Machine E)
      → ((follow_endian h new m).cpu ≡ m.cpu)
        × ((follow_endian h new m).shadow_gprs ≡ m.shadow_gprs)
        × SameTables m (follow_endian h new m)
  unfolding follow_endian change_endian power_off
  endian-keeps h new m = ground arith

  pub msr-Keeps :
      (old new : ℕ) (b : Bool) (m : Machine E)
      → ((msr_did_change old new b m).cpu.msr ≡ new)
        × ((msr_did_change old new b m).cpu.spr ≡ m.cpu.spr)
        × Keeps m.cpu (msr_did_change old new b m).cpu
        × SameTables m (msr_did_change old new b m)
  unfolding msr_did_change swap_gprs
  msr-Keeps old new b m = ground arith

  pub msr-next_pc :
      (old new : ℕ) (m : Machine E) → (msr_did_change old new false m).cpu.next_pc ≡ m.cpu.next_pc
  unfolding msr_did_change swap_gprs
  msr-next_pc old new m = ground arith

  pub msr-gprs :
      (old new : ℕ) (b : Bool) (m : Machine E) (r : ℕ)
      → ((msr_did_change old new b m).cpu.gpr r ≡ gprs_after (switches_gprs old new m.cpu) m r)
        × ((msr_did_change old new b m).shadow_gprs r
            ≡ shadow_after (switches_gprs old new m.cpu) m r)
  unfolding msr_did_change swap_gprs
  msr-gprs old new b m r = ground arith

  -- The last steps change the address of the handler, the flags of the interpreter and the
  -- translation tables.
  tail-keeps :
      (h : Host E) (ty : ExceptType) (m : Machine E)
      → ((mmu_change_mode (synchronize h (is_recoverable ty) (vector m))).cpu ≡ (vector m).cpu)
        × ((mmu_change_mode (synchronize h (is_recoverable ty) (vector m))).shadow_gprs
            ≡ m.shadow_gprs)
  unfolding mmu_change_mode synchronize vector
  tail-keeps h ty m = elim (Bool-cases (is_recoverable ty)) [
    | inl yes' ↦ rw yes' (refl, refl)
    | inr no' ↦ rw no' (refl, refl)
  ]

  synchronize-IsSwitched :
      (h : Host E) (recoverable : Bool) (m : Machine E)
      → IsSwitched m
      → IsSwitched (synchronize h recoverable m)
  unfolding synchronize
  synchronize-IsSwitched h true m q = q
  synchronize-IsSwitched h false m q = q

  module _ (h : Host E) (ty : ExceptType) (srr1_bits : ℕ) (m : Machine E) where
    abbrev new_msr : ℕ
    new_msr = entry_msr ty m.cpu

    abbrev saved : Machine E
    saved = save ty srr1_bits m

    abbrev switched : Machine E
    switched = msr_did_change m.cpu.msr new_msr false (follow_endian h new_msr saved)

    pub enter-cpu : (enter h ty srr1_bits m).cpu ≡ (vector switched).cpu
    unfolding enter
    enter-cpu = (tail-keeps h ty switched).0

    endian-cpu : (follow_endian h new_msr saved).cpu ≡ saved.cpu
    endian-cpu = (endian-keeps h new_msr saved).0

    pub switched-Keeps : Keeps m.cpu switched.cpu
    unfolding save
    switched-Keeps =
        subst (λ s. Keeps s switched.cpu) endian-cpu
          (msr-Keeps m.cpu.msr new_msr false (follow_endian h new_msr saved)).2

    pub switched-spr : switched.cpu.spr ≡ saved.cpu.spr
    switched-spr =
        (msr-Keeps m.cpu.msr new_msr false (follow_endian h new_msr saved)).1
        ∙ ap (λ s. s.spr) endian-cpu

    pub enter-msr : (enter h ty srr1_bits m).cpu.msr ≡ new_msr
    unfolding vector
    enter-msr =
        ap (λ s. s.msr) enter-cpu
        ∙ (msr-Keeps m.cpu.msr new_msr false (follow_endian h new_msr saved)).0

    switched-next_pc : switched.cpu.next_pc ≡ except_code ty * 2 ^ 8
    unfolding save
    switched-next_pc =
        msr-next_pc m.cpu.msr new_msr (follow_endian h new_msr saved)
        ∙ ap (λ s. s.next_pc) endian-cpu

    prefix :
        (b : Bool)
        → (if b then bit_or (except_code ty * 2 ^ 8) 0xfff0_0000 else except_code ty * 2 ^ 8)
          ≡ except_code ty * 2 ^ 8 + (if b then 0xfff0_0000 else 0)
    prefix true = vector_or ty
    prefix false = omega arith

    pub enter-next_pc :
        (enter h ty srr1_bits m).cpu.next_pc
        ≡ except_code ty * 2 ^ 8 + (if bit m.cpu.msr 6 == 1 then 0xfff0_0000 else 0)
    unfolding vector
    enter-next_pc =
        ap (λ s. s.next_pc) enter-cpu
        ∙ rw
            (
              switched-next_pc,
              (msr-Keeps m.cpu.msr new_msr false (follow_endian h new_msr saved)).0,
            )
            (rw
              (
                truth-bit_and 6 new_msr,
                entry_msr-bit ty m.cpu 6 (omega arith),
                plain_bit-ip m.cpu.is_603 (is_tlb_miss ty) m.cpu.msr,
              )
              (prefix (bit m.cpu.msr 6 == 1)))

    fields-IsSwitched :
        IsSwitched m → IsSwitched (synchronize h (is_recoverable ty) (vector switched))
    unfolding vector save
    fields-IsSwitched q =
        let q1 =
          SameTables-IsSwitched saved (follow_endian h new_msr saved)
            (endian-keeps h new_msr saved).2 q in
        let q2 =
          SameTables-IsSwitched (follow_endian h new_msr saved) switched
            (msr-Keeps m.cpu.msr new_msr false (follow_endian h new_msr saved)).3 q1 in
        synchronize-IsSwitched h (is_recoverable ty) (vector switched) q2

    pub enter-IsSwitched :
        IsSwitched m → IsSwitched (enter h ty srr1_bits m) × IsTranslating (enter h ty srr1_bits m)
    unfolding enter
    enter-IsSwitched q = mode-IsSwitched _ (fields-IsSwitched q)

    pub enter-gprs :
        (r : ℕ)
        → ((enter h ty srr1_bits m).cpu.gpr r
            ≡ gprs_after (switches_gprs m.cpu.msr new_msr m.cpu) m r)
          × ((enter h ty srr1_bits m).shadow_gprs r
              ≡ shadow_after (switches_gprs m.cpu.msr new_msr m.cpu) m r)
    unfolding enter vector save
    enter-gprs r =
        let g = msr-gprs m.cpu.msr new_msr false (follow_endian h new_msr saved) r in
        let k = endian-keeps h new_msr saved in
        (
          ap (λ s. s.gpr r) enter-cpu ∙ g.0 ∙ rw (k.0, k.1) refl,
          ap (λ f. f r) (tail-keeps h ty switched).1 ∙ g.1 ∙ rw (k.0, k.1) refl,
        )
