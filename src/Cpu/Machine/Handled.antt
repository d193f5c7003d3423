-- ===== src/Cpu/Machine/Handled.antt =====
-- `ppc_exception_handler` of cpu/ppc/ppcexceptions.cpp, for every type of exception that it knows.
use chungusppc.Common.{
  ℕ, ◌+◌, ◌<◌, ◌≡◌, ◌≢◌, ◌==◌, not, ◌&&◌, sym, ◌∙◌, ap, Bool-cases, inl, inr, if◌then◌else◌, bit,
  bit_and, bit_or, arith,
}
use mathlib.Core.Path.{subst}
use chungusppc.Cpu.State.{State}
use chungusppc.Cpu.Msr
use chungusppc.Cpu.Spr
use chungusppc.Cpu.Machine.{Machine, Host}
use chungusppc.Cpu.Machine.Modes.{IsSwitched, table_for}
use chungusppc.Cpu.Machine.EntryMsr.{entry_bit, entry_msr-bit}
use chungusppc.Cpu.Machine.Entry
use chungusppc.Cpu.Machine.Entry.{Keeps, switches_gprs, gprs_after, shadow_after}
use chungusppc.Cpu.Machine.Handler.{
  ExceptType, return_to, is_unknown, is_asynchronous, is_endian_switch, enter, exception_handler,
  vector, save, Flow, returned, jumped, aborted,
}
use chungusppc.Cpu.Machine.Architecture.{
  Ending, goes_on, leaves, unsupported, handler_offset, resume_address, ending, offset-eq,
  resume-eq, ending-eq,
}

-- The registers s, the shadow registers and the tables after an exception on the machine m.
pub record IsEntry {E : Type 0} (ty : ExceptType) (srr1_bits : ℕ) (m : Machine E) (s : State)
    (shadow_gprs : ℕ → ℕ) (itlb dtlb : ℕ) : Type 0 where
  pub srr0 : s.spr Spr.srr0 ≡ resume_address ty m.cpu
  pub srr1 : s.spr Spr.srr1 ≡ bit_or (bit_and m.cpu.msr 0xff73) srr1_bits
  pub spr : (r : ℕ) → r ≢ Spr.srr0 → r ≢ Spr.srr1 → s.spr r ≡ m.cpu.spr r
  pub msr : (i : ℕ) → i < 32 → bit s.msr i ≡ entry_bit ty m.cpu i
  pub next_pc : s.next_pc ≡ handler_offset ty + (if bit m.cpu.msr 6 == 1 then 0xfff0_0000 else 0)
  pub flags : s.exec_flags ≡ 2
  pub gpr : (r : ℕ) → s.gpr r ≡ gprs_after (switches_gprs m.cpu.msr s.msr m.cpu) m r
  pub shadow : (r : ℕ) → shadow_gprs r ≡ shadow_after (switches_gprs m.cpu.msr s.msr m.cpu) m r
  pub keeps : Keeps m.cpu s
  pub itable : itlb ≡ table_for s.msr Msr.ir
  pub dtable : dtlb ≡ table_for s.msr Msr.dr

-- The flow ends as the type says: the call returns, it leaves for the main loop, or the emulator is
-- aborted; the first two with such a machine.
abbrev pub Ends : {E : Type 0} → (Machine E → Type 0) → Ending → Flow E → Type 0
Ends P goes_on (returned m) = P m
Ends P leaves (jumped m) = P m
Ends P unsupported aborted = Unit {0}
Ends P _ _ = ⊥

module _ {E : Type 0} (h : Host E) (ty : ExceptType) (srr1_bits : ℕ) (m : Machine E) where
  abbrev Entered : Machine E → Type 0
  Entered e = IsEntry ty srr1_bits m e.cpu e.shadow_gprs e.itlb e.dtlb

  pub enter-IsEntry : IsSwitched m → Entered (enter h ty srr1_bits m)
  unfolding vector save
  enter-IsEntry q =
      let cpu = Entry.enter-cpu h ty srr1_bits m in
      let spr : (enter h ty srr1_bits m).cpu.spr ≡ (save ty srr1_bits m).cpu.spr =
        ap (λ s. s.spr) cpu ∙ Entry.switched-spr h ty srr1_bits m in
      let msr = Entry.enter-msr h ty srr1_bits m in
      let tables = (Entry.enter-IsSwitched h ty srr1_bits m q).1 in
      record {
        srr0 = ap (λ f. f Spr.srr0) spr ∙ resume-eq ty m.cpu;
        srr1 = ap (λ f. f Spr.srr1) spr;
        spr = λ r ne0 ne1. ap (λ f. f r) spr ∙ ground arith;
        msr = λ i h. ap (λ x. bit x i) msr ∙ entry_msr-bit ty m.cpu i h;
        next_pc =
            Entry.enter-next_pc h ty srr1_bits m
            ∙ ap (λ (n : ℕ). n + (if bit m.cpu.msr 6 == 1 then 0xfff0_0000 else 0)) (offset-eq ty);
        flags = ap (λ s. s.exec_flags) cpu;
        gpr = λ r. rw msr (Entry.enter-gprs h ty srr1_bits m r).0;
        shadow = λ r. rw msr (Entry.enter-gprs h ty srr1_bits m r).1;
        keeps = subst (Keeps m.cpu) (sym cpu) (Entry.switched-Keeps h ty srr1_bits m);
        itable = tables.0;
        dtable = tables.1;
      }

  ended :
      IsSwitched m
      → Ends Entered
          (if is_unknown (return_to ty)
            then unsupported
            else if is_asynchronous ty
            then goes_on
            else leaves)
          (exception_handler h ty srr1_bits m)
  unfolding exception_handler
  ended q = elim (Bool-cases (is_unknown (return_to ty))) [
    | inl unknown ↦ rw unknown tt
    | inr known ↦ elim (Bool-cases (is_asynchronous ty)) [
      | inl back ↦ rw (known, back) (enter-IsEntry q)
      | inr away ↦
          rw (known, away)
            (elim (Bool-cases (
              not (enter h ty srr1_bits m).power_on
              && is_endian_switch (enter h ty srr1_bits m).power_off_reason)) [
                | inl on ↦ rw on (enter-IsEntry q)
                | inr off ↦ rw off (enter-IsEntry q)
              ])
    ]
  ]

  pub exception_handler-IsEntry :
      IsSwitched m → Ends Entered (ending ty) (exception_handler h ty srr1_bits m)
  exception_handler-IsEntry q =
      subst (λ end. Ends Entered end (exception_handler h ty srr1_bits m)) (ending-eq ty) (ended q)
