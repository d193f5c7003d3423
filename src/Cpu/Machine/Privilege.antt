-- ===== src/Cpu/Machine/Privilege.antt =====
-- The supervisor instructions of cpu/ppc/ppcopcodes.cpp in user mode, and the segment registers.
use chungusppc.Common.{
  ℕ, ◌≡◌, ◌≢◌, ◌==◌, ==_iff, refl, sym, ◌∙◌, ap, Bool-cases, true, false, inl, inr, bit_and, truth,
  ◌>>>◌, arith,
}
use mathlib.Core.Path.{subst}
use chungusppc.Cpu.State.{set_gpr}
use chungusppc.Cpu.Decode.{reg_d, reg_b}
use chungusppc.Cpu.Msr
use chungusppc.Cpu.Machine.{Machine, Host}
use chungusppc.Cpu.Machine.Modes.{IsSwitched}
use chungusppc.Cpu.Machine.Architecture.{leaves}
use chungusppc.Cpu.Machine.Handled.{IsEntry, Ends, exception_handler-IsEntry}
use chungusppc.Cpu.Machine.Handler.{
  ExceptType, Flow, returned, and_then, not_allowed, return_to, is_unknown, is_asynchronous,
}
use chungusppc.Cpu.Machine.Supervisor.{
  supervisor, sr_field, write_sr, rfi, mfmsr, mtmsr, mtsr, mtsrin, mfsr, mfsrin,
}

module _ {E : Type 0} (h : Host E) where
  -- The instruction ends in a program exception for privileged code.
  abbrev pub IsRefused : Machine E → Flow E → Type 0
  IsRefused m f =
      Ends (λ e. IsEntry ExceptType.exc_program not_allowed m e.cpu e.shadow_gprs e.itlb e.dtlb)
        leaves f

  refused :
      (m : Machine E) (rest : Machine E → Flow E)
      → truth (bit_and m.cpu.msr Msr.pr) ≡ true
      → IsSwitched m
      → IsRefused m (supervisor h m rest)
  unfolding supervisor is_unknown return_to is_asynchronous
  refused m rest user q =
      rw user (exception_handler-IsEntry h ExceptType.exc_program not_allowed m q)

  -- In user mode, with tables in use that are those of the recorded modes, the supervisor instructions end in a program exception for a privileged
  -- instruction and change nothing else: registers, MSR and segment registers are as the exception leaves them.
  pub supervisor-IsRefused :
      (opcode : ℕ) (m : Machine E)
      → truth (bit_and m.cpu.msr Msr.pr) ≡ true
      → IsSwitched m
      → IsRefused m (rfi h m)
        × IsRefused m (mfmsr h opcode m)
        × IsRefused m (mtmsr h opcode m)
        × IsRefused m (mtsr h opcode m)
        × IsRefused m (mtsrin h opcode m)
        × IsRefused m (mfsr h opcode m)
        × IsRefused m (mfsrin h opcode m)
  unfolding rfi mfmsr mtmsr mtsr mtsrin mfsr mfsrin
  supervisor-IsRefused opcode m user q = (
    refused m _ user q,
    refused m _ user q,
    refused m _ user q,
    refused m _ user q,
    refused m _ user q,
    refused m _ user q,
    refused m _ user q,
  )

  write_sr-keeps :
      (n val : ℕ) (m : Machine E)
      → ((write_sr h n val m).cpu.msr ≡ m.cpu.msr)
        × ((write_sr h n val m).cpu.gpr ≡ m.cpu.gpr)
        × ((write_sr h n val m).cpu.sr n ≡ val)
        × ((j : ℕ) → j ≢ n → (write_sr h n val m).cpu.sr j ≡ m.cpu.sr j)
  unfolding write_sr
  write_sr-keeps n val m = elim (Bool-cases (m.cpu.sr n == val)) [
    | inl same ↦ rw same (refl, refl, (==_iff (m.cpu.sr n) val).0 same, λ j ne. refl)
    | inr other ↦ rw other (refl, refl, ground arith, λ j ne. ground arith)
  ]

  -- What a move to a segment register and back leaves behind
  abbrev pub IsCopied : ℕ → ℕ → ℕ → Machine E → Flow E → Type 0
  IsCopied n src dst m f =
      (r : Machine E) × (f ≡ returned r)
      × (r.cpu.gpr dst ≡ m.cpu.gpr src)
      × (r.cpu.sr n ≡ m.cpu.gpr src)
      × ((j : ℕ) → j ≢ dst → r.cpu.gpr j ≡ m.cpu.gpr j)
      × ((j : ℕ) → j ≢ n → r.cpu.sr j ≡ m.cpu.sr j)

  copied :
      (n src dst : ℕ) (m : Machine E)
      → IsCopied n src dst m (
          returned (record (write_sr h n (m.cpu.gpr src) m) {
            cpu =
                set_gpr
                  (write_sr h n (m.cpu.gpr src) m).cpu
                  dst
                  ((write_sr h n (m.cpu.gpr src) m).cpu.sr n);
          }))
  copied n src dst m =
      let k = write_sr-keeps n (m.cpu.gpr src) m in
      (_, refl, ground (arith, k.2), k.2, λ j ne. ground (arith, ap (λ f. f j) k.1), k.3)

  allowed :
      (m : Machine E) (rest : Machine E → Flow E)
      → truth (bit_and m.cpu.msr Msr.pr) ≡ false
      → supervisor h m rest ≡ rest m
  unfolding supervisor
  allowed m rest mode = rw mode refl

  read_back :
      (n src dst : ℕ) (m : Machine E)
      → truth (bit_and m.cpu.msr Msr.pr) ≡ false
      → (k : Machine E → ℕ) → k (write_sr h n (m.cpu.gpr src) m) ≡ n
      → supervisor h
          (write_sr h n (m.cpu.gpr src) m)
          (λ w. returned (record w { cpu = set_gpr w.cpu dst (w.cpu.sr (k w)) }))
        ≡ returned (record (write_sr h n (m.cpu.gpr src) m) {
          cpu =
              set_gpr
                (write_sr h n (m.cpu.gpr src) m).cpu
                dst
                ((write_sr h n (m.cpu.gpr src) m).cpu.sr n);
        })
  read_back n src dst m mode k e =
      let w = write_sr h n (m.cpu.gpr src) m in
      allowed w (λ w. returned (record w { cpu = set_gpr w.cpu dst (w.cpu.sr (k w)) }))
        (ap (λ x. truth (bit_and x Msr.pr)) (write_sr-keeps n (m.cpu.gpr src) m).0 ∙ mode)
      ∙ ap (λ i. returned (record w { cpu = set_gpr w.cpu dst (w.cpu.sr i) })) e

  moved :
      (a b : ℕ) (m : Machine E)
      → truth (bit_and m.cpu.msr Msr.pr) ≡ false
      → sr_field a ≡ sr_field b
      → let w = write_sr h (sr_field a) (m.cpu.gpr (reg_d a)) m in
        and_then (mtsr h a m) (mfsr h b)
        ≡ returned (record w { cpu = set_gpr w.cpu (reg_d b) (w.cpu.sr (sr_field a)) })
  unfolding mtsr mfsr and_then
  moved a b m mode field =
      ap (λ f. and_then f (mfsr h b)) (allowed m _ mode)
      ∙ read_back (sr_field a) (reg_d a) (reg_d b) m mode (λ _. sr_field b) (sym field)

  moved_in :
      (a b : ℕ) (m : Machine E)
      → truth (bit_and m.cpu.msr Msr.pr) ≡ false
      → m.cpu.gpr (reg_b a) >>> 28 ≡ m.cpu.gpr (reg_b b) >>> 28
      → let n = m.cpu.gpr (reg_b a) >>> 28 in
        let w = write_sr h n (m.cpu.gpr (reg_d a)) m in
        and_then (mtsrin h a m) (mfsrin h b)
        ≡ returned (record w { cpu = set_gpr w.cpu (reg_d b) (w.cpu.sr n) })
  unfolding mtsrin mfsrin and_then
  moved_in a b m mode address =
      let n = m.cpu.gpr (reg_b a) >>> 28 in
      ap (λ f. and_then f (mfsrin h b)) (allowed m _ mode)
      ∙ read_back n (reg_d a) (reg_d b) m mode (λ w. w.cpu.gpr (reg_b b) >>> 28)
          (ap (λ g. g (reg_b b) >>> 28) (write_sr-keeps n (m.cpu.gpr (reg_d a)) m).1 ∙ sym address)

  -- In supervisor mode, `mfsr` after `mtsr` on one segment register gives the value that was moved there, and
  -- so do `mfsrin` and `mtsrin` on addresses in one segment; no other general or segment register changes.
  pub mfsr-mtsr :
      (a b : ℕ) (m : Machine E)
      → truth (bit_and m.cpu.msr Msr.pr) ≡ false
      → sr_field a ≡ sr_field b
      → m.cpu.gpr (reg_b a) >>> 28 ≡ m.cpu.gpr (reg_b b) >>> 28
      → IsCopied (sr_field a) (reg_d a) (reg_d b) m (and_then (mtsr h a m) (mfsr h b))
        × IsCopied
            (m.cpu.gpr (reg_b a) >>> 28)
            (reg_d a)
            (reg_d b)
            m
            (and_then (mtsrin h a m) (mfsrin h b))
  mfsr-mtsr a b m mode field address = (
    subst (IsCopied (sr_field a) (reg_d a) (reg_d b) m) (sym (moved a b m mode field))
        (copied (sr_field a) (reg_d a) (reg_d b) m),
    subst (IsCopied (m.cpu.gpr (reg_b a) >>> 28) (reg_d a) (reg_d b) m)
        (sym (moved_in a b m mode address))
        (copied (m.cpu.gpr (reg_b a) >>> 28) (reg_d a) (reg_d b) m),
  )
