-- ===== src/Cpu/Write.antt =====
-- What an instruction promises that writes one general register and, with `rec`, records the
-- result in CR0.
use chungusppc.Common.{ℕ, ◌<◌, ◌≡◌, ◌≢◌, refl, arith, Bool, true, false, if◌then◌else◌, bit}
use chungusppc.Cpu.State.{State, set_gpr}
use chungusppc.Cpu.Flags.{changecrf0}
use chungusppc.Cpu.Flags.Bits.{xer_bit, cr0_bit, changecrf0-cr0_bit}

pub record IsWrite (rec : Bool) (r v : ℕ) (s s' : State) : Type 0 where
  pub result : s'.gpr r ≡ v
  pub other_gpr : (j : ℕ) → j ≢ r → s'.gpr j ≡ s.gpr j
  pub spr : s'.spr ≡ s.spr
  pub cr :
      (i : ℕ) → i < 32 → bit s'.cr i ≡ (if rec then cr0_bit s.cr (xer_bit s 31) v i else bit s.cr i)
  pub keeps :
      (s'.pc ≡ s.pc)
      × (s'.msr ≡ s.msr)
      × (s'.sr ≡ s.sr)
      × (s'.reserve ≡ s.reserve)
      × (s'.next_pc ≡ s.next_pc)
      × (s'.exec_flags ≡ s.exec_flags)

pub IsWrite-end :
    (rec : Bool) (r v : ℕ) (s : State)
    → IsWrite rec r v s (set_gpr (if rec then changecrf0 s v else s) r v)
unfolding changecrf0
IsWrite-end true r v s = record {
  result = ground arith;
  other_gpr = λ j ne. ground arith;
  spr = refl;
  cr = λ i h. changecrf0-cr0_bit s v i h;
  keeps = (refl, refl, refl, refl, refl, refl);
}
IsWrite-end false r v s = record {
  result = ground arith;
  other_gpr = λ j ne. ground arith;
  spr = refl;
  cr = λ i h. refl;
  keeps = (refl, refl, refl, refl, refl, refl);
}
