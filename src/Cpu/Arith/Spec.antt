-- ===== src/Cpu/Arith/Spec.antt =====
-- What an instruction that adds two words and a carry promises, independent of how it computes.
use chungusppc.Common.{ℕ, ◌+◌, ◌/◌, ◌%◌, ◌^◌, ◌<◌, ◌≡◌, ◌≢◌, Bool, not, ◌&&◌, to_nat}
use chungusppc.Common.{if◌then◌else◌, bit, max, leb, ltb}
use chungusppc.Common.Int.{ℤ, pos, signed32, ◌+ℤ◌, pos_part, neg_part}
use chungusppc.Cpu.State.{State}
use chungusppc.Cpu.Flags.Bits.{xer_bit, cr0_bit}

-- The number is no `int32_t`.
abbrev pub overflows : ℤ → Bool
overflows z = not (ltb (pos_part z) (2 ^ 31) && leb (neg_part z) (2 ^ 31))

abbrev pub sum_overflows : ℕ → ℕ → ℕ → Bool
sum_overflows a b c = overflows (signed32 a +ℤ signed32 b +ℤ pos c)

-- `s'` is `s` after register `d` got `a + b + c`: `with_carry` says whether XER[CA] is the carry out
-- of the unsigned sum, `ov` whether XER[OV] is the overflow of the signed sum and XER[SO] gathers
-- it, `rec` whether CR0 describes the result. All else is as it was.
pub record IsSum (with_carry rec ov : Bool) (a b c d : ℕ) (s s' : State) : Type 0 where
  pub result : s'.gpr d ≡ (a + b + c) % 2 ^ 32
  pub other_gpr : (r : ℕ) → r ≢ d → s'.gpr r ≡ s.gpr r
  pub xer_ca : xer_bit s' 29 ≡ (if with_carry then (a + b + c) / 2 ^ 32 else xer_bit s 29)
  pub xer_ov : xer_bit s' 30 ≡ (if ov then to_nat (sum_overflows a b c) else xer_bit s 30)
  pub xer_so :
      xer_bit s' 31
      ≡ (if ov then max (xer_bit s 31) (to_nat (sum_overflows a b c)) else xer_bit s 31)
  pub xer_rest : (i : ℕ) → i < 29 → xer_bit s' i ≡ xer_bit s i
  pub other_spr : (r : ℕ) → r ≢ 1 → s'.spr r ≡ s.spr r
  pub cr :
      (i : ℕ)
      → i < 32
      → bit s'.cr i
        ≡ (if rec then cr0_bit s.cr (xer_bit s' 31) ((a + b + c) % 2 ^ 32) i else bit s.cr i)
  pub keeps :
      (s'.pc ≡ s.pc)
      × (s'.msr ≡ s.msr)
      × (s'.sr ≡ s.sr)
      × (s'.reserve ≡ s.reserve)
      × (s'.next_pc ≡ s.next_pc)
      × (s'.exec_flags ≡ s.exec_flags)
