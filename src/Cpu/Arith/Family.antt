-- ===== src/Cpu/Arith/Family.antt =====
-- The adding and the subtracting instructions, each family under one specification.
use chungusppc.Common.{ℕ, Bool, true, false, not32}
use chungusppc.Cpu.State.{State, IsWord}
use chungusppc.Cpu.Decode.{reg_a, reg_b, reg_d, simm}
use chungusppc.Cpu.Flags.{xer_ca}
use chungusppc.Cpu.Arith.{add, adde, addme, addze, subf, subfe, subfme, subfze, neg, addic, subfic}
use chungusppc.Cpu.Arith.Spec.{IsSum}
use chungusppc.Cpu.Arith.Sums.{add-IsSum, adde-IsSum, addme-IsSum, addze-IsSum, addic-IsSum}
use chungusppc.Cpu.Arith.Sums.{
  subf-IsSum, subfe-IsSum, subfme-IsSum, subfze-IsSum, neg-IsSum, subfic-IsSum,
}

-- On a state of machine words, `add` and `addc` give rA + rB, `adde` rA + rB + CA, `addme`
-- rA - 1 + CA, `addze` rA + CA and `addic` rA + SIMM, modulo 2 ^ 32; XER[CA] is the carry out (all
-- but `add`), XER[OV] the signed overflow of the operands and XER[SO] gathers it where OE is set,
-- CR0 describes the result where Rc is set, and nothing else changes.
pub adds-IsSum :
    (with_carry rec ov : Bool) (s : State) (op : ℕ)
    → IsWord s
    → let a = s.gpr (reg_a op) in
      let b = s.gpr (reg_b op) in
      let d = reg_d op in
      IsSum with_carry rec ov a b 0 d s (add with_carry rec ov s op)
      × IsSum true rec ov a b (xer_ca s) d s (adde rec ov s op)
      × IsSum true rec ov a 0xffff_ffff (xer_ca s) d s (addme rec ov s op)
      × IsSum true rec ov a 0 (xer_ca s) d s (addze rec ov s op)
      × IsSum true rec false a (simm op) 0 d s (addic rec s op)
adds-IsSum wc rec ov s op w = (
  add-IsSum s op w wc rec ov,
  adde-IsSum s op w rec ov,
  addme-IsSum s op w rec ov,
  addze-IsSum s op w rec ov,
  addic-IsSum s op w rec,
)

-- On a state of machine words, `subf` and `subfc` give the complement of rA plus rB plus 1, `subfe`
-- ~rA + rB + CA, `subfme` ~rA - 1 + CA, `subfze` ~rA + CA, `neg` ~rA + 1 and `subfic` ~rA + SIMM + 1,
-- modulo 2 ^ 32; XER[CA] is the carry out (all but `subf` and `neg`), XER[OV] the signed overflow and
-- XER[SO] gathers it where OE is set, CR0 describes the result where Rc is set, and nothing else
-- changes.
pub subtracts-IsSum :
    (with_carry rec ov : Bool) (s : State) (op : ℕ)
    → IsWord s
    → let a = not32 (s.gpr (reg_a op)) in
      let b = s.gpr (reg_b op) in
      let d = reg_d op in
      IsSum with_carry rec ov a b 1 d s (subf with_carry rec ov s op)
      × IsSum true rec ov a b (xer_ca s) d s (subfe rec ov s op)
      × IsSum true rec ov a 0xffff_ffff (xer_ca s) d s (subfme rec ov s op)
      × IsSum true rec ov a 0 (xer_ca s) d s (subfze rec ov s op)
      × IsSum false rec ov a 0 1 d s (neg rec ov s op)
      × IsSum true false false a (simm op) 1 d s (subfic s op)
subtracts-IsSum wc rec ov s op w = (
  subf-IsSum s op w wc rec ov,
  subfe-IsSum s op w rec ov,
  subfme-IsSum s op w rec ov,
  subfze-IsSum s op w rec ov,
  neg-IsSum s op w rec ov,
  subfic-IsSum s op w,
)
