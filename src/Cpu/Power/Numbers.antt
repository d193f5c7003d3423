-- ===== src/Cpu/Power/Numbers.antt =====
-- The arithmetic of the POWER architecture (cpu/ppc/poweropcodes.cpp).
use chungusppc.Common.{ℕ, ◌≡◌, Bool, false}
use chungusppc.Common.Int.{pos, signed32, wrap_ℤ, ◌*ℤ◌, ◌-ℤ◌}
use chungusppc.Cpu.State.{State, IsWord}
use chungusppc.Cpu.Decode.{reg_a, reg_b, reg_d, simm}
use chungusppc.Cpu.Effect.{IsEffect, ov_bits}
use chungusppc.Cpu.Write.{IsWrite}
use chungusppc.Cpu.Arith.Spec.{overflows}
use chungusppc.Cpu.Multiply.Division.{no_quotient}
use chungusppc.Cpu.Multiply.Laws.{double_word}
use chungusppc.Cpu.Power.{abs, nabs, doz, dozi, mul, divs}
use chungusppc.Cpu.Power.Overflow.{
  IsNumber, DivsGives, abs_ℤ, monus_ℤ, differences-IsNumber, mul-divs-IsEffect,
}

-- On a state of machine words, `abs` gives the absolute value of the signed rA, `nabs` its negative,
-- `doz` the difference rB - rA or zero if that is negative, and `dozi` that of the immediate, as words;
-- where OE is set, XER[OV] tells whether the number is no `int32_t`; CR0 describes the result where Rc
-- is set, and nothing else changes.
-- On a state of machine words, `mul` gives the high word of the signed product of rA and rB, and its
-- low word in MQ; where OE is set, XER[OV] tells whether the product is no `int32_t`; CR0 describes the
-- low word. `divs` gives the signed quotient and, in MQ, its remainder, which is smaller than rB and of
-- the sign of rA, and clears XER[OV] where OE is set. Where rB is 0 it gives -1 and rA, and for the
-- least number by -1 the least number and 0, and reports the overflow where OE is set. CR0 describes
-- the remainder. Both write CR0 where Rc is set, and change nothing else.
pub power_numbers_lem :
    (rec ov : Bool) (s : State) (op : ℕ)
    → IsWord s
    → (let a = signed32 (s.gpr (reg_a op)) in
        let b = signed32 (s.gpr (reg_b op)) in
        IsNumber rec ov (reg_d op) (abs_ℤ a) s (abs rec ov s op)
        × IsNumber rec ov (reg_d op) (pos 0 -ℤ abs_ℤ a) s (nabs rec ov s op)
        × IsNumber rec ov (reg_d op) (monus_ℤ b a) s (doz rec ov s op)
        × IsWrite false (reg_d op) (wrap_ℤ 32 (monus_ℤ (signed32 (simm op)) a)) s (dozi s op))
      × (let a = signed32 (s.gpr (reg_a op)) in
          let b = signed32 (s.gpr (reg_b op)) in
          ((hi lo : ℕ) × (double_word hi lo ≡ a *ℤ b)
            × IsEffect rec
                (reg_d op)
                hi
                lo
                lo
                (ov_bits ov (overflows (a *ℤ b)) s)
                s
                (mul rec ov s op))
          × ((q r : ℕ) × DivsGives (s.gpr (reg_a op)) (s.gpr (reg_b op)) q r
              × IsEffect rec
                  (reg_d op)
                  q
                  r
                  r
                  (ov_bits ov (no_quotient (s.gpr (reg_a op)) (s.gpr (reg_b op))) s)
                  s
                  (divs rec ov s op)))
power_numbers_lem rec ov s op w =
    (differences-IsNumber rec ov s op w, mul-divs-IsEffect rec ov s op w)
