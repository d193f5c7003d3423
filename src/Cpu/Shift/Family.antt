-- ===== src/Cpu/Shift/Family.antt =====
-- The shifts of the PowerPC by a register or a field (cpu/ppc/ppcopcodes.cpp).
use chungusppc.Common.{ℕ, ◌*◌, ◌/◌, ◌%◌, ◌^◌, ◌≡◌, Bool, if◌then◌else◌, truth, ◌&&◌, min, is_neg}
use chungusppc.Common.Int.{signed32, shr_ℤ}
use chungusppc.Cpu.State.{State, IsWord}
use chungusppc.Cpu.Decode.{reg_a, reg_b, reg_d}
use chungusppc.Cpu.Write.{IsWrite}
use chungusppc.Cpu.Shift.{shift, sraw, srawi}
use chungusppc.Cpu.Shift.Amount.{shift-IsWrite}
use chungusppc.Cpu.Shift.Arithmetic.{IsCarryWrite, sra-IsCarryWrite}

-- On a state of machine words, `slw` and `srw` shift rS by rB modulo 64, so that an amount of 32 or more
-- gives 0; CR0 describes the result where Rc is set, and nothing else changes.
-- On a state of machine words, `srawi` divides the signed rS by the power of two of its field, and
-- `sraw` by that of rB modulo 64, and they round down; an amount of 32 or more leaves only the sign.
-- XER[CA] tells that rS is negative and that bits were lost, CR0 describes the result where Rc is
-- set, and nothing else changes.
pub shifts_lem :
    (is_left rec : Bool) (s : State) (op : ℕ)
    → IsWord s
    → (let x = s.gpr (reg_d op) in
        let n = s.gpr (reg_b op) % 64 in
        IsWrite rec
          (reg_a op)
          (if is_left then x * 2 ^ n % 2 ^ 32 else x / 2 ^ n)
          s
          (shift is_left rec s op))
      × (let x = s.gpr (reg_d op) in
          let n = reg_b op in
          let m = s.gpr (reg_b op) % 64 in
          ((v : ℕ) × (signed32 v ≡ shr_ℤ (signed32 x) n)
            × IsCarryWrite rec (reg_a op) v (is_neg x && truth (x % 2 ^ n)) s (srawi rec s op))
          × ((v : ℕ) × (signed32 v ≡ shr_ℤ (signed32 x) (min m 31))
              × IsCarryWrite rec (reg_a op) v (is_neg x && truth (x % 2 ^ m)) s (sraw rec s op)))
shifts_lem is_left rec s op w = (shift-IsWrite is_left rec s op w, sra-IsCarryWrite rec s op w)
