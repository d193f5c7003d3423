-- ===== src/Cpu/Memory/Trap.antt =====
-- The conditional traps.
use chungusppc.Common.{ℕ, ◌==◌, ltb, ◌&&◌, ◌||◌, if◌then◌else◌, Bool, truth, bit_and, ◌>>>◌}
use chungusppc.Common.Int.{signed32, ltb_ℤ}
use chungusppc.Cpu.State.{State}
use chungusppc.Cpu.Decode.{reg_a, reg_b, simm}
use chungusppc.Cpu.Memory.{Outcome, done, stopped, trap}

abbrev pub trap_to : ℕ → ℕ
trap_to op = bit_and (op >>> 21) 0x1f

-- The five conditions of TO; equal words are equal signed numbers.
pub trap_test : ℕ → ℕ → ℕ → Bool
trap_test to a b =
    ltb_ℤ (signed32 a) (signed32 b) && truth (bit_and to 0x10)
    || (ltb_ℤ (signed32 b) (signed32 a) && truth (bit_and to 0x08)
        || (a == b && truth (bit_and to 0x04)
            || (ltb a b && truth (bit_and to 0x02) || ltb b a && truth (bit_and to 0x01))))

module _ {M : Type 0} where
  unfoldable pub tw : State → ℕ → M → Outcome M
  unfolding trap_test
  tw s op m =
      if trap_test (trap_to op) (s.gpr (reg_a op)) (s.gpr (reg_b op))
      then stopped trap s m
      else done s m

  unfoldable pub twi : State → ℕ → M → Outcome M
  unfolding trap_test
  twi s op m =
      if trap_test (trap_to op) (s.gpr (reg_a op)) (simm op) then stopped trap s m else done s m
