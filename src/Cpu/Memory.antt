-- ===== src/Cpu/Memory.antt =====
-- The integer loads and stores of cpu/ppc/ppcopcodes.cpp, over the interface of the memory management
-- unit, and the traps.
pub mod Load
pub mod Store
pub mod Trap
pub mod Laws
pub mod Reservation
use chungusppc.Common.{ℕ, ◌+◌, ◌==◌, if◌then◌else◌, Bool, true, false, u32, Option, some, none}
use chungusppc.Cpu.State.{State, set_gpr}
use chungusppc.Cpu.Decode.{reg_a, reg_b, simm}

-- Why an instruction is left before its end: the exception handler does not return to it.
pub data Stop : Type 0 where
  fault illegal trap : Stop
  alignment : ℕ → Stop

-- An instruction ends, or stops in the state where it left off.
pub data Outcome (M : Type 0) : Type 0 where
  done : State → M → Outcome M
  stopped : Stop → State → M → Outcome M

-- An access gives a value, or it faults; the translation has then written to the special registers
-- (DSISR and DAR, or on a 603 those of a miss).
pub data Access (A : Type 0) : Type 0 where
  got : A → Access A
  faulted : State → Access A

-- `mmu_read_vmem<T>` and `mmu_write_vmem<T>` with the size of `T` in bytes, the opcode, the address and
-- for a write the value, in a state of the processor. `M` is the state of memory and devices, with that
-- of the memory management unit.
pub record Mmu (M : Type 0) : Type 0 where
  pub read : ℕ → ℕ → ℕ → State → M → Access ℕ × M
  pub write : ℕ → ℕ → ℕ → ℕ → State → M → Access (Unit {0}) × M

-- rA, or 0 if the field names register 0.
abbrev pub base : State → ℕ → ℕ
base s op = if reg_a op == 0 then 0 else s.gpr (reg_a op)

abbrev pub ea_simm : State → ℕ → ℕ
ea_simm s op = u32 (simm op + base s op)

abbrev pub ea_indexed : State → ℕ → ℕ
ea_indexed s op = u32 (s.gpr (reg_b op) + base s op)

-- The rest of an instruction after an access, unless it faults.
unfoldable pub after_read : {M : Type 0} → Access ℕ × M → (ℕ → M → Outcome M) → Outcome M
after_read (got v, m) k = k v m
after_read (faulted s, m) k = stopped fault s m

unfoldable pub after_write : {M : Type 0} → Access (Unit {0}) × M → (M → Outcome M) → Outcome M
after_write (got v, m) k = k m
after_write (faulted s, m) k = stopped fault s m
