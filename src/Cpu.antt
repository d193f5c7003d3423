-- ===== src/Cpu.antt =====
-- The PowerPC interpreter of cpu/ppc.
pub mod State
pub mod Spr
pub mod Xer
pub mod CrBit
pub mod Decode
pub mod Flags
pub mod Arith
pub mod Logic
pub mod Multiply
pub mod Shift
pub mod Clock
pub mod Condition
pub mod Branch
pub mod Write
pub mod Effect
pub mod Power
pub mod Memory
pub mod Msr
pub mod Machine
pub mod Mmu
pub mod Tests
