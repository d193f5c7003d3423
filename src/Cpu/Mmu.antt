-- ===== src/Cpu/Mmu.antt =====
-- The memory management unit (cpu/ppc/ppcmmu.{h,cpp}): address translation and its caches.
pub mod Tlb
pub mod Bat
pub mod Page
pub mod Tlb603
pub mod Translate
pub mod Instructions
mod Tests
