-- ===== src/Core.antt =====
-- Core services of the emulator (core): virtual time and long products.
pub mod Timer
pub mod Product
