-- ===== src/Cpu.antt =====
-- The processor's own state: CPU/reg.h.
pub mod Defs
pub mod Exception
pub mod Floating
