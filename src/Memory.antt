-- ===== src/Memory.antt =====
-- The simulated memory: CPU/mem.cpp.
pub mod Defs
pub mod Layout
pub mod Segments
pub mod Io
pub mod Fault
pub mod Access
pub mod Growth
