-- ===== src/Run.antt =====
-- The interpreter: CPU/run.cpp.
pub mod Multiply
pub mod Arith
pub mod Alu
pub mod LoadStore
pub mod Branch
pub mod Floating
pub mod Step
pub mod Loop
