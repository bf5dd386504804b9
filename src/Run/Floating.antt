-- ===== src/Run/Floating.antt =====
-- CPU/run.cpp: the floating-point cases of `run_spim`.
pub mod Host
pub mod Compare
pub mod Compute
pub mod Transfer
pub mod Condition
pub mod DoubleWord
pub mod Lost
