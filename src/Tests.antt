-- ===== src/Tests.antt =====
-- Small machines, and each property at one input where its conditions hold.
pub mod Setting
pub mod Memory
pub mod Control
pub mod Words
pub mod Assembly
pub mod Floating
pub mod Programs
