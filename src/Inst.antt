-- ===== src/Inst.antt =====
-- Instructions: CPU/op.h, CPU/inst.h and CPU/inst.cpp.
pub mod Op
pub mod Table
pub mod Rows
pub mod Fields
pub mod Decode
pub mod Encode
