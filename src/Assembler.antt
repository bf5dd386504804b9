-- ===== src/Assembler.antt =====
-- What fills memory from a program's text: CPU/data.cpp, CPU/inst.cpp and CPU/sym-tbl.cpp.
pub mod State
pub mod Expr
pub mod Opcodes
pub mod Data
pub mod Store
pub mod Text
pub mod Resolve
pub mod Labels
pub mod Build
pub mod Immediate
