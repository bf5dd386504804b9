-- ===== src/Symbols.antt =====
-- CPU/sym-tbl.cpp: the symbol table.
pub mod Defs
pub mod View
pub mod Unlink
pub mod Locals
pub mod Linking
