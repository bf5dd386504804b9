-- ===== src/Utils.antt =====
-- CPU/spim-utils.cpp.
pub mod Search
