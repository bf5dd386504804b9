-- ===== src/Memory/Layout.antt =====
-- The layout of the segments that every operation keeps: CPU/mem.cpp.
use spim_curses.Base.{◌%◌, ◌≤◌, ◌≡◌}
use spim_curses.Memory.Defs.{Memory, data_bot, stack_top, k_data_bot, mm_io_bot}

-- The data, stack and kernel data segments follow one another, and hold whole words.
pub record IsLaidOut (m : Memory) : Type 0 where
  pub data_above : data_bot ≤ m.data_top
  pub data_below_stack : m.data_top ≤ m.stack_bot
  pub stack_below_top : m.stack_bot ≤ stack_top
  pub k_data_above : k_data_bot ≤ m.k_data_top
  pub k_data_below_io : m.k_data_top ≤ mm_io_bot
  pub text_below_data : m.text_top ≤ data_bot
  pub data_words : m.data_top % 4 ≡ 0
  pub stack_words : m.stack_bot % 4 ≡ 0
  pub k_data_words : m.k_data_top % 4 ≡ 0

-- The bounds that a write leaves alone.
pub record SameBounds (m m' : Memory) : Type 0 where
  pub top : m'.data_top ≡ m.data_top
  pub stack : m'.stack_bot ≡ m.stack_bot
  pub limit : m'.data_size_limit ≡ m.data_size_limit
