-- ===== src/Syscall/System.antt =====
-- What the system calls of CPU/syscall.cpp use of the C library and of the host.
use spim_curses.Base.{ℕ, List}
use spim_curses.Machine.{M}
use spim_curses.Memory.Defs.{Bytes, Slot}
use spim_curses.Run.Floating.Host.{Host}

-- `format_...` is the text of `%d`, `%.8f` and `%.18g`; `atol` gives a word and `atof` a double, of
-- the text before the first zero byte. An array of instructions is an array of pointers: `image` has
-- its bytes, and `overwrite` what bytes that are put over it from an offset on leave of it.
-- `overrun` is what a write of bytes past the end of a segment's array does to the host's memory and
-- so to the simulator.
pub record Outside : Type 0 where
  pub host : Host
  pub format_int : ℕ → List ℕ
  pub format_float : ℕ → List ℕ
  pub format_double : ℕ → List ℕ
  pub atol : List ℕ → ℕ
  pub atof : List ℕ → ℕ
  pub image : (ℕ → Slot) → Bytes
  pub overwrite : (ℕ → Slot) → ℕ → List ℕ → ℕ → Slot
  pub overrun : List ℕ → M (Unit {0})
