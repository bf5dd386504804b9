-- ===== src/Memory/Growth/Touch.antt =====
-- CPU/mem.cpp: a read or a write just below the stack makes it grow.
use spim_curses.Base.{ℕ, ◌+◌, ◌-◌, ◌*◌, ◌/◌, ◌%◌, ◌^◌, ◌≤◌, ◌<◌, ◌≡◌, refl, arith, true, some, inr}
use spim_curses.Machine.{Machine, done}
use spim_curses.Memory.Defs.{Memory, stack_top, put32}
use spim_curses.Memory.Layout.{IsLaidOut}
use spim_curses.Memory.Segments.{expand_stack}
use spim_curses.Memory.Fault.{bad_mem_read, near_stack, bad_mem_write, grow_and_write}
use spim_curses.Memory.Access.{read_mem_word, set_mem_word}
use spim_curses.Memory.Access.View.{
  is_mapped, stored, stored-IsWritten, put32-Writes, IsWritten, mapped_of_byte_at, byte_at,
  aligned_word,
}
use spim_curses.Memory.Growth.Stack.{stack_growth, IsDeeper, expand_stack-IsDeeper}

-- How much is asked for so that the word at an address becomes part of the stack.
abbrev pub request : ℕ → Memory → ℕ
request a m = m.stack_bot - a + 4

-- There is room for the stack to reach an address.
pub record HasRoom (a : ℕ) (m : Memory) : Type 0 where
  pub near : near_stack m a ≡ true
  pub limit : m.stack_size_limit < 2 ^ 31
  pub room : m.data_top + stack_growth (request a m) m ≤ m.stack_bot
  pub within : stack_top - m.stack_bot + stack_growth (request a m) m ≤ m.stack_size_limit

pub expand_stack-near :
    (a : ℕ) (m : Machine)
    → IsLaidOut m.mem
    → HasRoom a m.mem
    → (mem : Memory) × (expand_stack (request a m.mem) m ≡ done tt (record m { mem = mem }))
      × IsDeeper (m.mem.stack_bot - stack_growth (request a m.mem) m.mem) m.mem mem
expand_stack-near a m l h =
    expand_stack-IsDeeper (request a m.mem) m l (ground arith) h.limit h.room h.within

-- A read of an aligned word just below the stack, with room for the stack to grow to it, gives 0:
-- the stack has grown as for a request of the distance and four bytes, and the address is mapped.
pub read_mem_word-near :
    (a : ℕ) (m : Machine)
    → IsLaidOut m.mem
    → a % 4 ≡ 0
    → HasRoom a m.mem
    → (mem : Memory) × (read_mem_word a m ≡ done 0 (record m { mem = mem }))
      × IsDeeper (m.mem.stack_bot - stack_growth (request a m.mem) m.mem) m.mem mem
      × (byte_at mem a ≡ some 0)
unfolding read_mem_word bad_mem_read
read_mem_word-near a m l al h =
    let (mem, eq, deep) = expand_stack-near a m l h in
    (mem, ground (arith, aligned_word a al), deep, ground (arith, deep.bytes a))

-- A write first says that the data are modified.
abbrev flagged : Machine → Machine
flagged m = record m { mem = record (m.mem) { data_modified = true } }

flagged-IsLaidOut : (m : Machine) → IsLaidOut m.mem → IsLaidOut (flagged m).mem
flagged-IsLaidOut m l = record {
  data_above = l.data_above;
  data_below_stack = l.data_below_stack;
  stack_below_top = l.stack_below_top;
  k_data_above = l.k_data_above;
  k_data_below_io = l.k_data_below_io;
  text_below_data = l.text_below_data;
  data_words = l.data_words;
  stack_words = l.stack_words;
  k_data_words = l.k_data_words;
}

flagged-HasRoom : (a : ℕ) (m : Machine) → HasRoom a m.mem → HasRoom a (flagged m).mem
flagged-HasRoom a m h = record { near = h.near; limit = h.limit; room = h.room; within = h.within }

flagged-IsDeeper :
    (bot : ℕ) (m : Machine) (m' : Memory) → IsDeeper bot (flagged m).mem m' → IsDeeper bot m.mem m'
unfolding byte_at
flagged-IsDeeper bot m m' d = record { bottom = d.bottom; layout = d.layout; bytes = d.bytes }

-- A write of an aligned word just below the stack, with room for the stack to grow to it, grows
-- the stack as for a request of the distance and four bytes and then writes the four bytes there:
-- no other byte of the deeper stack or of the data changes, nor does anything but the memory.
pub set_mem_word-near :
    (a v : ℕ) (m : Machine)
    → IsLaidOut m.mem
    → a % 4 ≡ 0
    → HasRoom a m.mem
    → (deeper mem : Memory) × (set_mem_word a v m ≡ done tt (record m { mem = mem }))
      × IsDeeper (m.mem.stack_bot - stack_growth (request a m.mem) m.mem) m.mem deeper
      × IsWritten 4 a v deeper mem
unfolding set_mem_word bad_mem_write grow_and_write stored
set_mem_word-near a v m l al h =
    let (mem, eq, deep) =
      expand_stack-near a (flagged m) (flagged-IsLaidOut m l) (flagged-HasRoom a m h) in
    let mapped : is_mapped mem a ≡ true =
      mapped_of_byte_at mem a 0 (ground (arith, deep.bytes a, h.near)) in
    (
      mem,
      stored (λ seg o. put32 seg (o / 4 * 4) v) a mem,
      ground (arith, eq, aligned_word a al, deep.bottom, h.near),
      flagged-IsDeeper (m.mem.stack_bot - stack_growth (request a m.mem) m.mem) m mem deep,
      stored-IsWritten 4 a v (put32-Writes v) deep.layout (inr (inr refl), al) mapped,
    )
