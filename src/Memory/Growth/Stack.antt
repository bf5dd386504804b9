-- ===== src/Memory/Growth/Stack.antt =====
-- CPU/mem.cpp: `expand_stack`, on the flat memory.
use spim_curses.Base.{
  ℕ, ◌+◌, ◌-◌, ◌/◌, ◌%◌, ◌^◌, ◌≤◌, ◌<◌, max, ◌≡◌, arith, ◌&&◌, ltb, leb, if◌then◌else◌, some,
}
use spim_curses.Machine.{Machine, done, run_error, stack_limit}
use spim_curses.Memory.Defs.{Memory, zero_bytes, stack_top}
use spim_curses.Memory.Layout.{IsLaidOut}
use spim_curses.Memory.Segments.{grow_stack, expand_stack}
use spim_curses.Memory.Access.View.{byte_at}
use spim_curses.Memory.Growth.{round_up-eq, copy_words-at}
use spim_curses.Memory.Growth.Data.{whole_words, IsRequest}

-- How far the stack grows for a request: it doubles at least.
abbrev pub stack_growth : ℕ → Memory → ℕ
stack_growth n m = max (whole_words n) (stack_top - m.stack_bot)

-- The stack reaches down to `bot`; the bytes it had stay at their addresses, the others are zero.
pub record IsDeeper (bot : ℕ) (m m' : Memory) : Type 0 where
  pub bottom : m'.stack_bot ≡ bot
  pub layout : IsLaidOut m'
  pub bytes :
      (a : ℕ) → byte_at m' a ≡ (if leb bot a && ltb a m.stack_bot then some 0 else byte_at m a)

module _ (g : ℕ) (m : Memory) (l : IsLaidOut m) (words : g % 4 ≡ 0)
    (room : m.data_top + g ≤ m.stack_bot) where
  abbrev old : ℕ
  old = stack_top - m.stack_bot

  abbrev grown : Memory
  grown = grow_stack old (old + g) m

  grow_stack-bottom : grown.stack_bot ≡ m.stack_bot - g
  unfolding grow_stack
  grow_stack-bottom = ground arith

  grow_stack-at :
      (a : ℕ)
      → byte_at grown a
        ≡ (if leb (m.stack_bot - g) a && ltb a m.stack_bot then some 0 else byte_at m a)
  unfolding byte_at grow_stack
  grow_stack-at a = ground (
    arith,
    copy_words-at (old / 4) ((old + g) / 4 - old / 4) m.stack_seg zero_bytes
        (a - (m.stack_bot - g)),
  )

  grow_stack-IsLaidOut : IsLaidOut grown
  unfolding grow_stack
  grow_stack-IsLaidOut = ground arith

  pub grow_stack-IsDeeper : IsDeeper (m.stack_bot - g) m grown
  grow_stack-IsDeeper = record {
    bottom = grow_stack-bottom;
    layout = grow_stack-IsLaidOut;
    bytes = grow_stack-at;
  }

-- A request for the stack that is within the limit and leaves room above the data lowers the
-- bottom by the request in whole words or by the old size, whichever is larger: every byte that
-- was mapped keeps its address and value, the new bytes are zero, and the segments stay laid out.
pub expand_stack-IsDeeper :
    (n : ℕ) (m : Machine)
    → IsLaidOut m.mem
    → IsRequest n
    → m.mem.stack_size_limit < 2 ^ 31
    → m.mem.data_top + stack_growth n m.mem ≤ m.mem.stack_bot
    → stack_top - m.mem.stack_bot + stack_growth n m.mem ≤ m.mem.stack_size_limit
    → (mem : Memory) × (expand_stack n m ≡ done tt (record m { mem = mem }))
      × IsDeeper (m.mem.stack_bot - stack_growth n m.mem) m.mem mem
unfolding expand_stack
expand_stack-IsDeeper n m l req lim room within = (
  grown (stack_growth n m.mem) m.mem l (ground arith) room,
  ground (arith, round_up-eq n),
  grow_stack-IsDeeper (stack_growth n m.mem) m.mem l (ground arith) room,
)

-- A request for the stack that would pass its limit, of a size that an `int32` holds, ends in the
-- stack's error, with the machine as it was.
pub expand_stack-refused :
    (n : ℕ) (m : Machine)
    → IsLaidOut m.mem
    → IsRequest n
    → m.mem.stack_size_limit < 2 ^ 31
    → stack_top - m.mem.stack_bot + stack_growth n m.mem < 2 ^ 31
    → m.mem.stack_size_limit < stack_top - m.mem.stack_bot + stack_growth n m.mem
    → expand_stack n m ≡ run_error stack_limit m
unfolding expand_stack
expand_stack-refused n m l req lim word beyond = ground (arith, round_up-eq n)
