-- ===== src/Memory/Growth/Data.antt =====
-- CPU/mem.cpp: `expand_data`, on the flat memory.
use spim_curses.Base.{
  ℕ, ◌+◌, ◌-◌, ◌*◌, ◌/◌, ◌^◌, ◌≤◌, ◌<◌, ◌≡◌, refl, arith, ◌&&◌, ltb, leb, if◌then◌else◌, add32,
  some,
}
use spim_curses.Machine.{Machine, done, run_error, data_limit}
use spim_curses.Memory.Defs.{Memory, data_bot}
use spim_curses.Memory.Layout.{IsLaidOut}
use spim_curses.Memory.Segments.{grow_data, expand_data, realloc}
use spim_curses.Memory.Access.View.{byte_at}
use spim_curses.Memory.Growth.{round_up-eq, clear_bytes-at}

-- A number of bytes in whole words.
abbrev pub whole_words : ℕ → ℕ
whole_words n = (n + 3) / 4 * 4

-- The bytes of the data segment once it has grown, and the bounds.
pub record IsGrown (n : ℕ) (m m' : Memory) : Type 0 where
  pub top : m'.data_top ≡ m.data_top + whole_words n
  pub layout : IsLaidOut m'
  pub stack : m'.stack_bot ≡ m.stack_bot
  pub limit : m'.data_size_limit ≡ m.data_size_limit
  pub bytes :
      (a : ℕ)
      → byte_at m' a
        ≡ (if leb m.data_top a && ltb a (m.data_top + whole_words n) then some 0 else byte_at m a)

module _ (n : ℕ) (m : Memory) (l : IsLaidOut m)
    (fits : m.data_top + whole_words n ≤ m.stack_bot) where
  abbrev old : ℕ
  old = m.data_top - data_bot

  abbrev grown : Memory
  grown = grow_data (whole_words n) old m

  grow_data-top : grown.data_top ≡ m.data_top + whole_words n
  unfolding grow_data
  grow_data-top = ground arith

  grow_data-at :
      (a : ℕ)
      → byte_at grown a
        ≡ (if leb m.data_top a && ltb a (m.data_top + whole_words n) then some 0 else byte_at m a)
  unfolding byte_at grow_data
  grow_data-at a = ground (
    arith,
    clear_bytes-at (add32 old (whole_words n) - old) old (realloc old m.data_seg m.fresh)
        (a - data_bot),
  )

  grow_data-stack : grown.stack_bot ≡ m.stack_bot
  unfolding grow_data
  grow_data-stack = refl

  grow_data-limit : grown.data_size_limit ≡ m.data_size_limit
  unfolding grow_data
  grow_data-limit = refl

  grow_data-IsLaidOut : IsLaidOut grown
  unfolding grow_data
  grow_data-IsLaidOut = ground arith

-- A request for `n` bytes.
abbrev pub IsRequest : ℕ → Type 0
IsRequest n = n < 2 ^ 31 - 3

-- A request for data that is within the limit and leaves the stack alone raises the top by the
-- request in whole words: every byte that was mapped stays, the new bytes are zero, and the
-- segments stay laid out.
pub expand_data-IsGrown :
    (n : ℕ) (m : Machine)
    → IsLaidOut m.mem
    → IsRequest n
    → m.mem.data_size_limit < 2 ^ 31
    → m.mem.data_top + whole_words n ≤ m.mem.stack_bot
    → m.mem.data_top - data_bot + whole_words n ≤ m.mem.data_size_limit
    → (mem : Memory) × (expand_data n m ≡ done tt (record m { mem = mem })) × IsGrown n m.mem mem
unfolding expand_data
expand_data-IsGrown n m l req lim below within = (
  grown n m.mem l below,
  ground (arith, round_up-eq n),
  record {
    top = grow_data-top n m.mem l below;
    layout = grow_data-IsLaidOut n m.mem l below;
    stack = grow_data-stack n m.mem l below;
    limit = grow_data-limit n m.mem l below;
    bytes = grow_data-at n m.mem l below;
  },
)

-- A request for data that would pass its limit, of a size that an `int32` holds, ends in the
-- data's error, with the machine as it was.
pub expand_data-refused :
    (n : ℕ) (m : Machine)
    → IsLaidOut m.mem
    → IsRequest n
    → m.mem.data_size_limit < 2 ^ 31
    → m.mem.data_top - data_bot + whole_words n < 2 ^ 31
    → m.mem.data_size_limit < m.mem.data_top - data_bot + whole_words n
    → expand_data n m ≡ run_error data_limit m
unfolding expand_data
expand_data-refused n m l req lim word beyond = ground (arith, round_up-eq n)
