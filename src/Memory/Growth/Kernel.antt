-- ===== src/Memory/Growth/Kernel.antt =====
-- CPU/mem.cpp: `expand_k_data`, on the flat memory.
use spim_curses.Base.{
  ℕ, ◌+◌, ◌-◌, ◌/◌, ◌^◌, ◌≤◌, ◌<◌, ◌≡◌, arith, ◌&&◌, ltb, leb, if◌then◌else◌, some,
}
use spim_curses.Machine.{Machine, done}
use spim_curses.Memory.Defs.{Memory, k_data_bot}
use spim_curses.Memory.Layout.{IsLaidOut}
use spim_curses.Memory.Segments.{grow_k_data, expand_k_data, realloc}
use spim_curses.Memory.Access.View.{byte_at}
use spim_curses.Memory.Growth.{round_up-eq, clear_bytes-at}
use spim_curses.Memory.Growth.Data.{whole_words, IsRequest}

-- What `expand_k_data` makes of the byte at an offset of the kernel data segment.
abbrev pub k_data_byte : ℕ → Memory → ℕ → ℕ
k_data_byte n m i =
    let size = m.k_data_top - k_data_bot in
    if leb (size / 4) i && ltb i ((size + whole_words n) / 4)
    then 0
    else if ltb i size
    then m.k_data_seg i
    else m.fresh i

module _ (n : ℕ) (m : Memory) (l : IsLaidOut m) (fits : m.k_data_top + whole_words n < 2 ^ 32) where
  abbrev size : ℕ
  size = m.k_data_top - k_data_bot

  abbrev grown : Memory
  grown = grow_k_data (whole_words n) size m

  grow_k_data-at :
      (a : ℕ)
      → byte_at grown a ≡ (
          if leb k_data_bot a && ltb a (m.k_data_top + whole_words n)
          then some (k_data_byte n m (a - k_data_bot))
          else byte_at m a)
  unfolding byte_at grow_k_data
  grow_k_data-at a = ground (
    arith,
    clear_bytes-at ((size + whole_words n) / 4 - size / 4) (size / 4)
        (realloc size m.k_data_seg m.fresh) (a - k_data_bot),
  )

-- A request for kernel data that is within the limit keeps all bytes outside the segment; inside,
-- the bytes from a quarter of the old size to a quarter of the new size become zero, other old
-- bytes stay, and other new bytes are what the allocator left.
pub expand_k_data-bytes :
    (n : ℕ) (m : Machine)
    → IsLaidOut m.mem
    → IsRequest n
    → m.mem.k_data_size_limit < 2 ^ 31
    → m.mem.k_data_top + whole_words n < 2 ^ 32
    → m.mem.k_data_top - k_data_bot + whole_words n ≤ m.mem.k_data_size_limit
    → (mem : Memory) × (expand_k_data n m ≡ done tt (record m { mem = mem }))
      × ((a : ℕ)
          → byte_at mem a ≡ (
              if leb k_data_bot a && ltb a (m.mem.k_data_top + whole_words n)
              then some (k_data_byte n m.mem (a - k_data_bot))
              else byte_at m.mem a))
unfolding expand_k_data
expand_k_data-bytes n m l req lim fits within =
    (grown n m.mem l fits, ground (arith, round_up-eq n), grow_k_data-at n m.mem l fits)
