-- ===== src/StringStream.antt =====
-- CPU/string-stream.cpp and CPU/string-stream.h: a buffer that grows for what is printed to it.
pub mod Append
use spim_curses.Base.{
  ℕ, zero, suc, ◌+◌, ◌-◌, ◌*◌, ◌/◌, ◌%◌, ◌^◌, ◌≤◌, ◌<◌, min, max, ◌≡◌, ◌≢◌, ◌↔◌, refl, sym, ◌∙◌, ap,
  arith, Bool, true, false, ◌||◌, ◌&&◌, not, ltb, leb, ◌==◌, if◌then◌else◌, bit_and, bit_or, bit,
  add32, sub32, mul32, neg32, not32, u32, shl, shr, asr, IsWord, is_negative, has, Option, none,
  some, List, [], ◌∷◌, update, ◌⊎◌, inl, inr, Bool-cases, signed, slt,
}
use spim_curses.Base.{length}
use spim_curses.Memory.Defs.{Bytes}
use spim_curses.Memory.Segments.{realloc}

-- `str_stream`
pub record StrStream : Type 0 where
  pub buf : Bytes
  pub max_length : ℕ
  pub empty_pos : ℕ
  pub initialized : Bool

-- `SS_BUF_LENGTH`
abbrev pub ss_buf_length : ℕ
ss_buf_length = 256

-- `fresh` is what the allocator leaves in memory that it hands out. `vsnprintf` gives the buffer
-- once it has printed a text to a place that has room for a number of bytes; what it returns is the
-- length of the text.
module _ (fresh : Bytes) (vsnprintf : Bytes → ℕ → ℕ → List ℕ → Bytes) where
  unfoldable pub ss_init : StrStream → StrStream
  ss_init ss = record { buf = fresh; max_length = ss_buf_length; empty_pos = 0; initialized = true }

  -- The test at the head of each routine.
  unfoldable pub ensure_init : StrStream → StrStream
  unfolding ss_init
  ensure_init ss = if ss.initialized then ss else ss_init ss

  unfoldable pub ss_clear : StrStream → StrStream
  unfolding ensure_init
  ss_clear ss = record (ensure_init ss) { empty_pos = 0 }

  -- For a count that is not negative.
  unfoldable pub ss_erase : ℕ → StrStream → StrStream
  unfolding ensure_init
  ss_erase n ss = let ss' = ensure_init ss in record ss' { empty_pos = ss'.empty_pos - n }

  unfoldable pub ss_length : StrStream → ℕ × StrStream
  unfolding ensure_init
  ss_length ss = let ss' = ensure_init ss in (ss'.empty_pos, ss')

  -- A larger buffer.
  abbrev pub enlarge : ℕ → StrStream → StrStream
  enlarge n ss = record ss { buf = realloc ss.max_length ss.buf fresh; max_length = n }

  -- The string is the buffer of what is given.
  unfoldable pub ss_to_string : StrStream → StrStream
  unfolding ensure_init
  ss_to_string ss =
      let ss' = ensure_init ss in
      let wide =
        if ss'.empty_pos == ss'.max_length then enlarge (u32 (ss'.max_length + 1)) ss' else ss' in
      record wide { buf = update wide.buf wide.empty_pos 0; empty_pos = wide.empty_pos + 1 }

  -- The loop of `ss_printf`. `none`: the fuel has run out.
  unfoldable pub print_loop : ℕ → List ℕ → StrStream → Option StrStream
  print_loop zero text ss = none
  print_loop (suc fuel) text ss =
      let free_space = ss.max_length - ss.empty_pos in
      let printed = record ss { buf = vsnprintf ss.buf ss.empty_pos free_space text } in
      let rest = print_loop fuel text (enlarge (u32 (2 * ss.max_length)) printed) in
      if leb free_space (length text) then rest else some printed

  -- The text is in the buffer: the last part of `ss_printf`.
  unfoldable pub finish : ℕ → StrStream → StrStream
  finish n ss =
      let pos = ss.empty_pos + n in
      record ss {
        buf = if ltb pos ss.max_length then update ss.buf pos 0 else ss.buf;
        empty_pos = pos;
      }

  unfoldable pub ss_printf : ℕ → List ℕ → StrStream → Option StrStream
  unfolding print_loop finish ensure_init
  ss_printf fuel text ss = elim (print_loop fuel text (ensure_init ss)) [
    | none ↦ none
    | some ss' ↦ some (finish (length text) ss')
  ]
