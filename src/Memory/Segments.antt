-- ===== src/Memory/Segments.antt =====
-- CPU/mem.cpp: `make_memory` and the routines that let a segment grow.
use spim_curses.Base.{
  ℕ, zero, suc, ◌+◌, ◌-◌, ◌*◌, ◌/◌, true, ◌||◌, ltb, leb, if◌then◌else◌, bit_and, add32, sub32,
  is_negative, slt, update,
}
use spim_curses.Memory.Defs.{
  Bytes, zero_bytes, Memory, empty, text_bot, data_bot, stack_top, k_text_bot, k_data_bot,
}
use spim_curses.Machine.{
  Outcome, M, ◌>>=◌, ◌>>◌, get, fail, on_mem, fatal_error, data_limit, stack_limit, k_data_limit,
}

-- `ROUND_UP (v, BYTES_PER_WORD)`
abbrev pub round_up : ℕ → ℕ
round_up v = bit_and (add32 v 3) 0xfffffffc

-- The bytes of a block after `realloc`: those of the old size stay.
abbrev pub realloc : ℕ → Bytes → Bytes → Bytes
realloc old_size seg fresh i = if ltb i old_size then seg i else fresh i

-- `for (p = from; p < from + n; ) *p ++ = 0`
unfoldable pub clear_bytes : ℕ → ℕ → Bytes → Bytes
clear_bytes zero from seg = seg
clear_bytes (suc n) from seg = clear_bytes n (from + 1) (update seg from 0)

-- The sizes are those of a caller that asks for less than 2 ^ 31 bytes.
unfoldable pub make_memory : ℕ → ℕ → ℕ → ℕ → ℕ → ℕ → ℕ → ℕ → Memory → Memory
make_memory text_size data_size data_lim stack_size stack_lim k_text_size k_data_size k_data_lim m =
    let data_bytes = round_up (round_up (if leb data_size 65536 then 65536 else data_size)) in
    let stack_bytes = round_up stack_size in
    let k_data_bytes = round_up k_data_size in
    record m {
      text_seg = λ i. empty;
      text_top = add32 text_bot text_size;
      text_modified = true;
      data_seg = zero_bytes;
      data_top = add32 data_bot data_bytes;
      data_modified = true;
      stack_seg = zero_bytes;
      stack_bot = sub32 stack_top stack_bytes;
      k_text_seg = λ i. empty;
      k_text_top = add32 k_text_bot k_text_size;
      k_data_seg = zero_bytes;
      k_data_top = add32 k_data_bot k_data_bytes;
      data_size_limit = data_lim;
      stack_size_limit = stack_lim;
      k_data_size_limit = k_data_lim;
    }

-- An allocation of a negative size, which `size_t` makes huge, fails.
abbrev pub alloc : ℕ → M (Unit {0})
alloc size m = if is_negative size then fatal_error else Outcome.done tt m

unfoldable pub grow_data : ℕ → ℕ → Memory → Memory
unfolding clear_bytes
grow_data delta old_size m =
    let new_size = add32 old_size delta in
    record m {
      data_seg = clear_bytes (new_size - old_size) old_size (realloc old_size m.data_seg m.fresh);
      data_top = add32 m.data_top delta;
    }

unfoldable pub expand_data : ℕ → M (Unit {0})
unfolding grow_data
expand_data addl_bytes = do
  old_size ← get (λ m. sub32 m.mem.data_top data_bot)
  limit ← get (λ m. m.mem.data_size_limit)
  let delta = round_up addl_bytes
  let new_size = add32 old_size delta
  if is_negative addl_bytes || slt limit new_size
      then fail data_limit
      else (do alloc new_size; on_mem (grow_data delta old_size))

-- `*pn = *po` on words.
unfoldable pub copy_word : Bytes → ℕ → Bytes → ℕ → Bytes
copy_word src o dst n =
    update (update (update (update dst n (src o)) (n + 1) (src (o + 1))) (n + 2) (src (o + 2)))
      (n + 3) (src (o + 3))

-- `for ( ; po >= stack_seg ; ) *pn -- = *po --`, with `k` words of the old block to go and `gap`
-- words between the places of a word in the two blocks.
unfoldable pub copy_words : ℕ → ℕ → Bytes → Bytes → Bytes
copy_words zero gap old new = new
copy_words (suc k) gap old new = copy_words k gap old (copy_word old (k * 4) new ((k + gap) * 4))

unfoldable pub grow_stack : ℕ → ℕ → Memory → Memory
unfolding copy_words
grow_stack old_size new_size m = record m {
  stack_seg = copy_words (old_size / 4) (new_size / 4 - old_size / 4) m.stack_seg zero_bytes;
  stack_bot = sub32 m.stack_bot (sub32 new_size old_size);
}

-- `MAX` of two `int32`.
abbrev pub max32 : ℕ → ℕ → ℕ
max32 a b = if slt b a then a else b

unfoldable pub expand_stack : ℕ → M (Unit {0})
unfolding grow_stack
expand_stack addl_bytes = do
  old_size ← get (λ m. sub32 stack_top m.mem.stack_bot)
  limit ← get (λ m. m.mem.stack_size_limit)
  let new_size = add32 old_size (max32 (round_up addl_bytes) old_size)
  if is_negative addl_bytes || slt limit new_size
      then fail stack_limit
      else (do alloc new_size; on_mem (grow_stack old_size new_size))

-- The bytes that the last loop clears are numbered from `old_size / BYTES_PER_WORD`.
unfoldable pub grow_k_data : ℕ → ℕ → Memory → Memory
unfolding clear_bytes
grow_k_data delta old_size m =
    let new_size = add32 old_size delta in
    record m {
      k_data_seg =
          clear_bytes (new_size / 4 - old_size / 4) (old_size / 4)
            (realloc old_size m.k_data_seg m.fresh);
      k_data_top = add32 m.k_data_top delta;
    }

unfoldable pub expand_k_data : ℕ → M (Unit {0})
unfolding grow_k_data
expand_k_data addl_bytes = do
  old_size ← get (λ m. sub32 m.mem.k_data_top k_data_bot)
  limit ← get (λ m. m.mem.k_data_size_limit)
  let delta = round_up addl_bytes
  let new_size = add32 old_size delta
  if is_negative addl_bytes || slt limit new_size
      then fail k_data_limit
      else (do alloc new_size; on_mem (grow_k_data delta old_size))
