-- ===== src/Memory/Fault.antt =====
-- CPU/mem.cpp: the infrequent and erroneous accesses, `bad_text_read` to `bad_mem_write`.
use spim_curses.Base.{
  ℕ, ◌-◌, ◌*◌, ◌/◌, ◌^◌, Bool, true, ◌&&◌, none, some, ltb, leb, ◌==◌, if◌then◌else◌, bit_and,
  bit_or, add32, sub32, shl, shr, not32, update, has,
}
use spim_curses.Cpu.Exception.{raise_at, exc_ad_el, exc_ad_es, exc_ibe, exc_dbe}
use spim_curses.Inst.Fields.{Instruction}
use spim_curses.Inst.Decode.{inst_decode}
use spim_curses.Machine.{M, ◌>>=◌, ◌>>◌, get, fail, pure, on_cpu, on_mem, bad_mask}
use spim_curses.Memory.Defs.{Memory, Slot, code, slot_inst, text_bot, mm_io_bot, put8, put16, put32}
use spim_curses.Memory.Segments.{expand_stack}
use spim_curses.Memory.Io.{read_memory_mapped_io, write_memory_mapped_io}

-- `ENCODING` of what a slot points to. The source reads through a NULL pointer here, which is
-- undefined; its own default for an empty slot, 0, stands in.
abbrev pub slot_encoding : Slot → ℕ
slot_encoding s = elim (slot_inst s) [ none ↦ 0 | some inst ↦ inst.encoding ]

-- A text address, in the user's segment.
abbrev pub in_text : Memory → ℕ → Bool
in_text m addr = leb text_bot addr && ltb addr m.text_top

-- Not far below the stack: at most 16 MB.
abbrev pub near_stack : Memory → ℕ → Bool
near_stack m addr =
    ltb m.data_top addr && ltb addr m.stack_bot && ltb (sub32 m.stack_bot (16 * 2 ^ 20)) addr

unfoldable pub bad_text_read : ℕ → M Instruction
bad_text_read addr = do on_cpu (raise_at exc_ibe addr); pure (inst_decode 0)

-- The value that `bad_mem_read` finds in the text segment.
unfoldable pub read_text : ℕ → ℕ → M ℕ
read_text addr mask = do
  slot ← get (λ m. m.mem.text_seg ((addr - text_bot) / 4))
  let tmp = slot_encoding slot
  if mask == 0
      then pure (bit_and 0xff (shr tmp (8 * bit_and addr 0x3)))
      else if mask == 1
      then pure (bit_and 0xffff (shr tmp (8 * bit_and addr 0x2)))
      else if mask == 3
      then pure tmp
      else fail bad_mask

unfoldable pub bad_mem_read : ℕ → ℕ → M ℕ
unfolding read_text
bad_mem_read addr mask = do
  m ← get (λ s. s.mem)
  if has addr mask
      then (do on_cpu (raise_at exc_ad_el addr); pure 0)
      else if in_text m addr
      then read_text addr mask
      else if near_stack m addr
      then (do expand_stack (add32 (sub32 m.stack_bot addr) 4); pure 0)
      else if leb mm_io_bot addr
      then read_memory_mapped_io addr
      else (do on_cpu (raise_at exc_dbe addr); pure 0)

-- The word that `bad_mem_write` puts into the text segment: `value` in its place.
abbrev pub merge_text : ℕ → ℕ → ℕ → ℕ → ℕ
merge_text low tmp value shift =
    bit_or (bit_and tmp (not32 (shl low shift))) (shl (bit_and value low) shift)

unfoldable pub write_text : ℕ → ℕ → ℕ → M (Unit {0})
write_text addr value mask = do
  slot ← get (λ m. m.mem.text_seg ((addr - text_bot) / 4))
  let old = slot_encoding slot
  let store : ℕ → M (Unit {0}) = λ tmp. on_mem (λ m. record m {
    text_seg = update m.text_seg ((addr - text_bot) / 4) (code (inst_decode tmp));
    text_modified = true;
  })
  if mask == 0
      then store (merge_text 0xff old value (8 * bit_and addr 0x3))
      else if mask == 1
      then store (merge_text 0xffff old value (8 * bit_and addr 0x2))
      else if mask == 3
      then store value
      else fail bad_mask

-- The write after the stack has grown.
abbrev pub write_stack : ℕ → ℕ → ℕ → Memory → Memory
write_stack addr value mask m =
    let o = addr - m.stack_bot in
    record m {
      stack_seg =
          if mask == 0
          then put8 m.stack_seg o value
          else if mask == 1
          then put16 m.stack_seg (o / 2 * 2) value
          else put32 m.stack_seg (o / 4 * 4) value;
    }

unfoldable pub grow_and_write : ℕ → ℕ → ℕ → M (Unit {0})
grow_and_write addr value mask = do
  old_bot ← get (λ m. m.mem.stack_bot)
  expand_stack (add32 (sub32 old_bot addr) 4)
  bot ← get (λ m. m.mem.stack_bot)
  if leb bot addr then on_mem (write_stack addr value mask) else on_cpu (raise_at exc_dbe addr)
  on_mem (λ m. record m { data_modified = true })

unfoldable pub bad_mem_write : ℕ → ℕ → ℕ → M (Unit {0})
unfolding write_text grow_and_write
bad_mem_write addr value mask = do
  m ← get (λ s. s.mem)
  if has addr mask
      then on_cpu (raise_at exc_ad_es addr)
      else if in_text m addr
      then write_text addr value mask
      else if near_stack m addr
      then grow_and_write addr value mask
      else if leb mm_io_bot addr
      then write_memory_mapped_io addr value
      else on_cpu (raise_at exc_dbe addr)
