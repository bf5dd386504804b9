-- ===== src/Memory/Access.antt =====
-- CPU/mem.cpp: reads and writes of instructions, bytes, halves and words.
pub mod View
pub mod RoundTrip
pub mod Faulty
use spim_curses.Base.{
  ℕ, ◌-◌, ◌*◌, ◌/◌, Bool, true, ◌&&◌, not, ltb, leb, if◌then◌else◌, has, sext8, sext16, update,
}
use spim_curses.Cpu.Exception.{raise_at, exc_ibe}
use spim_curses.Machine.{M, ◌>>=◌, ◌>>◌, get, pure, on_cpu, on_mem}
use spim_curses.Memory.Defs.{
  Memory, Bytes, Slot, code, data_bot, stack_top, k_text_bot, k_data_bot, text_bot, get8, get16,
  get32, put8, put16, put32,
}
use spim_curses.Memory.Fault.{in_text, bad_text_read, bad_mem_read, bad_mem_write, slot_encoding}

module _ (m : Memory) (addr : ℕ) where
  abbrev pub in_data : Bool
  in_data = leb data_bot addr && ltb addr m.data_top

  abbrev pub in_stack : Bool
  in_stack = leb m.stack_bot addr && ltb addr stack_top

  abbrev pub in_k_text : Bool
  in_k_text = leb k_text_bot addr && ltb addr m.k_text_top

  abbrev pub in_k_data : Bool
  in_k_data = leb k_data_bot addr && ltb addr m.k_data_top

abbrev pub aligned : ℕ → ℕ → Bool
aligned addr mask = not (has addr mask)

-- `read_mem_inst`; `none` is the NULL pointer.
unfoldable pub read_mem_inst : ℕ → M Slot
read_mem_inst addr = do
  m ← get (λ s. s.mem)
  if in_text m addr && aligned addr 0x3
      then pure (m.text_seg ((addr - text_bot) / 4))
      else if in_k_text m addr && aligned addr 0x3
      then pure (m.k_text_seg ((addr - k_text_bot) / 4))
      else (do inst ← bad_text_read addr; pure (code inst))

-- The three reads differ in the alignment and in the element type of the arrays.
module _ (mask : ℕ) (element : Bytes → ℕ → ℕ) where
  abbrev read_with : ℕ → M ℕ
  read_with addr = do
    m ← get (λ s. s.mem)
    if in_data m addr && aligned addr mask
        then pure (element m.data_seg (addr - data_bot))
        else if in_stack m addr && aligned addr mask
        then pure (element m.stack_seg (addr - m.stack_bot))
        else if in_k_data m addr && aligned addr mask
        then pure (element m.k_data_seg (addr - k_data_bot))
        else bad_mem_read addr mask

-- A `signed char` and a `short` are converted to a `reg_word`.
unfoldable pub read_mem_byte : ℕ → M ℕ
read_mem_byte = read_with 0x0 (λ seg o. sext8 (get8 seg o))

unfoldable pub read_mem_half : ℕ → M ℕ
read_mem_half = read_with 0x1 (λ seg o. sext16 (get16 seg (o / 2 * 2)))

unfoldable pub read_mem_word : ℕ → M ℕ
read_mem_word = read_with 0x3 (λ seg o. get32 seg (o / 4 * 4))

module _ (mask : ℕ) (element : Bytes → ℕ → ℕ → Bytes) where
  abbrev write_with : ℕ → ℕ → M (Unit {0})
  write_with addr value = do
    on_mem (λ m. record m { data_modified = true })
    m ← get (λ s. s.mem)
    if in_data m addr && aligned addr mask
        then on_mem (λ m'. record m' { data_seg = element m.data_seg (addr - data_bot) value })
        else if in_stack m addr && aligned addr mask
        then on_mem (λ m'. record m' { stack_seg = element m.stack_seg (addr - m.stack_bot) value })
        else if in_k_data m addr && aligned addr mask
        then on_mem
            (λ m'. record m' { k_data_seg = element m.k_data_seg (addr - k_data_bot) value })
        else bad_mem_write addr value mask

unfoldable pub set_mem_byte : ℕ → ℕ → M (Unit {0})
set_mem_byte = write_with 0x0 put8

unfoldable pub set_mem_half : ℕ → ℕ → M (Unit {0})
set_mem_half = write_with 0x1 (λ seg o. put16 seg (o / 2 * 2))

unfoldable pub set_mem_word : ℕ → ℕ → M (Unit {0})
set_mem_word = write_with 0x3 (λ seg o. put32 seg (o / 4 * 4))

-- A slot that is not empty is the instruction's address.
unfoldable pub bad_text_write : ℕ → Slot → M (Unit {0})
unfolding set_mem_word
bad_text_write addr slot = do on_cpu (raise_at exc_ibe addr); set_mem_word addr (slot_encoding slot)

unfoldable pub set_mem_inst : ℕ → Slot → M (Unit {0})
unfolding bad_text_write
set_mem_inst addr slot = do
  on_mem (λ m. record m { text_modified = true })
  m ← get (λ s. s.mem)
  if in_text m addr && aligned addr 0x3
      then on_mem (λ m'. record m' { text_seg = update m.text_seg ((addr - text_bot) / 4) slot })
      else if in_k_text m addr && aligned addr 0x3
      then on_mem
          (λ m'. record m' { k_text_seg = update m.k_text_seg ((addr - k_text_bot) / 4) slot })
      else bad_text_write addr slot
