-- ===== src/Assembler/Store.antt =====
-- CPU/data.cpp: the directives that store data.
pub mod Stored
pub mod Bytes
pub mod Text
use spim_curses.Base.{
  ℕ, zero, suc, ◌+◌, ◌-◌, ◌*◌, ◌/◌, ◌%◌, ◌^◌, ◌≤◌, ◌<◌, min, max, ◌≡◌, ◌≢◌, ◌↔◌, refl, sym, ◌∙◌, ap,
  arith, Bool, true, false, ◌||◌, ◌&&◌, not, ltb, leb, ◌==◌, if◌then◌else◌, bit_and, bit_or, bit,
  add32, sub32, mul32, neg32, not32, u32, shl, shr, asr, IsWord, is_negative, has, Option, none,
  some, List, [], ◌∷◌, update, ◌⊎◌, inl, inr, Bool-cases, signed, slt,
}
use spim_curses.Machine.{M, Machine}
use spim_curses.Memory.Access.{set_mem_byte, set_mem_half, set_mem_word}
use spim_curses.Assembler.State.{Assembler, A, ◌>>=◌, ◌>>◌, skip, get, modify, machine_op}
use spim_curses.Assembler.Data.{data_pc, increment_data_pc}

-- A write at the location counter, which moves on.
unfoldable pub store_with : (ℕ → ℕ → M (Unit {0})) → ℕ → ℕ → A (Unit {0})
unfolding increment_data_pc
store_with write size value = do
  pc ← get data_pc
  machine_op (write pc value)
  increment_data_pc size

unfoldable pub store_byte : ℕ → A (Unit {0})
unfolding store_with
store_byte value = store_with set_mem_byte 1 value

unfoldable pub store_half : ℕ → A (Unit {0})
unfolding store_byte
store_half value = do
  pc ← get data_pc
  if has pc 0x1
      then (do store_byte (bit_and value 0xff); store_byte (bit_and (asr value 8) 0xff))
      else store_with set_mem_half 2 value

unfoldable pub store_word : ℕ → A (Unit {0})
unfolding store_half
store_word value = do
  pc ← get data_pc
  if has pc 0x3
      then (do store_half (bit_and value 0xffff); store_half (bit_and (asr value 16) 0xffff))
      else store_with set_mem_word 4 value

-- A double is the two words that the host keeps, the low one first.
unfoldable pub store_double : ℕ → ℕ → A (Unit {0})
unfolding store_word
store_double low high = do
  pc ← get data_pc
  if has pc 0x7
      then (do store_word low; store_word high)
      else (do store_with set_mem_word 4 low; store_with set_mem_word 4 high)

-- A float is the word of the value that was converted.
unfoldable pub store_float : ℕ → A (Unit {0})
unfolding store_half
store_float bits = do
  pc ← get data_pc
  if has pc 0x3
      then (do store_half (bit_and bits 0xffff); store_half (bit_and (asr bits 16) 0xffff))
      else store_with set_mem_word 4 bits

unfoldable pub store_bytes : List ℕ → A (Unit {0})
unfolding store_byte
store_bytes [] = skip
store_bytes (c ∷ string) = do store_byte c; store_bytes string

unfoldable pub store_string : List ℕ → Bool → A (Unit {0})
unfolding store_bytes
store_string string null_terminate = do
  store_bytes string
  if null_terminate then store_byte 0 else skip

-- `for ( ; size > 0; size --) store_byte (0)`
unfoldable pub store_zeros : ℕ → A (Unit {0})
unfolding store_byte
store_zeros zero = skip
store_zeros (suc size) = do store_byte 0; store_zeros size
