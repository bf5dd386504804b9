-- ===== src/Breakpoints/Slots.antt =====
-- CPU/mem.cpp: `read_mem_inst` and `set_mem_inst` at the addresses of the text segments.
use spim_curses.Base.{
  ℕ, ◌-◌, ◌/◌, ◌%◌, ◌≡◌, arith, Bool, true, ◌&&◌, ◌||◌, ◌==◌, if◌then◌else◌, update,
}
use spim_curses.Base.Fields.{bit_and_low}
use spim_curses.Machine.{Machine, done}
use spim_curses.Memory.Access.{read_mem_inst, set_mem_inst, in_k_text, aligned}
use spim_curses.Memory.Defs.{Memory, Slot, text_bot, k_text_bot}
use spim_curses.Memory.Fault.{in_text}

-- An address of an instruction.
abbrev pub is_text : Memory → ℕ → Bool
is_text m a = (in_text m a || in_k_text m a) && aligned a 0x3

unfoldable pub slot_at : Memory → ℕ → Slot
slot_at m a =
    if in_text m a then m.text_seg ((a - text_bot) / 4) else m.k_text_seg ((a - k_text_bot) / 4)

unfoldable pub put_slot : ℕ → Slot → Memory → Memory
put_slot a slot m = record m {
  text_modified = true;
  text_seg = if in_text m a then update m.text_seg ((a - text_bot) / 4) slot else m.text_seg;
  k_text_seg =
      if in_text m a then m.k_text_seg else update m.k_text_seg ((a - k_text_bot) / 4) slot;
}

pub read_mem_inst-slot_at :
    (a : ℕ) (m : Machine) → is_text m.mem a ≡ true → read_mem_inst a m ≡ done (slot_at m.mem a) m
unfolding read_mem_inst slot_at
read_mem_inst-slot_at a m h = ground (arith, h)

pub set_mem_inst-put_slot :
    (a : ℕ) (slot : Slot) (m : Machine)
    → is_text m.mem a ≡ true
    → set_mem_inst a slot m ≡ done tt (record m { mem = put_slot a slot m.mem })
unfolding set_mem_inst put_slot
set_mem_inst-put_slot a slot m h = ground (arith, h)

pub text_words : (m : Memory) (a : ℕ) → is_text m a ≡ true → a % 4 ≡ 0
text_words m a h = ground (arith, h, bit_and_low 2 a)

pub slot_at-put_slot :
    (a b : ℕ) (slot : Slot) (m : Memory)
    → is_text m a ≡ true
    → is_text m b ≡ true
    → slot_at (put_slot a slot m) b ≡ (if a == b then slot else slot_at m b)
unfolding slot_at put_slot
slot_at-put_slot a b slot m h k = ground (arith, h, k, text_words m a h, text_words m b k)
