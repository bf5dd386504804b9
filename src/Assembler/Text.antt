-- ===== src/Assembler/Text.antt =====
-- CPU/inst.cpp: the location counters of the text segments, and the store of an instruction.
use spim_curses.Base.{
  ℕ, ◌-◌, ◌/◌, Bool, false, leb, ◌==◌, if◌then◌else◌, add32, Option, none, some, update,
}
use spim_curses.Inst.Fields.{Instruction, set_encoding}
use spim_curses.Inst.Encode.{inst_encode}
use spim_curses.Machine.{text_limit, k_text_limit, on_cpu, on_mem, fail}
use spim_curses.Memory.Defs.{Memory, Slot, code, text_bot, k_text_bot}
use spim_curses.Memory.Fault.{in_text}
use spim_curses.Memory.Access.{set_mem_inst}
use spim_curses.Assembler.State.{
  Assembler, A, aborted, ◌>>=◌, ◌>>◌, skip, pure, get, modify, machine_op,
}
use spim_curses.Assembler.Data.{data_pc}
use spim_curses.Assembler.Store.{store_word}

unfoldable pub text_begins_at_point : ℕ → A (Unit {0})
text_begins_at_point addr = modify (λ s. record s { next_text_pc = addr })

unfoldable pub k_text_begins_at_point : ℕ → A (Unit {0})
k_text_begins_at_point addr = modify (λ s. record s { next_k_text_pc = addr })

unfoldable pub set_text_pc : ℕ → A (Unit {0})
set_text_pc addr = modify (λ s.
    if s.text_in_kernel
    then record s { next_k_text_pc = addr }
    else record s { next_text_pc = addr })

-- `INST_PC`, which is `current_text_pc`.
abbrev pub inst_pc : Assembler → ℕ
inst_pc s = if s.text_in_kernel then s.next_k_text_pc else s.next_text_pc

unfoldable pub increment_text_pc : ℕ → A (Unit {0})
increment_text_pc delta = do
  kernel ← get (λ s. s.text_in_kernel)
  if kernel
      then (do
        modify (λ s. record s { next_k_text_pc = add32 s.next_k_text_pc delta })
        full ← get (λ s. leb s.machine.mem.k_text_top s.next_k_text_pc)
        if full then machine_op (fail k_text_limit) else skip)
      else (do
        modify (λ s. record s { next_text_pc = add32 s.next_text_pc delta })
        full ← get (λ s. leb s.machine.mem.text_top s.next_text_pc)
        if full then machine_op (fail text_limit) else skip)

unfoldable pub user_kernel_text_segment : Bool → A (Unit {0})
user_kernel_text_segment to_kernel = modify (λ s. record s { text_in_kernel = to_kernel })

-- `data_dir ? current_data_pc () : current_text_pc ()`
abbrev pub current_pc : Assembler → ℕ
current_pc s = if s.data_dir then data_pc s else inst_pc s

-- The slot of an address of a text segment.
abbrev pub slot_at : Memory → ℕ → Slot
slot_at m addr =
    if in_text m addr
    then m.text_seg ((addr - text_bot) / 4)
    else m.k_text_seg ((addr - k_text_bot) / 4)

abbrev pub put_slot : ℕ → Slot → Memory → Memory
put_slot addr slot m =
    if in_text m addr
    then record m { text_seg = update m.text_seg ((addr - text_bot) / 4) slot }
    else record m { k_text_seg = update m.k_text_seg ((addr - k_text_bot) / 4) slot }

-- The instruction with a number is the one that stands at the address.
unfoldable pub owns : Assembler → ℕ → ℕ → Bool
owns s addr number = is_number (s.owner addr)
  where
    is_number : Option ℕ → Bool
    is_number none = false
    is_number (some k) = k == number

-- What an assignment to an instruction does to its slot.
unfoldable pub put_object : ℕ → ℕ → Instruction → A (Unit {0})
unfolding owns
put_object addr number inst = do
  owned ← get (λ s. owns s addr number)
  if owned then machine_op (on_mem (put_slot addr (code inst))) else skip

-- The fatal error of `inst_encode` ends the program.
unfoldable pub encode : Instruction → A ℕ
encode inst s = elim (inst_encode inst) [ none ↦ aborted | some w ↦ pure w s ]

-- `SET_ENCODING` where there is none; the source line is left out.
unfoldable pub encode_object : ℕ → ℕ → Instruction → A (Unit {0})
unfolding encode put_object
encode_object addr number inst =
    if inst.encoding == 0
    then (do w ← encode inst; put_object addr number (set_encoding inst w))
    else skip

-- The branch of `store_instruction` for a text segment.
unfoldable pub store_text : ℕ → Instruction → A (Unit {0})
unfolding increment_text_pc encode_object
store_text number inst = do
  machine_op (on_cpu (λ c. record c { exception_occurred = false }))
  pc ← get inst_pc
  machine_op (set_mem_inst pc (code inst))
  failed ← get (λ s. s.machine.cpu.exception_occurred)
  if failed then skip else (do
    modify (λ s. record s { owner = update s.owner pc (some number) })
    increment_text_pc 4
    encode_object pc number inst)

unfoldable pub store_data : Instruction → A (Unit {0})
unfolding encode
store_data inst = do w ← encode inst; store_word w

-- An instruction that is not NULL, with its number.
unfoldable pub store_instruction : ℕ → Instruction → A (Unit {0})
unfolding store_data store_text
store_instruction number inst = do
  to_data ← get (λ s. s.data_dir)
  to_text ← get (λ s. s.text_dir)
  if to_data then store_data inst else if to_text then store_text number inst else skip
