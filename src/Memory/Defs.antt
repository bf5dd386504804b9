-- ===== src/Memory/Defs.antt =====
-- CPU/mem.h and CPU/mem.cpp: the five segments, and the memory-mapped devices.
use spim_curses.Base.{ℕ, ◌+◌, ◌*◌, ◌/◌, ◌%◌, ◌^◌, Bool, Option, none, some, update}
use spim_curses.Inst.Fields.{Instruction, set_rd}
use spim_curses.Inst.Op.{Op}
use spim_curses.Inst.Decode.{zero_inst}

-- What a word of a text segment points to. `break_inst` is the one breakpoint instruction of
-- CPU/inst.cpp, which the code knows by its address.
pub data Slot : Type 0 where
  empty : Slot
  code : Instruction → Slot
  break_inst : Slot

-- `make_r_type_inst (Y_BREAK_OP, 1, 0, 0)`
abbrev pub break_instruction : Instruction
break_instruction = set_rd (record zero_inst { opcode = Op.break }) 1

abbrev pub slot_inst : Slot → Option Instruction
slot_inst empty = none
slot_inst (code inst) = some inst
slot_inst break_inst = some break_instruction

-- A segment holds bytes. `data_seg`, `data_seg_h` and `data_seg_b` are one array, read on a
-- little-endian host.
abbrev pub Bytes : Type 0
Bytes = ℕ → ℕ

abbrev pub zero_bytes : Bytes
zero_bytes i = 0

pub record Memory : Type 0 where
  pub text_seg : ℕ → Slot
  pub text_top : ℕ
  pub text_modified : Bool
  pub data_seg : Bytes
  pub data_top : ℕ
  pub data_modified : Bool
  pub stack_seg : Bytes
  pub stack_bot : ℕ
  pub k_text_seg : ℕ → Slot
  pub k_text_top : ℕ
  pub k_data_seg : Bytes
  pub k_data_top : ℕ
  pub data_size_limit : ℕ
  pub stack_size_limit : ℕ
  pub k_data_size_limit : ℕ
  pub fresh : Bytes  -- what the allocator leaves in memory that it hands out

abbrev pub text_bot : ℕ
text_bot = 0x40_0000

abbrev pub data_bot : ℕ
data_bot = 0x1000_0000

abbrev pub stack_top : ℕ
stack_top = 0x8000_0000

abbrev pub k_text_bot : ℕ
k_text_bot = 0x8000_0000

abbrev pub k_data_bot : ℕ
k_data_bot = 0x9000_0000

abbrev pub mm_io_bot : ℕ
mm_io_bot = 0xffff_0000

-- Memory-mapped receiver and transmitter.
pub record Devices : Type 0 where
  pub recv_control : ℕ
  pub recv_buffer : ℕ
  pub recv_buffer_full_timer : ℕ
  pub trans_control : ℕ
  pub trans_buffer : ℕ
  pub trans_buffer_full_timer : ℕ

-- The host's type of an access: how many bytes, least significant first.
module _ (seg : Bytes) (o : ℕ) where
  abbrev pub get8 : ℕ
  get8 = seg o

  abbrev pub get16 : ℕ
  get16 = seg o + seg (o + 1) * 2 ^ 8

  abbrev pub get32 : ℕ
  get32 = seg o + seg (o + 1) * 2 ^ 8 + seg (o + 2) * 2 ^ 16 + seg (o + 3) * 2 ^ 24

module _ (seg : Bytes) (o v : ℕ) where
  abbrev pub put8 : Bytes
  put8 = update seg o (v % 2 ^ 8)

  abbrev pub put16 : Bytes
  put16 = update (update seg o (v % 2 ^ 8)) (o + 1) (v / 2 ^ 8 % 2 ^ 8)

  abbrev pub put32 : Bytes
  put32 =
      update
        (update (update (update seg o (v % 2 ^ 8)) (o + 1) (v / 2 ^ 8 % 2 ^ 8)) (o + 2)
          (v / 2 ^ 16 % 2 ^ 8))
        (o + 3) (v / 2 ^ 24 % 2 ^ 8)
