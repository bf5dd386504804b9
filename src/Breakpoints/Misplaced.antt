-- ===== src/Breakpoints/Misplaced.antt =====
-- CPU/spim-utils.cpp: `add_breakpoint` where there is no instruction.
use spim_curses.Base.{ℕ, ◌%◌, ◌≡◌, refl, ◌∙◌, ap, arith, true, false, if◌then◌else◌, List, ==_refl}
use spim_curses.Breakpoints.{Bkpt, add_breakpoint, set_breakpoint, no_exception}
use spim_curses.Breakpoints.Slots.{
  is_text, slot_at, put_slot, slot_at-put_slot, read_mem_inst-slot_at, set_mem_inst-put_slot,
}
use spim_curses.Cpu.Exception.{raise_at, exc_ibe}
use spim_curses.Cpu.Exception.Raise.{raise_at-IsRaised}
use spim_curses.Inst.Decode.{inst_decode}
use spim_curses.Machine.{Machine, done}
use spim_curses.Memory.Access.{
  read_mem_inst, set_mem_inst, set_mem_word, read_mem_word, bad_text_write,
}
use spim_curses.Memory.Access.RoundTrip.{read_mem_word-set_mem_word}
use spim_curses.Memory.Access.View.{byte_at, is_mapped, IsWritten}
use spim_curses.Memory.Defs.{Memory, empty, code, break_inst}
use spim_curses.Memory.Fault.{bad_text_read}
use spim_curses.Memory.Layout.{IsLaidOut}

-- At an empty slot of a text segment the list stays as it is, but the breakpoint is put there.
pub add_breakpoint-empty :
    (addr : ℕ) (bkpts : List Bkpt) (m : Machine)
    → is_text m.mem addr ≡ true
    → slot_at m.mem addr ≡ empty
    → (m' : Machine) × (add_breakpoint addr bkpts m ≡ done bkpts m')
      × (slot_at m'.mem addr ≡ break_inst)
unfolding add_breakpoint set_breakpoint
add_breakpoint-empty addr bkpts m text nothing =
    let m0 = record m { cpu = no_exception m.cpu } in
    (
      record m0 { mem = put_slot addr break_inst m.mem },
      rw
          (
            read_mem_inst-slot_at addr m0 text,
            nothing,
            set_mem_inst-put_slot addr break_inst m0 text,
          )
          refl,
      slot_at-put_slot addr addr break_inst m.mem text text
          ∙ ap (λ t. if t then break_inst else slot_at m.mem addr) (==_refl addr),
    )

abbrev raised : ℕ → Machine → Machine
raised addr m = record m { cpu = raise_at exc_ibe addr m.cpu }

read_mem_inst-other :
    (addr : ℕ) (m : Machine)
    → is_text m.mem addr ≡ false
    → read_mem_inst addr m ≡ done (code (inst_decode 0)) (raised addr m)
unfolding read_mem_inst bad_text_read
read_mem_inst-other addr m h = ground (arith, h)

abbrev changed : Memory → Memory
changed m = record m { text_modified = true }

set_mem_inst-other :
    (addr : ℕ) (m : Machine)
    → is_text m.mem addr ≡ false
    → set_mem_inst addr break_inst m
      ≡ set_mem_word addr 0 (raised addr (record m { mem = changed m.mem }))
unfolding set_mem_inst bad_text_write
set_mem_inst-other addr m h = ground (arith, h)

IsLaidOut-changed : (m : Memory) → IsLaidOut m → IsLaidOut (changed m)
IsLaidOut-changed m l = record {
  data_above = l.data_above;
  data_below_stack = l.data_below_stack;
  stack_below_top = l.stack_below_top;
  k_data_above = l.k_data_above;
  k_data_below_io = l.k_data_below_io;
  text_below_data = l.text_below_data;
  data_words = l.data_words;
  stack_words = l.stack_words;
  k_data_words = l.k_data_words;
}

IsWritten-changed : (a : ℕ) (m m' : Memory) → IsWritten 4 a 0 (changed m) m' → IsWritten 4 a 0 m m'
unfolding byte_at
IsWritten-changed a m m' w = record { new = w.new; old = w.old }

-- A breakpoint that is set at an aligned address which is mapped, but is no address of a text
-- segment, in memory that is laid out, is not put on record, but the four bytes there become zero.
pub add_breakpoint-data :
    (addr : ℕ) (bkpts : List Bkpt) (m : Machine)
    → is_text m.mem addr ≡ false
    → IsLaidOut m.mem
    → addr % 4 ≡ 0
    → is_mapped m.mem addr ≡ true
    → (m' : Machine) × (add_breakpoint addr bkpts m ≡ done bkpts m')
      × IsWritten 4 addr 0 m.mem m'.mem
      × (read_mem_word addr m' ≡ done 0 m')
unfolding add_breakpoint set_breakpoint
add_breakpoint-data addr bkpts m no_text l words mapped =
    let m0 = record m { cpu = no_exception m.cpu } in
    let m1 = raised addr (record (raised addr m0) { mem = changed m.mem }) in
    let (mem, writes, laid, written, reads) =
      read_mem_word-set_mem_word addr 0 m1 (IsLaidOut-changed m.mem l) (omega arith) words mapped in
    let twice =
      (raise_at-IsRaised exc_ibe addr (raised addr m0).cpu (omega arith) (omega arith)).0 in
    (
      record m1 { mem = mem },
      rw
          (
            read_mem_inst-other addr m0 no_text,
            set_mem_inst-other addr (raised addr m0) no_text,
            writes,
            twice.flagged,
          )
          refl,
      IsWritten-changed addr m.mem mem written,
      reads,
    )
