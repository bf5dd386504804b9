-- ===== src/Tests/Programs.antt =====
-- CPU/spim-utils.cpp and CPU/syscall.cpp: the properties of breakpoints, system calls and the start
-- of a program at concrete machines.
use spim_curses.Base.{
  ℕ, ◌≤◌, ◌<◌, ◌≡◌, ◌⊎◌, refl, arith, true, false, has, update, List, [], ◌∷◌, none, ◌==◌, ◌||◌,
  if◌then◌else◌,
}
use spim_curses.Base.{suc, length}
use spim_curses.Breakpoints.{Bkpt, add_breakpoint, delete_breakpoint, run_program}
use spim_curses.Breakpoints.Misplaced.{add_breakpoint-data}
use spim_curses.Breakpoints.Placed.{IsPlaced, recorded, program_at}
use spim_curses.Breakpoints.Slots.{is_text, slot_at}
use spim_curses.Breakpoints.Stop.{run_program-stops}
use spim_curses.Breakpoints.Transparent.{add_breakpoint-transparent, delete_breakpoint-transparent}
use spim_curses.Base.{some}
use spim_curses.Command.{
  Command, Scanner, command_in, str_prefix, is_keyword, scan_word, newline, codes,
  read_assembly_command,
}
use spim_curses.Command.Reached.{is_constant, read_assembly_command-reached}
use spim_curses.Cpu.Defs.{status, status_exl, set_r}
use spim_curses.Inst.Decode.{zero_inst}
use spim_curses.Machine.{Machine, done}
use spim_curses.Memory.Access.{read_mem_word}
use spim_curses.Memory.Access.View.{byte_at, IsWritten}
use spim_curses.Memory.Defs.{Memory, code, break_inst}
use spim_curses.Memory.Growth.Data.{IsGrown}
use spim_curses.Run.Loop.{run_spim}
use spim_curses.Startup.{max_args, split_args, copy_str_to_stack}
use spim_curses.Startup.Arguments.{Spaced, line, words, split_args-words}
use spim_curses.Startup.Stack.{IsPushed, copy_str_to_stack-IsPushed}
use spim_curses.Symbols.Defs.{Symbols, new_label, streq, label_is_defined, get_hash, find_label}
use spim_curses.Assembler.Store.Stored.{HoldsAt}
use spim_curses.Assembler.Store.Text.{chars}
use spim_curses.Syscall.{do_syscall}
use spim_curses.Syscall.Input.{received, do_syscall-read_string}
use spim_curses.Syscall.Sbrk.{do_syscall-sbrk}
use spim_curses.Tests.Setting.{cpu0, machine0, memory0, memory0-IsLaidOut, outside0}

abbrev addr0 : ℕ
addr0 = 0x40_0004

-- A text of `nop`s, and the same with a breakpoint at `addr0`.
abbrev unbroken : Machine
unbroken = record (machine0 false) { mem = record memory0 { text_seg = λ n. code zero_inst } }

abbrev broken : Machine
broken = record (machine0 false) {
  mem = record memory0 { text_seg = λ n. if n == 1 then break_inst else code zero_inst };
  settings = record {
    bare_machine = false;
    delayed_branches = false;
    delayed_loads = false;
    mapped_io = false;
  };
}

abbrev bkpt0 : Bkpt
bkpt0 = record { addr = addr0; inst = code zero_inst }

slot_unbroken : slot_at unbroken.mem addr0 ≡ code zero_inst
unfolding slot_at
slot_unbroken = refl

slot_broken : slot_at broken.mem addr0 ≡ break_inst
unfolding slot_at
slot_broken = refl

broken-IsPlaced : IsPlaced (bkpt0 ∷ []) broken.mem
broken-IsPlaced = (refl, slot_broken, (refl, refl), refl, tt)

add_breakpoint-transparent_example :
    (m' : Machine) × (add_breakpoint addr0 [] unbroken
      ≡ done (record { addr = addr0; inst = slot_at unbroken.mem addr0 } ∷ []) m')
    × IsPlaced (record { addr = addr0; inst = slot_at unbroken.mem addr0 } ∷ []) m'.mem
    × ((a : ℕ)
        → is_text unbroken.mem a ≡ true
        → program_at (record { addr = addr0; inst = slot_at unbroken.mem addr0 } ∷ []) m'.mem a
          ≡ program_at [] unbroken.mem a)
unfolding slot_at
add_breakpoint-transparent_example =
    add_breakpoint-transparent addr0 [] unbroken tt refl (refl, refl)

delete_breakpoint-transparent_example :
    (bkpts' : List Bkpt) × (m' : Machine) × (delete_breakpoint addr0 (bkpt0 ∷ []) broken
      ≡ done bkpts' m')
    × IsPlaced bkpts' m'.mem
    × (recorded bkpts' addr0 ≡ none)
    × (m'.cpu ≡ broken.cpu)
    × ((a : ℕ)
        → is_text broken.mem a ≡ true
        → program_at bkpts' m'.mem a ≡ program_at (bkpt0 ∷ []) broken.mem a)
delete_breakpoint-transparent_example =
    delete_breakpoint-transparent addr0 (bkpt0 ∷ []) broken broken-IsPlaced refl

add_breakpoint-data_example :
    (m' : Machine) × (add_breakpoint 0x1000_0010 [] (machine0 false) ≡ done [] m')
    × IsWritten 4 0x1000_0010 0 memory0 m'.mem
    × (read_mem_word 0x1000_0010 m' ≡ done 0 m')
add_breakpoint-data_example =
    add_breakpoint-data 0x1000_0010 [] (machine0 false) refl memory0-IsLaidOut (omega arith) refl

run_program-stops_example :
    (m' : Machine) × (run_program (run_spim outside0 1) addr0 10 false (bkpt0 ∷ []) broken
      ≡ done (record { met = true; continuable = true; bkpts = bkpt0 ∷ [] }) m')
    × (m'.mem ≡ broken.mem)
    × (m'.cpu.pc ≡ addr0)
    × (m'.cpu.r ≡ update broken.cpu.r 0 0)
    × (has (status m'.cpu) status_exl ≡ false)
run_program-stops_example =
    run_program-stops outside0 0 9 addr0 (bkpt0 ∷ []) broken refl refl refl refl refl slot_broken

-- A system call with its number and its arguments.
abbrev calling : ℕ → ℕ → ℕ → Machine
calling v0 a0 a1 = record (machine0 false) { cpu = set_r 2 v0 (set_r 4 a0 (set_r 5 a1 cpu0)) }

do_syscall-sbrk_example :
    (mem : Memory) × (do_syscall outside0 (calling 9 100 0)
      ≡ done true
          (record (calling 9 100 0) { mem = mem; cpu = set_r 2 0x1000_1000 (calling 9 100 0).cpu }))
    × IsGrown 100 memory0 mem
do_syscall-sbrk_example =
    do_syscall-sbrk outside0 100 (calling 9 100 0) refl refl memory0-IsLaidOut (omega arith)
      (omega arith) (omega arith) (omega arith)

do_syscall-read_string_example :
    (m' : Machine) × (do_syscall outside0 (calling 8 0x1000_0010 16) ≡ done true m')
    × (m'.cpu ≡ (calling 8 0x1000_0010 16).cpu)
    × HoldsAt m'.mem 0x1000_0010 (chars (received 16 (calling 8 0x1000_0010 16)))
    × ((x : ℕ) → (x < 0x1000_0010) ⊎ (0x1000_0020 ≤ x) → byte_at m'.mem x ≡ byte_at memory0 x)
do_syscall-read_string_example =
    do_syscall-read_string outside0 0x1000_0010 16 (calling 8 0x1000_0010 16) refl refl refl
      (omega arith) memory0-IsLaidOut (omega arith) (omega arith) (omega arith)

-- ` ab  c`
abbrev spaced0 : List Spaced
spaced0 =
    record { blanks = 32 ∷ []; first = 97; more = 98 ∷ [] }
    ∷ (record { blanks = 9 ∷ []; first = 99; more = [] } ∷ [])

split_args-words_example :
    split_args (suc (length (line spaced0))) max_args (line spaced0) ≡ words spaced0
split_args-words_example =
    split_args-words spaced0 ((refl, tt), (refl, (refl, tt)), ((refl, tt), (refl, tt), tt))
      (omega arith)

abbrev starting : Machine
starting = record (machine0 false) { cpu = set_r 29 0x7fff_ff00 cpu0 }

copy_str_to_stack-IsPushed_example :
    (m' : Machine) × (copy_str_to_stack (104 ∷ 105 ∷ []) starting ≡ done 0x7fff_fefe m')
    × IsPushed (104 ∷ 105 ∷ 0 ∷ []) starting m'
copy_str_to_stack-IsPushed_example =
    copy_str_to_stack-IsPushed (104 ∷ 105 ∷ []) starting memory0-IsLaidOut (omega arith)
      (omega arith)

abbrev no_symbols : Symbols
no_symbols = record {
  label = λ n. new_label [];
  allocated = 0;
  table = λ n. [];
  local_labels = none;
}

-- No label is known, and `li` is the only keyword.
abbrev scanner0 : Scanner
scanner0 = record {
  check_keyword = λ name pseudo. if streq name (codes "li") then 300 else 0;
  bare_machine = false;
  accept_pseudo_insts = true;
  only_id = false;
  symbols = no_symbols;
}

-- `st` for `step`.
read_assembly_command-reached_example :
    read_assembly_command (scan_word scanner0 (codes "st") ∷ newline ∷ [])
    ≡ some (
      if is_keyword scanner0 (codes "st") || is_constant scanner0 (codes "st")
          then Command.unknown
          else Command.step,
      newline ∷ [],
    )
read_assembly_command-reached_example =
    read_assembly_command-reached scanner0 9 (codes "step") 1 Command.step (codes "st")
      (newline ∷ []) refl (codes "ep", refl, omega arith)

-- `li` is an instruction and `st` is none.
keywords :
    (read_assembly_command (scan_word scanner0 (codes "li") ∷ []) ≡ some (Command.unknown, []))
    × (read_assembly_command (scan_word scanner0 (codes "st") ∷ []) ≡ some (Command.step, []))
unfolding read_assembly_command command_in str_prefix scan_word label_is_defined get_hash find_label
    streq
keywords = (refl, refl)
