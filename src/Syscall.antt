-- ===== src/Syscall.antt =====
-- CPU/syscall.cpp: `do_syscall`.
pub mod System
pub mod Pointer
pub mod Console
pub mod Dispatch
pub mod Sbrk
pub mod Strings
pub mod Input
use spim_curses.Base.{
  ℕ, ◌-◌, ◌%◌, ◌^◌, Bool, true, false, Option, none, some, List, [], ◌∷◌, ◌==◌, if◌then◌else◌,
  add32, sub32, sext8,
}
use spim_curses.Cpu.Defs.{set_r, set_fgr}
use spim_curses.Cpu.Floating.{double_at, put_double}
use spim_curses.Machine.{
  Machine, FileCall, Answer, call_open, call_read, call_write, call_close, M, ◌>>=◌, ◌>>◌, get,
  pure, fail, on_cpu, on_mem, on_console, unknown_syscall,
}
use spim_curses.Memory.Segments.{expand_data}
use spim_curses.Syscall.Console.{newline, read_input, write_output}
use spim_curses.Syscall.Pointer.{mem_reference, string_at, bytes_at, store_bytes_at}
use spim_curses.Syscall.System.{Outside}

-- `..._SYSCALL`
pub data SystemCall : Type 0 where
  print_int print_float print_double print_string read_int read_float read_double read_string :
      SystemCall
  sbrk exit print_character read_character open_file read_file write_file close_file exit2 :
      SystemCall

abbrev pub number_of : SystemCall → ℕ
number_of print_int = 1
number_of print_float = 2
number_of print_double = 3
number_of print_string = 4
number_of read_int = 5
number_of read_float = 6
number_of read_double = 7
number_of read_string = 8
number_of sbrk = 9
number_of exit = 10
number_of print_character = 11
number_of read_character = 12
number_of open_file = 13
number_of read_file = 14
number_of write_file = 15
number_of close_file = 16
number_of exit2 = 17

abbrev find_call : List SystemCall → ℕ → Option SystemCall
find_call [] n = none
find_call (call ∷ rest) n =
    let found = find_call rest n in if number_of call == n then some call else found

-- The case that a number selects; `none` is `default`.
unfoldable pub call_of : ℕ → Option SystemCall
call_of = find_call (
    print_int ∷ print_float ∷ print_double ∷ print_string ∷ read_int ∷ read_float ∷ read_double
    ∷ read_string ∷ sbrk ∷ exit ∷ print_character ∷ read_character ∷ open_file ∷ read_file
    ∷ write_file ∷ close_file ∷ exit2 ∷ [])

abbrev pub reg_v0 : ℕ
reg_v0 = 2

abbrev pub reg_a0 : ℕ
reg_a0 = 4

abbrev pub reg_a1 : ℕ
reg_a1 = 5

abbrev pub reg_a2 : ℕ
reg_a2 = 6

abbrev pub reg_fa0 : ℕ
reg_fa0 = 12

abbrev reg_fres : ℕ
reg_fres = 0

abbrev pub register : ℕ → M ℕ
register n = get (λ m. m.cpu.r n)

-- `R[REG_RES] = v`, which is `$v0`.
abbrev pub give : ℕ → M (Unit {0})
give v = on_cpu (set_r reg_v0 v)

abbrev pub mark_data : M (Unit {0})
mark_data = on_mem (λ m. record m { data_modified = true })

-- A call of the operating system, which fails when the list of answers has come to its end.
unfoldable pub ask : FileCall → M Answer
ask call m =
    let c = m.console in
    elim c.answers [
      | [] ↦
          pure (record { result = 2 ^ 32 - 1; stored = [] })
            (record m { console = record c { calls = call ∷ c.calls } })
      | answer ∷ rest ↦
          pure answer (record m { console = record c { answers = rest; calls = call ∷ c.calls } })
    ]

-- The first byte of what was read, with a newline in place of none.
abbrev pub first_char : List ℕ → ℕ
first_char [] = newline
first_char (b ∷ bs) = if b == 0 then newline else b

unfoldable pub sbrk_call : M (Unit {0})
sbrk_call = do
  x ← get (λ m. m.mem.data_top)
  a0 ← register reg_a0
  expand_data a0
  give x
  mark_data

-- The ends of the cases: `return (0)`, and `break`.
abbrev exit_with : ℕ → M Bool
exit_with v m = pure false (record m { spim_return_value = v })

abbrev pub go_on : M (Unit {0}) → M Bool
go_on run = do run; pure true

module _ (env : Outside) where
  -- The calls that print.
  unfoldable pub print_string_call : M (Unit {0})
  unfolding mem_reference
  print_string_call = do
    a0 ← register reg_a0
    p ← mem_reference a0
    text ← get (λ m. string_at env p m.mem)
    write_output text

  -- The calls that read from the console.
  unfoldable pub read_number_call : (List ℕ → M (Unit {0})) → M (Unit {0})
  unfolding read_input
  read_number_call use_text = do str ← read_input 256; use_text str

  unfoldable pub read_string_call : M (Unit {0})
  unfolding read_input mem_reference
  read_string_call = do
    a0 ← register reg_a0
    p ← mem_reference a0
    a1 ← register reg_a1
    str ← read_input a1
    store_bytes_at env str p
    mark_data

  unfoldable pub read_character_call : M (Unit {0})
  unfolding read_input
  read_character_call = do str ← read_input 2; give (sext8 (first_char str))

  -- The calls for files.
  unfoldable pub open_call : M (Unit {0})
  unfolding mem_reference ask
  open_call = do
    a0 ← register reg_a0
    p ← mem_reference a0
    m ← get (λ m. m)
    answer ← ask (call_open (string_at env p m.mem) (m.cpu.r reg_a1) (m.cpu.r reg_a2))
    give answer.result

  unfoldable pub read_call : M (Unit {0})
  unfolding mem_reference ask
  read_call = do
    c ← get (λ m. m.cpu)
    _ ← mem_reference (sub32 (add32 (c.r reg_a1) (c.r reg_a2)) 1)
    p ← mem_reference (c.r reg_a1)
    answer ← ask (call_read (c.r reg_a0) (c.r reg_a2))
    store_bytes_at env answer.stored p
    give answer.result
    mark_data

  unfoldable pub write_call : M (Unit {0})
  unfolding mem_reference ask
  write_call = do
    c ← get (λ m. m.cpu)
    _ ← mem_reference (sub32 (add32 (c.r reg_a1) (c.r reg_a2)) 1)
    p ← mem_reference (c.r reg_a1)
    m ← get (λ m. m.mem)
    answer ← ask (call_write (c.r reg_a0) (bytes_at env (c.r reg_a2) p m))
    give answer.result

  unfoldable pub close_call : M (Unit {0})
  unfolding ask
  close_call = do a0 ← register reg_a0; answer ← ask (call_close a0); give answer.result

  -- `false` after the calls that end the program.
  unfoldable pub syscall_case : SystemCall → M Bool
  unfolding sbrk_call
  syscall_case print_int = go_on (do a0 ← register reg_a0; write_output (env.format_int a0))
  syscall_case print_float =
      go_on (do val ← get (λ m. m.cpu.fgr reg_fa0); write_output (env.format_float val))
  syscall_case print_double =
      go_on (do val ← get (λ m. double_at reg_fa0 m.cpu); write_output (env.format_double val))
  syscall_case print_string = go_on print_string_call
  syscall_case read_int = go_on (read_number_call (λ str. give (env.atol str)))
  syscall_case read_float =
      go_on (read_number_call (λ str. on_cpu (set_fgr reg_fres (env.host.s_of_d (env.atof str)))))
  syscall_case read_double =
      go_on (read_number_call (λ str. on_cpu (put_double reg_fres (env.atof str))))
  syscall_case read_string = go_on read_string_call
  syscall_case sbrk = go_on sbrk_call
  syscall_case exit = exit_with 0
  syscall_case print_character = go_on (do a0 ← register reg_a0; write_output (a0 % 2 ^ 8 ∷ []))
  syscall_case read_character = go_on read_character_call
  syscall_case open_file = go_on open_call
  syscall_case read_file = go_on read_call
  syscall_case write_file = go_on write_call
  syscall_case close_file = go_on close_call
  syscall_case exit2 = do a0 ← register reg_a0; exit_with a0

  unfoldable pub do_syscall : M Bool
  unfolding call_of syscall_case
  do_syscall = do
    v0 ← register reg_v0
    elim (call_of v0) [ none ↦ fail unknown_syscall | some call ↦ syscall_case call ]
