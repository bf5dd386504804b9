-- ===== src/Startup.antt =====
-- CPU/spim-utils.cpp: the registers and the stack at the start of a program.
pub mod Arguments
pub mod Stack
use spim_curses.Base.{
  ℕ, zero, suc, ◌+◌, ◌-◌, ◌&&◌, ◌||◌, ◌==◌, ltb, if◌then◌else◌, bit_and, bit_or, Bool, Option, none,
  some, List, [], ◌∷◌, ◌++◌, length, add32, sub32, not32, update,
}
use spim_curses.Cpu.Defs.{
  Cpu, set_r, bad_v_addr_reg, count_reg, compare_reg, status_reg, cause_reg, epc_reg, config_reg,
  status_im, status_um,
}
use spim_curses.Cpu.Floating.{fir_reg, fcsr_reg}
use spim_curses.Machine.{M, ◌>>=◌, ◌>>◌, get, skip, pure, on_cpu}
use spim_curses.Memory.Access.{set_mem_byte, set_mem_word}
use spim_curses.Memory.Defs.{stack_top}
use spim_curses.Syscall.{reg_a0, reg_a1, reg_a2}

abbrev pub reg_sp : ℕ
reg_sp = 29

-- `memclr` of the first `n` places.
abbrev cleared : ℕ → (ℕ → ℕ) → ℕ → ℕ
cleared n f i = if ltb i n then 0 else f i

-- On a little-endian host, whose `CP0_Config` is 0.
unfoldable pub initialize_registers : Cpu → Cpu
initialize_registers c = record c {
  fgr = cleared 32 c.fgr;
  r = update (cleared 32 c.r) reg_sp (stack_top - 4 - 4096);
  hi = 0;
  lo = 0;
  pc = 0;
  cpr =
      update
        (update
          (update
            (update (update (update (update c.cpr bad_v_addr_reg 0) count_reg 0) compare_reg 0)
              status_reg (bit_or 0x3000_0000 (bit_or status_im status_um)))
            cause_reg 0)
          epc_reg 0)
        config_reg 0;
  fcr = update (update c.fcr fir_reg 0x9800) fcsr_reg 0;
}

abbrev pub is_blank : ℕ → Bool
is_blank c = (c == 32) || (c == 9)

abbrev pub skip_blanks : List ℕ → List ℕ
skip_blanks [] = []
skip_blanks (c ∷ args) = let rest = skip_blanks args in if is_blank c then rest else c ∷ args

-- The word at the front, and what follows it.
abbrev pub take_word : List ℕ → List ℕ × List ℕ
take_word [] = ([], [])
take_word (c ∷ args) =
    let rest = take_word args in if is_blank c then ([], c ∷ args) else (c ∷ rest.0, rest.1)

-- `if (*args != '\0') *args++ = '\0'`
abbrev pub after_word : List ℕ → List ℕ
after_word [] = []
after_word (c ∷ args) = args

abbrev pub max_args : ℕ
max_args = 10000

-- The loop of `initialize_stack` with room for so many words: `argv`. A round that finds a word
-- takes a character off at least, and one that does not is the last.
unfoldable pub split_args : ℕ → ℕ → List ℕ → List (List ℕ)
split_args zero room args = []
split_args (suc fuel) room [] = []
split_args (suc fuel) room (c ∷ args) =
    let found = take_word (skip_blanks (c ∷ args)) in
    let rest = split_args fuel (room - 1) (after_word found.1) in
    elim found.0 [ [] ↦ [] | d ∷ word ↦ (d ∷ word) ∷ (if room == 1 then [] else rest) ]

-- The address in `$sp`, and a step down.
abbrev pub stack_pointer : M ℕ
stack_pointer = get (λ m. m.cpu.r reg_sp)

abbrev pub set_sp : ℕ → M (Unit {0})
set_sp v = on_cpu (set_r reg_sp v)

unfoldable pub push_byte : ℕ → M (Unit {0})
push_byte c = do sp ← stack_pointer; set_mem_byte sp c; set_sp (sub32 sp 1)

-- The loop of `copy_str_to_stack`, from the last byte to the first.
unfoldable pub push_bytes : List ℕ → M (Unit {0})
unfolding push_byte
push_bytes [] = skip
push_bytes (c ∷ s) = do push_bytes s; push_byte c

unfoldable pub copy_str_to_stack : List ℕ → M ℕ
unfolding push_bytes
copy_str_to_stack s = do push_bytes (s ++ (0 ∷ [])); sp ← stack_pointer; pure (add32 sp 1)

unfoldable pub copy_int_to_stack : ℕ → M ℕ
copy_int_to_stack n = do
  sp ← stack_pointer
  set_mem_word sp n
  set_sp (sub32 sp 4)
  pure (add32 (sub32 sp 4) 4)

-- The addresses of the strings, the first string's first.
unfoldable pub copy_strings : List (List ℕ) → M (List ℕ)
unfolding copy_str_to_stack
copy_strings [] = pure []
copy_strings (s ∷ strings) = do
  a ← copy_str_to_stack s
  rest ← copy_strings strings
  pure (a ∷ rest)

-- A vector with its null, from its last address to its first; the register gets where the last
-- copied one, the first address, stands.
unfoldable pub copy_vector : ℕ → List ℕ → M (Unit {0})
unfolding copy_int_to_stack
copy_vector reg [] = do _ ← copy_int_to_stack 0; skip
copy_vector reg (a ∷ addrs) = do
  copy_vector reg addrs
  where_it_is ← copy_int_to_stack a
  on_cpu (set_r reg where_it_is)

unfoldable pub initialize_run_stack : List (List ℕ) → List (List ℕ) → M (Unit {0})
unfolding copy_strings copy_vector
initialize_run_stack argv environ = do
  set_sp (stack_top - 1)
  env_addrs ← copy_strings environ
  arg_addrs ← copy_strings argv
  sp ← stack_pointer
  set_sp (bit_and (sub32 (bit_and sp (not32 3)) 4) (not32 7))
  copy_vector reg_a2 env_addrs
  copy_vector reg_a1 arg_addrs
  on_cpu (set_r reg_a0 (length argv))
  bottom ← stack_pointer
  set_mem_word bottom (length argv)

unfoldable pub initialize_stack : List ℕ → List (List ℕ) → M (Unit {0})
unfolding split_args initialize_run_stack
initialize_stack command_line environ =
    initialize_run_stack (split_args (suc (length command_line)) max_args command_line) environ
