-- ===== src/Breakpoints.antt =====
-- Breakpoints: `inst_is_breakpoint` and `set_breakpoint` of CPU/inst.cpp, and the list of
-- CPU/spim-utils.cpp with `run_program`.
pub mod Slots
pub mod Placed
pub mod Transparent
pub mod Misplaced
pub mod Stop
use spim_curses.Base.{
  ℕ, ◌-◌, Bool, true, false, ◌&&◌, ◌==◌, if◌then◌else◌, bit_and, not32, List, [], ◌∷◌,
}
use spim_curses.Cpu.Defs.{Cpu, status, set_cpr, status_reg, status_exl}
use spim_curses.Cpu.Exception.{ex_code, exc_bp}
use spim_curses.Machine.{M, ◌>>=◌, ◌>>◌, get, pure, on_cpu}
use spim_curses.Memory.Access.{read_mem_inst, set_mem_inst}
use spim_curses.Memory.Defs.{Slot, empty, code, break_inst}

-- `bkpt`. Its `inst` is never NULL.
pub record Bkpt : Type 0 where
  pub addr : ℕ
  pub inst : Slot

abbrev pub is_break : Slot → Bool
is_break break_inst = true
is_break _ = false

abbrev pub is_null : Slot → Bool
is_null empty = true
is_null _ = false

abbrev pub no_exception : Cpu → Cpu
no_exception c = record c { exception_occurred = false }

unfoldable pub inst_is_breakpoint : ℕ → M Bool
inst_is_breakpoint addr = do slot ← read_mem_inst addr; pure (is_break slot)

-- The instruction that stood there, or NULL, which is `empty`.
unfoldable pub set_breakpoint : ℕ → M Slot
set_breakpoint addr = do
  on_cpu no_exception
  old_inst ← read_mem_inst addr
  if is_break old_inst then pure empty else (do
    set_mem_inst addr break_inst
    failed ← get (λ m. m.cpu.exception_occurred)
    pure (if failed then empty else old_inst))

-- The list `bkpts` is handed in, and handed on.
unfoldable pub add_breakpoint : ℕ → List Bkpt → M (List Bkpt)
unfolding set_breakpoint
add_breakpoint addr bkpts = do
  inst ← set_breakpoint addr
  pure (if is_null inst then bkpts else record { addr = addr; inst = inst } ∷ bkpts)

unfoldable pub delete_breakpoint : ℕ → List Bkpt → M (List Bkpt)
delete_breakpoint addr [] = pure []
delete_breakpoint addr (b ∷ bkpts) =
    let rest = delete_breakpoint addr bkpts in
    if b.addr == addr
    then (do set_mem_inst addr b.inst; rest)
    else (do kept ← rest; pure (b ∷ kept))

-- What `run_program` gives: whether a breakpoint was met, `*continuable`, and the list.
pub record Run : Type 0 where
  pub met : Bool
  pub continuable : Bool
  pub bkpts : List Bkpt

-- `run` is `run_spim`; its first argument is the address, the second the number of steps.
module _ (run : ℕ → ℕ → M Bool) where
  -- The part after the step over a breakpoint.
  unfoldable pub run_on : ℕ → ℕ → List Bkpt → M Run
  run_on pc steps bkpts = do
    on_cpu no_exception
    continuable ← run pc steps
    met ← get (λ m. m.cpu.exception_occurred && (ex_code m.cpu == exc_bp))
    if met
        then (do
          on_cpu (λ c. set_cpr status_reg (bit_and (status c) (not32 status_exl)) c)
          pure (record { met = true; continuable = continuable; bkpts = bkpts }))
        else pure (record { met = false; continuable = continuable; bkpts = bkpts })

  -- One step from an address without its breakpoint, and its number of steps less one. At a number
  -- of 0 the source comes to -1, for which `run_spim` takes no step either.
  unfoldable pub step_over : ℕ → List Bkpt → M (List Bkpt)
  unfolding delete_breakpoint add_breakpoint
  step_over pc bkpts = do
    now ← get (λ m. m.cpu.pc)
    let addr = if now == 0 then pc else now
    rest ← delete_breakpoint addr bkpts
    on_cpu no_exception
    _ ← run addr 1
    add_breakpoint addr rest

  unfoldable pub run_program : ℕ → ℕ → Bool → List Bkpt → M Run
  unfolding run_on step_over inst_is_breakpoint
  run_program pc steps cont_bkpt bkpts = do
    at_bkpt ← if cont_bkpt then inst_is_breakpoint pc else pure false
    if at_bkpt
        then (do
          after ← step_over pc bkpts
          now ← get (λ m. m.cpu.pc)
          run_on now (steps - 1) after)
        else run_on pc steps bkpts
