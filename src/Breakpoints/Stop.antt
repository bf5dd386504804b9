-- ===== src/Breakpoints/Stop.antt =====
-- CPU/spim-utils.cpp and CPU/run.cpp: a run that comes to a breakpoint.
use spim_curses.Base.{
  ℕ, suc, ◌≡◌, refl, ◌∙◌, arith, Bool, true, false, some, List, [], has, bit_and, not32, update,
  add32,
}
use spim_curses.Base.Masks.{bit_and_assoc, bit_and_zero}
use spim_curses.Breakpoints.{Bkpt, run_on, run_program, no_exception}
use spim_curses.Breakpoints.Slots.{is_text, slot_at, read_mem_inst-slot_at}
use spim_curses.Cpu.Defs.{Cpu, status, set_r, set_cpr, status_reg, status_exl}
use spim_curses.Cpu.Exception.{raise_exception, interrupt_pending, exc_bp}
use spim_curses.Cpu.Exception.Raise.{raise_exception-IsRaised}
use spim_curses.Machine.{Machine, M, done}
use spim_curses.Memory.Defs.{break_inst}
use spim_curses.Run.LoadStore.{do_delayed_update}
use spim_curses.Run.Loop.{with_io, run_steps, run_chunks, run_spim, between_steps}
use spim_curses.Run.Step.{step, poll_timer, execute, break_op, run_instruction, after_switch}
use spim_curses.Syscall.System.{Outside}

-- The processor as a round of the loop finds it at an instruction.
abbrev fetched : Cpu → Cpu
fetched c = no_exception (set_r 0 0 c)

abbrev stopped : Machine → Machine
stopped m = record m { cpu = raise_exception exc_bp (fetched m.cpu) }

step-break :
    (env : Outside) (run_slot : M Bool) (m : Machine)
    → m.force_break ≡ false
    → m.console.ticks ≡ []
    → m.settings.delayed_loads ≡ false
    → is_text m.mem m.cpu.pc ≡ true
    → slot_at m.mem m.cpu.pc ≡ break_inst
    → step env run_slot m ≡ done (some true) (stopped m)
unfolding step poll_timer execute break_op run_instruction after_switch do_delayed_update
step-break env run_slot m force ticks now text stands = ground (
  arith,
  force,
  ticks,
  now,
  stands,
  read_mem_inst-slot_at m.cpu.pc (record m { cpu = fetched m.cpu }) text,
)

abbrev start : ℕ → Machine → Machine
start pc m = record m { cpu = record (m.cpu) { pc = pc }; force_break = false }

run_spim-stops :
    (env : Outside) (depth n pc : ℕ) (m : Machine)
    → with_io m.settings ≡ false
    → interrupt_pending m.cpu ≡ false
    → m.console.ticks ≡ []
    → m.settings.delayed_loads ≡ false
    → is_text m.mem pc ≡ true
    → slot_at m.mem pc ≡ break_inst
    → run_spim env (suc depth) pc (suc n) m ≡ done true (stopped (start pc m))
unfolding run_spim run_steps run_chunks between_steps
run_spim-stops env depth n pc m io pending ticks now text stands =
    let run_slot : M Bool = λ m'. run_spim env depth (add32 m'.cpu.pc 4) 1 m' in
    ground (arith, io, pending, step-break env run_slot (start pc m) refl ticks now text stands)

-- A run that is not told to go on past a breakpoint (`cont_bkpt` is false), of one step or more,
-- from an address of a text segment where a breakpoint stands, without simulated devices, delayed
-- loads, a pending interrupt or a reading of the timer to come, ends before the instruction: it
-- reports the breakpoint, the memory and the integer registers but for register 0, which is 0, are
-- as they were, PC is the address, and EXL is clear.
pub run_program-stops :
    (env : Outside) (depth n pc : ℕ) (bkpts : List Bkpt) (m : Machine)
    → with_io m.settings ≡ false
    → interrupt_pending m.cpu ≡ false
    → m.console.ticks ≡ []
    → m.settings.delayed_loads ≡ false
    → is_text m.mem pc ≡ true
    → slot_at m.mem pc ≡ break_inst
    → (m' : Machine) × (run_program (run_spim env (suc depth)) pc (suc n) false bkpts m
        ≡ done (record { met = true; continuable = true; bkpts = bkpts }) m')
      × (m'.mem ≡ m.mem)
      × (m'.cpu.pc ≡ pc)
      × (m'.cpu.r ≡ update m.cpu.r 0 0)
      × (has (status m'.cpu) status_exl ≡ false)
unfolding run_program run_on
run_program-stops env depth n pc bkpts m io pending ticks now text stands =
    let m0 = record m { cpu = no_exception m.cpu } in
    let m1 = stopped (start pc m0) in
    let r =
      raise_exception-IsRaised exc_bp (fetched (start pc m0).cpu) (omega arith) (omega arith) in
    let runs = run_spim-stops env depth n pc m0 io pending ticks now text stands in
    let off : bit_and (bit_and (status m1.cpu) (not32 status_exl)) status_exl ≡ 0 =
      bit_and_assoc (status m1.cpu) (not32 status_exl) status_exl ∙ bit_and_zero (status m1.cpu) in
    (
      record m1 { cpu = set_cpr status_reg (bit_and (status m1.cpu) (not32 status_exl)) m1.cpu },
      ground (arith, runs, r.flagged, r.code),
      refl,
      r.at,
      r.registers,
      ground (arith, off),
    )
