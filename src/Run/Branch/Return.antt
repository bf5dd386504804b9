-- ===== src/Run/Branch/Return.antt =====
-- CPU/run.cpp: an exception, its handler's entry, and the return with `eret`.
use spim_curses.Base.{
  ℕ, ◌/◌, ◌^◌, ◌<◌, ◌≡◌, ◌≢◌, refl, ◌∙◌, arith, Bool, false, bit_and, add32, not32, IsWord, has,
  some,
}
use spim_curses.Base.Fields.{bit_and_high, bit_and_low}
use spim_curses.Base.Masks.{bit_and_assoc, bit_and_zero}
use spim_curses.Cpu.Defs.{status, status_exl}
use spim_curses.Cpu.Exception.{
  raise_exception, handle_exception, exception_addr, exc_int, round_down,
}
use spim_curses.Cpu.Exception.Raise.{raise_exception-IsRaised}
use spim_curses.Machine.{Machine, M, done, left_by}
use spim_curses.Inst.Op.{Op}
use spim_curses.Inst.Fields.{Instruction}
use spim_curses.Run.Branch.{jump_op, jump_inst, eret_inst}

-- The machine once the simulator has turned to the handler.
abbrev pub handling : ℕ → Machine → Machine
handling excode m = record m { cpu = handle_exception (raise_exception excode m.cpu) }

aligned_below : (pc : ℕ) → IsWord pc → round_down pc < 2 ^ 32
aligned_below pc h = omega (arith, bit_and_high 2 pc 0x3fff_ffff, bit_and_low 30 (pc / 2 ^ 2))

-- Without delayed branches, and with EXL clear before, an exception outside a delay slot leads to
-- the handler's address, and an `eret` in the state that the handler starts in goes to the PC of
-- the exception rounded down, with EXL clear and the integer registers unchanged.
pub eret-resumes :
    (run_slot : M Bool) (inst : Instruction) (excode : ℕ) (m : Machine)
    → m.settings.delayed_branches ≡ false
    → excode < 32
    → excode ≢ exc_int
    → has (status m.cpu) status_exl ≡ false
    → m.cpu.running_in_delay_slot ≡ false
    → IsWord m.cpu.pc
    → (m' : Machine) × (jump_op run_slot Op.eret inst ≡ some (eret_inst run_slot))
      × (((handling excode m).cpu).pc ≡ exception_addr)
      × (eret_inst run_slot (handling excode m) ≡ done tt m')
      × (add32 m'.cpu.pc 4 ≡ round_down m.cpu.pc)
      × (has (status m'.cpu) status_exl ≡ false)
      × (m'.cpu.r ≡ m.cpu.r)
unfolding jump_op eret_inst jump_inst handle_exception
eret-resumes run_slot inst excode m h p q exl slot word =
    let c = (handling excode m).cpu in
    let r = raise_exception-IsRaised excode m.cpu p q in
    let m' = left_by m (eret_inst run_slot (handling excode m)) in
    let off : bit_and (bit_and (status c) (not32 status_exl)) status_exl ≡ 0 =
      bit_and_assoc (status c) (not32 status_exl) status_exl ∙ bit_and_zero (status c) in
    (
      m',
      refl,
      refl,
      ground (arith, h),
      ground (arith, h, r.return_to, exl, slot, aligned_below m.cpu.pc word),
      ground (arith, h, off),
      ground (arith, h, r.registers),
    )
