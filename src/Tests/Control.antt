-- ===== src/Tests/Control.antt =====
-- CPU/run.cpp and CPU/syscall.cpp: the properties of control at concrete machines.
use spim_curses.Base.{
  if◌then◌else◌, ℕ, ◌≡◌, refl, arith, true, false, add32, has, some, update, ◌==◌, if◌then◌else◌,
}
use spim_curses.Machine.{Machine, done}
use spim_curses.Cpu.Defs.{status, epc, status_exl}
use spim_curses.Cpu.Exception.{raise_exception, exception_addr, exc_ov, exc_tr, ex_code, round_down}
use spim_curses.Cpu.Exception.Raise.{of_exception, IsRaised, raise_exception-IsRaised}
use spim_curses.Inst.Op.{Op}
use spim_curses.Inst.Fields.{Instruction, idisp}
use spim_curses.Inst.Encode.RoundTrip.{i_type}
use spim_curses.Run.Branch.{jump_op, eret_inst}
use spim_curses.Run.Branch.Trapped.{IsAt, start, run_spim-trapped}
use spim_curses.Breakpoints.Slots.{slot_at}
use spim_curses.Memory.Defs.{code}
use spim_curses.Run.Branch.Return.{handling, eret-resumes}
use spim_curses.Run.Loop.{run_chunks, run_spim}
use spim_curses.Run.Loop.Pacing.{paced, run_chunks-paced}
use spim_curses.Run.Step.{step}
use spim_curses.Tests.Setting.{cpu0, machine0, memory0, outside0, slot0}

abbrev m0 : Machine
m0 = machine0 false

-- `bltzal $5, 16`
abbrev branch_inst0 : Instruction
branch_inst0 = i_type Op.bltzal 5 0 4

run_chunks-paced_example :
    run_chunks (step outside0 slot0) 250 100 250 m0 ≡ paced (step outside0 slot0) 100 250 0 m0
run_chunks-paced_example =
    run_chunks-paced (step outside0 slot0) 250 100 250 m0 (omega arith) (omega arith)

raise_exception-IsRaised_example : IsRaised exc_ov cpu0 (raise_exception exc_ov cpu0)
raise_exception-IsRaised_example = raise_exception-IsRaised exc_ov cpu0 (omega arith) (omega arith)

eret-resumes_example :
    (m' : Machine) × (jump_op slot0 Op.eret branch_inst0 ≡ some (eret_inst slot0))
    × (((handling exc_ov m0).cpu).pc ≡ exception_addr)
    × (eret_inst slot0 (handling exc_ov m0) ≡ done tt m')
    × (add32 m'.cpu.pc 4 ≡ round_down 0x40_0000)
    × (has (status m'.cpu) status_exl ≡ false)
    × (m'.cpu.r ≡ cpu0.r)
eret-resumes_example =
    eret-resumes slot0 branch_inst0 exc_ov m0 refl (omega arith) (omega arith) refl refl
      (omega arith)

-- `beq $1, $1, 16` and `teq $2, $2`.
abbrev beq0 : Instruction
beq0 = i_type Op.beq 1 1 4

abbrev teq0 : Instruction
teq0 = i_type Op.teq 2 2 0

abbrev slotted : Machine
slotted = record (machine0 true) {
  mem = record memory0 { text_seg = λ n. if n == 0 then code beq0 else code teq0 };
  settings = record {
    bare_machine = false;
    delayed_branches = true;
    delayed_loads = false;
    mapped_io = false;
  };
}

slot_beq : slot_at slotted.mem 0x40_0000 ≡ code beq0
unfolding slot_at
slot_beq = refl

slot_teq : slot_at slotted.mem 0x40_0004 ≡ code teq0
unfolding slot_at
slot_teq = refl

beq0-IsAt : IsAt beq0 (start 0x40_0000 slotted)
beq0-IsAt = record {
  at = slot_beq;
  text = refl;
  defined = refl;
  no_break = refl;
  no_ticks = refl;
  no_loads = refl;
}

teq0-IsAt : IsAt teq0 (start 0x40_0004 slotted)
teq0-IsAt = record {
  at = slot_teq;
  text = refl;
  defined = refl;
  no_break = refl;
  no_ticks = refl;
  no_loads = refl;
}

run_spim-trapped_example :
    (m' : Machine) × (run_spim outside0 2 0x40_0000 1 slotted ≡ done true m')
    × (m'.cpu.pc ≡ add32 (add32 0x40_0000 (idisp beq0)) 4)
    × (ex_code m'.cpu ≡ exc_tr)
    × (epc m'.cpu ≡ round_down 0x40_0000)
    × (has (status m'.cpu) status_exl ≡ true)
    × (m' ≡ record slotted { cpu = m'.cpu; force_break = false })
    × (m'.cpu ≡ record cpu0 {
      r = m'.cpu.r;
      pc = m'.cpu.pc;
      cpr = m'.cpu.cpr;
      exception_occurred = false;
      running_in_delay_slot = false;
    })
    × ((n : ℕ) → m'.cpu.r n ≡ update cpu0.r 0 0 n)
    × ((n : ℕ) → m'.cpu.cpr n ≡ (if of_exception n then m'.cpu.cpr n else cpu0.cpr n))
run_spim-trapped_example =
    run_spim-trapped outside0 0 0x40_0000 beq0 teq0 slotted (omega arith) refl refl refl refl
      beq0-IsAt refl refl teq0-IsAt refl refl
