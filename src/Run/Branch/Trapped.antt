-- ===== src/Run/Branch/Trapped.antt =====
-- CPU/run.cpp: a trap in the delay slot of a branch that is taken.
use spim_curses.Base.{
  sym, if◌then◌else◌, ℕ, suc, ◌≡◌, refl, ◌∙◌, ap, arith, Bool, true, false, none, [], has, update,
  add32, sub32, IsWord,
}
use spim_curses.Breakpoints.Slots.{is_text, slot_at, read_mem_inst-slot_at}
use spim_curses.Cpu.Defs.{Cpu, status, epc, set_r, status_exl}
use spim_curses.Cpu.Exception.{
  raise_exception, handle_exception, interrupt_pending, exc_tr, ex_code, round_down,
}
use spim_curses.Cpu.Exception.Raise.{
  raise_exception-IsRaised, raise_exception-frame, raise_exception-cpr, of_exception,
}
use spim_curses.Inst.Fields.{Instruction, idisp}
use spim_curses.Inst.Op.{Op}
use spim_curses.Machine.{Machine, M, done, bind}
use spim_curses.Memory.Defs.{code}
use spim_curses.Run.Alu.{arith_op, shift_op, mul_op, cp0_op, trap_op, other_op, vs, vt}
use spim_curses.Run.LoadStore.{memory_op, do_delayed_update}
use spim_curses.Run.Branch.{branch_op, branch_inst, jump_inst}
use spim_curses.Run.Loop.{with_io, run_steps, run_chunks, run_spim, between_steps}
use spim_curses.Run.Step.{
  step, poll_timer, execute, cpu_op, run_instruction, after_switch, next, simple_op,
}
use spim_curses.Syscall.System.{Outside}

-- The processor as a round of the loop finds it at an instruction.
abbrev pub fetched : Cpu → Cpu
fetched c = record (set_r 0 0 c) { exception_occurred = false }

-- The instruction `i` stands at the PC, and nothing but it is to be done in a round.
pub record IsAt (i : Instruction) (m : Machine) : Type 0 where
  pub at : slot_at m.mem m.cpu.pc ≡ code i
  pub text : is_text m.mem m.cpu.pc ≡ true
  pub defined : i.expr ≡ none
  pub no_break : m.force_break ≡ false
  pub no_ticks : m.console.ticks ≡ []
  pub no_loads : m.settings.delayed_loads ≡ false

abbrev at_fetch : Machine → Machine
at_fetch m = record m { cpu = fetched m.cpu }

step-IsAt :
    (env : Outside) (run_slot : M Bool) (i : Instruction) (m : Machine)
    → IsAt i m
    → step env run_slot m
      ≡ bind (execute env run_slot i.opcode i (at_fetch m)) (after_switch env run_slot)
unfolding step poll_timer run_instruction do_delayed_update
step-IsAt env run_slot i m h = ground (arith, h, read_mem_inst-slot_at m.cpu.pc (at_fetch m) h.text)

execute-teq :
    (env : Outside) (run_slot : M Bool) (i : Instruction) (m : Machine)
    → i.opcode ≡ Op.teq
    → vs i m.cpu ≡ vt i m.cpu
    → execute env run_slot i.opcode i m
      ≡ done next (record m { cpu = raise_exception exc_tr m.cpu })
unfolding execute cpu_op arith_op shift_op mul_op cp0_op trap_op
execute-teq env run_slot i m op same = rw op (ground (arith, same))

abbrev trapped : Machine → Machine
trapped m = record m { cpu = handle_exception (raise_exception exc_tr (fetched m.cpu)) }

step-trap :
    (env : Outside) (run_slot : M Bool) (i : Instruction) (m : Machine)
    → IsAt i m
    → i.opcode ≡ Op.teq
    → vs i (fetched m.cpu) ≡ vt i (fetched m.cpu)
    → step env run_slot m ≡ done none (trapped m)
unfolding after_switch handle_exception
step-trap env run_slot i m h op same =
    step-IsAt env run_slot i m h
    ∙ ap (λ o. bind o (after_switch env run_slot)) (execute-teq env run_slot i (at_fetch m) op same)
    ∙ ground (
      arith,
      (raise_exception-IsRaised exc_tr (fetched m.cpu) (omega arith) (omega arith)).flagged,
    )

abbrev pub start : ℕ → Machine → Machine
start pc m = record m { cpu = record (m.cpu) { pc = pc }; force_break = false }

-- One step of a run, of an instruction that goes on.
run_spim-one :
    (env : Outside) (depth pc : ℕ) (m m' : Machine)
    → with_io m.settings ≡ false
    → interrupt_pending m.cpu ≡ false
    → step env (λ s. run_spim env depth (add32 s.cpu.pc 4) 1 s) (start pc m) ≡ done none m'
    → run_spim env (suc depth) pc 1 m ≡ done true m'
unfolding run_spim run_steps run_chunks between_steps
run_spim-one env depth pc m m' io pending h = ground (arith, io, pending, h)

abbrev in_slot : Machine → Machine
in_slot m = record m { cpu = record (m.cpu) { running_in_delay_slot = true } }

abbrev out_to : ℕ → Machine → Machine
out_to t m = record m { cpu = record (m.cpu) { pc = t; running_in_delay_slot = false } }

execute-beq :
    (env : Outside) (run_slot : M Bool) (i : Instruction) (m m' : Machine) (go_on : Bool)
    → i.opcode ≡ Op.beq
    → m.settings.delayed_branches ≡ true
    → vs i m.cpu ≡ vt i m.cpu
    → run_slot (in_slot m) ≡ done go_on m'
    → execute env run_slot i.opcode i m
      ≡ done next (out_to (sub32 (add32 (add32 m.cpu.pc (idisp i)) 4) 4) m')
unfolding execute cpu_op arith_op shift_op mul_op cp0_op trap_op other_op simple_op memory_op
    branch_op branch_inst jump_inst
execute-beq env run_slot i m m' go_on op delayed same slot =
    rw op (ground (arith, same, delayed, slot))

-- Back at the branch, with the PC that follows it.
abbrev gone : ℕ → Machine → Machine
gone t m = record m { cpu = record (m.cpu) { pc = add32 t 4; running_in_delay_slot = false } }

-- With delayed branches, a run of one step from an address where `beq` stands with equal operands,
-- and `teq` with equal operands in its delay slot, both in a text segment and with no expression,
-- ends at the branch's target, and not at the handler, though the trap was raised: its code is in
-- Cause, EXL is set and EPC is the branch's address rounded down. The flags of exceptions and of
-- delay slots are clear, register 0 is 0, the rest of coprocessor 0 and of the processor is as it
-- was, and so is the rest of the machine, but that the flag that asks for a break is clear. The
-- address is a word, EXL is clear before, register 0 counts as 0, slots may be nested two deep or
-- more, and there are no simulated devices, delayed loads, pending interrupt or reading of the
-- timer to come.
pub run_spim-trapped :
    (env : Outside) (depth pc : ℕ) (branch trap : Instruction) (m : Machine)
    → IsWord pc
    → with_io m.settings ≡ false
    → m.settings.delayed_branches ≡ true
    → interrupt_pending m.cpu ≡ false
    → has (status m.cpu) status_exl ≡ false
    → IsAt branch (start pc m)
    → branch.opcode ≡ Op.beq
    → vs branch (fetched m.cpu) ≡ vt branch (fetched m.cpu)
    → IsAt trap (start (add32 pc 4) m)
    → trap.opcode ≡ Op.teq
    → vs trap (fetched m.cpu) ≡ vt trap (fetched m.cpu)
    → (m' : Machine) × (run_spim env (suc (suc depth)) pc 1 m ≡ done true m')
      × (m'.cpu.pc ≡ add32 (add32 pc (idisp branch)) 4)
      × (ex_code m'.cpu ≡ exc_tr)
      × (epc m'.cpu ≡ round_down pc)
      × (has (status m'.cpu) status_exl ≡ true)
      × (m' ≡ record m { cpu = m'.cpu; force_break = false })
      × (m'.cpu ≡ record (m.cpu) {
        r = m'.cpu.r;
        pc = m'.cpu.pc;
        cpr = m'.cpu.cpr;
        exception_occurred = false;
        running_in_delay_slot = false;
      })
      × ((n : ℕ) → m'.cpu.r n ≡ update m.cpu.r 0 0 n)
      × ((n : ℕ) → m'.cpu.cpr n ≡ (if of_exception n then m'.cpu.cpr n else m.cpu.cpr n))
unfolding handle_exception after_switch
run_spim-trapped env depth pc branch trap m word io delayed pending low at op taken at' op' same =
    let run_slot : M Bool = λ s. run_spim env (suc depth) (add32 s.cpu.pc 4) 1 s in
    let m1 = at_fetch (start pc m) in
    let m2 = start (add32 pc 4) (in_slot m1) in
    let m3 = trapped m2 in
    let f = fetched m2.cpu in
    let r = raise_exception-IsRaised exc_tr f (omega arith) (omega arith) in
    let slot : run_slot (in_slot m1) ≡ done true m3 =
      run_spim-one env depth (add32 pc 4) (in_slot m1) m3 io pending (
        step-trap env (λ s. run_spim env depth (add32 s.cpu.pc 4) 1 s) trap m2
          (record {
            at = at'.at;
            text = at'.text;
            defined = at'.defined;
            no_break = refl;
            no_ticks = at'.no_ticks;
            no_loads = at'.no_loads;
          })
          op' (ground (arith, same))) in
    let t = sub32 (add32 (add32 pc (idisp branch)) 4) 4 in
    let back : t ≡ add32 pc (idisp branch) = omega arith in
    let m4 = gone t m3 in
    (
      m4,
      run_spim-one env (suc depth) pc m m4 io pending (
          step-IsAt env run_slot branch (start pc m) at
          ∙ ap (λ o. bind o (after_switch env run_slot))
              (execute-beq env run_slot branch m1 m3 true op delayed taken slot)
          ∙ refl),
      ap (λ x. add32 x 4) back,
      r.code,
      ground (
        arith,
        r.return_to,
        low,
        ap round_down {x = sub32 (add32 pc 4) 4} {y = pc} (omega arith),
      ),
      r.masked,
      refl,
      ap (λ x. (gone t (record m2 { cpu = handle_exception x })).cpu)
            (raise_exception-frame exc_tr f (omega arith))
          ∙ ap
              (λ q. record (m4.cpu) {
                r = q;
                hi = m.cpu.hi;
                lo = m.cpu.lo;
                ccr = m.cpu.ccr;
                fgr = m.cpu.fgr;
                fcr = m.cpu.fcr;
              })
              (sym r.registers),
      λ n. ap (λ f. f n) r.registers ∙ ground arith,
      λ n. raise_exception-cpr exc_tr f n (omega arith),
    )
