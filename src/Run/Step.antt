-- ===== src/Run/Step.antt =====
-- CPU/run.cpp: one round of the inner loop of `run_spim`.
use spim_curses.Base.{
  Bool, true, false, Option, none, some, List, [], ◌∷◌, ◌==◌, if◌then◌else◌, add32,
}
use spim_curses.Cpu.Defs.{Cpu, set_r}
use spim_curses.Cpu.Exception.{raise_exception, handle_exception, bump_cp0_timer, exc_bp}
use spim_curses.Machine.{
  Machine, M, ◌>>=◌, ◌>>◌, get, skip, pure, fail, on_cpu, fatal_error, non_instruction,
  undefined_symbol,
}
use spim_curses.Memory.Defs.{slot_inst}
use spim_curses.Memory.Access.{read_mem_inst}
use spim_curses.Inst.Op.{Op}
use spim_curses.Inst.Fields.{Instruction, rd}
use spim_curses.Run.Alu.{arith_op, shift_op, mul_op, cp0_op, trap_op, other_op}
use spim_curses.Run.LoadStore.{memory_op, do_delayed_update}
use spim_curses.Run.Floating.Host.{Host}
use spim_curses.Run.Floating.Compare.{compare_case}
use spim_curses.Run.Floating.Compute.{
  abs_add_case, div_case, mul_neg_case, sqrt_sub_case, ceil_cvt_case, floor_case, round_case,
  trunc_case, move_case,
}
use spim_curses.Run.Floating.Transfer.{transfer_case}
use spim_curses.Run.Floating.Condition.{fp_branch}
use spim_curses.Syscall.{do_syscall}
use spim_curses.Syscall.System.{Outside}
use spim_curses.Run.Branch.{branch_op, branch_inst, jump_op}

-- How a case of the `switch` ends: by `break`, or by a `return` from `run_spim`.
pub data Flow : Type 0 where
  next : Flow
  leave : Bool → Flow

abbrev first_of_two {ℓ} : {A : Type ℓ} → Option A → Option A → Option A
first_of_two (some a) o = some a
first_of_two none o = o

-- The cases that change registers only.
unfoldable pub cpu_op : Op → Instruction → Cpu → Option Cpu
cpu_op op inst c = first_of_two (arith_op op inst c) (
    first_of_two (shift_op op inst c) (
      first_of_two (mul_op op inst c)
        (first_of_two (cp0_op op inst c) (first_of_two (trap_op op inst c) (other_op op c)))))

-- The first of several cases that there is.
abbrev first_of {ℓ} : {A : Type ℓ} → List (Option A) → Option A
first_of [] = none
first_of (o ∷ os) = first_of_two o (first_of os)

-- The floating-point cases that end by `break`.
unfoldable pub fpa_op : Host → Op → Instruction → Option (M (Unit {0}))
fpa_op host op inst = first_of (
    abs_add_case host op inst
    ∷ div_case host op inst
    ∷ mul_neg_case host op inst
    ∷ sqrt_sub_case host op inst
    ∷ ceil_cvt_case host op inst
    ∷ floor_case host op inst
    ∷ round_case host op inst
    ∷ trunc_case host op inst
    ∷ move_case op inst
    ∷ transfer_case op inst
    ∷ compare_case host inst op
    ∷ [])

-- `Y_BREAK_OP`: with 1 in the RD field it is the simulator's own breakpoint.
unfoldable pub break_op : Instruction → M Flow
break_op inst = do on_cpu (raise_exception exc_bp); pure (if rd inst == 1 then leave true else next)

module _ (env : Outside) (run_slot : M Bool) where
  -- The cases that end by `break`.
  unfoldable pub simple_op : Op → Instruction → Option (M (Unit {0}))
  simple_op op inst = first_of_two (memory_op op inst) (
      first_of_two
        (elim (first_of_two (branch_op op) (fp_branch op inst)) [
          | none ↦ none
          | some b ↦ some (branch_inst run_slot b inst)
        ])
        (first_of_two (jump_op run_slot op inst) (fpa_op env.host op inst)))

  unfoldable pub execute : Op → Instruction → M Flow
  execute Op.break inst = break_op inst
  execute Op.syscall inst = do go_on ← do_syscall env; pure (if go_on then next else leave false)
  execute op inst = do
    c ← get (λ m. m.cpu)
    elim (cpu_op op inst c) [
      | some c' ↦ (do on_cpu (λ _. c'); pure next)
      | none ↦ elim (simple_op op inst) [ some run ↦ (do run; pure next) | none ↦ λ _. fatal_error ]
    ]

  -- The poll of the timer.
  unfoldable pub poll_timer : M (Unit {0})
  poll_timer m = elim m.console.ticks [
    | [] ↦ skip m
    | t ∷ rest ↦
        (if t then on_cpu bump_cp0_timer else skip)
          (record m { console = record (m.console) { ticks = rest } })
  ]

  -- `EXPR (inst)->symbol->addr == 0`
  abbrev undefined_in : Machine → Instruction → Bool
  undefined_in m inst = elim inst.expr [
    | none ↦ false
    | some e ↦ elim e.symbol [ none ↦ false | some l ↦ m.label_addr l == 0 ]
  ]

  -- What follows the `switch`.
  unfoldable pub after_switch : Flow → M (Option Bool)
  after_switch (leave b) = pure (some b)
  after_switch next = do
    on_cpu (λ c. record c { pc = add32 c.pc 4 })
    failed ← get (λ m. m.cpu.exception_occurred)
    if failed then on_cpu handle_exception else skip
    pure none

  -- An instruction that was fetched.
  unfoldable pub run_instruction : Instruction → M (Option Bool)
  run_instruction inst = do
    undefined ← get (λ m. undefined_in m inst)
    if undefined
        then fail undefined_symbol
        else (do do_delayed_update; flow ← execute inst.opcode inst; after_switch flow)

  -- One round. `some b` is `return b`.
  unfoldable pub step : M (Option Bool)
  step = do
    stop ← get (λ m. m.force_break)
    if stop then pure (some true) else (do
      on_cpu (set_r 0 0)
      poll_timer
      on_cpu (λ c. record c { exception_occurred = false })
      pc ← get (λ m. m.cpu.pc)
      slot ← read_mem_inst pc
      failed ← get (λ m. m.cpu.exception_occurred)
      if failed then (do on_cpu handle_exception; pure none) else elim (slot_inst slot) [
        | none ↦ fail non_instruction
        | some inst ↦ run_instruction inst
      ])
