-- ===== src/Assembler/Resolve.antt =====
-- CPU/sym-tbl.cpp: resolving the label of an instruction.
pub mod Branch
use spim_curses.Base.{
  ℕ, Bool, true, false, ◌&&◌, not, ◌==◌, if◌then◌else◌, bit_and, add32, sub32, neg32, shr, asr, has,
  Option, none, some,
}
use spim_curses.Inst.Op.{Op}
use spim_curses.Inst.Fields.{Instruction, ImmExpr, imm, sign_ex, set_imm, set_target, set_encoding}
use spim_curses.Machine.{on_cpu, on_mem}
use spim_curses.Memory.Defs.{Slot, code, slot_inst}
use spim_curses.Memory.Access.{read_mem_inst}
use spim_curses.Assembler.State.{A, ◌>>=◌, ◌>>◌, skip, pure, get, machine_op}
use spim_curses.Assembler.Expr.{eval_imm_expr, is_known}
use spim_curses.Assembler.Opcodes.{opcode_is_branch, opcode_is_jump, opcode_is_load_store, is_lui}
use spim_curses.Assembler.Text.{put_slot, encode}

-- `print_inst`: its effect but for the text.
unfoldable pub print_inst : ℕ → A (Unit {0})
print_inst addr = do
  machine_op (on_cpu (λ c. record c { exception_occurred = false }))
  slot ← machine_op (read_mem_inst addr)
  skip

unfoldable same_symbol : Option ℕ → Option ℕ → Bool
same_symbol none none = true
same_symbol none (some k) = false
same_symbol (some l) none = false
same_symbol (some l) (some k) = l == k

-- A `lui` of the same symbol that has no immediate yet: it, with the offset raised. (One that was
-- decoded from a word has no expression: there the code follows a null pointer.)
unfoldable pub raised_lui : ImmExpr → Slot → Option Instruction
unfolding same_symbol
raised_lui expr slot = of_inst (slot_inst slot)
  where
    of_expr : Instruction → Option ImmExpr → Option Instruction
    of_expr prev none = none
    of_expr prev (some e) =
        if is_lui prev.opcode && (same_symbol expr.symbol e.symbol && imm prev == 0)
        then some (record prev { expr = some (record e { offset = add32 e.offset 0x1_0000 }) })
        else none

    of_inst : Option Instruction → Option Instruction
    of_inst none = none
    of_inst (some prev) = of_expr prev prev.expr

-- A load or store extends the sign of its offset, for which the `lui` before it makes up.
unfoldable pub compensate : ImmExpr → ℕ → A (Unit {0})
unfolding raised_lui
compensate expr pc = do
  prev ← machine_op (read_mem_inst (sub32 pc 4))
  prev_prev ← machine_op (read_mem_inst (sub32 pc 8))
  elim (raised_lui expr prev) [
    | some lui ↦ machine_op (on_mem (put_slot (sub32 pc 4) (code lui)))
    | none ↦ elim (raised_lui expr prev_prev) [
      | some lui ↦ machine_op (on_mem (put_slot (sub32 pc 8) (code lui)))
      | none ↦ skip
    ]
  ]

-- The field of a branch.
unfoldable pub branch_field : Bool → ℕ → ℕ
branch_field delayed value =
    let val = bit_and (asr (sign_ex value) 2) 0xffff in if delayed then sub32 val 1 else val

-- The field of a jump.
unfoldable pub jump_field : ℕ → ℕ
jump_field value = shr (bit_and value 0x0fff_ffff) 2

-- The value for the field of an instruction.
unfoldable pub field_value : Op → ImmExpr → ℕ → A ℕ
unfolding branch_field jump_field compensate
field_value opcode expr pc = do
  value ← get (λ s. eval_imm_expr s.symbols expr)
  delayed ← get (λ s. s.machine.settings.delayed_branches)
  if opcode_is_branch opcode
      then pure (branch_field delayed value)
      else if opcode_is_jump opcode
      then pure (jump_field value)
      else if opcode_is_load_store opcode && has value 0x8000
      then (do compensate expr pc; pure value)
      else pure value

-- The value does not fit a field of sixteen bits.
abbrev pub too_large : ℕ → Bool
too_large value =
    not (bit_and value 0xffff_0000 == 0) && not (bit_and value 0xffff_0000 == 0xffff_0000)

abbrev pub set_field : Op → Instruction → ℕ → Instruction
set_field opcode inst value =
    if opcode_is_jump opcode then set_target inst value else set_imm inst value

unfoldable pub resolve_field : Instruction → ImmExpr → ℕ → A Instruction
unfolding field_value print_inst
resolve_field inst expr pc = do
  value ← field_value inst.opcode expr pc
  if not (opcode_is_jump inst.opcode) && too_large value then print_inst pc else skip
  let filled = set_field inst.opcode (record inst { expr = some expr }) value
  w ← encode filled
  pure (set_encoding filled w)

-- An instruction that is relative to the counter may have moved.
abbrev pub placed : ImmExpr → ℕ → ImmExpr
placed expr pc = if expr.pc_relative then record expr { offset = neg32 pc } else expr

-- `resolve_a_label_sub` of an instruction, which has an expression.
unfoldable pub resolve_inst : Instruction → ImmExpr → ℕ → A Instruction
unfolding resolve_field
resolve_inst inst expr pc = do
  known ← get (λ s. is_known s.symbols ((placed expr pc).symbol))
  if known
      then resolve_field inst (placed expr pc) pc
      else pure (record inst { expr = some (placed expr pc) })
