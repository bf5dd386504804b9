-- ===== src/Assembler/Immediate/Traps.antt =====
-- CPU/inst.cpp: a trap on a constant that does not fit its field.
use spim_curses.Base.{
  ℕ, zero, suc, ◌+◌, ◌/◌, ◌^◌, ◌≤◌, ◌<◌, ◌≡◌, ◌≢◌, refl, sym, ◌∙◌, ap, arith, Bool, true, false,
  Option, none, some,
}
use spim_curses.Base.{contradiction}
use spim_curses.Base.Fields.{bit_and_low, bit_and_high}
use spim_curses.Inst.Op.{Op}
use spim_curses.Inst.Fields.{ImmExpr, Part}
use spim_curses.Assembler.State.{Assembler, A, Result, ok, stopped, aborted, endless, bind}
use spim_curses.Assembler.Expr.{const_imm_expr, eval_imm_expr, expr_sum, is_known}
use spim_curses.Assembler.Opcodes.{
  opcode_is_branch, opcode_is_load_store, sign_extends, imm_op_to_op, builds_in_place,
}
use spim_curses.Assembler.Build.{new_number}
use spim_curses.Assembler.Immediate.{
  i_type_body, i_type_inst, i_type_inst_full_word, full_compute, produce_immediate, too_wide,
  gp_offset,
}

-- The traps that compare with an immediate value.
abbrev pub is_trap : Op → Bool
is_trap Op.teqi = true
is_trap Op.tgei = true
is_trap Op.tgeiu = true
is_trap Op.tlti = true
is_trap Op.tltiu = true
is_trap Op.tnei = true
is_trap _ = false

-- The classes that a trap belongs to.
abbrev Classes : Op → Type 0
Classes op =
    (sign_extends op ≡ true)
    × (opcode_is_load_store op ≡ false)
    × (opcode_is_branch op ≡ false)
    × (builds_in_place op ≡ false)
    × (imm_op_to_op op ≡ none)

trap-Classes : (op : Op) → is_trap op ≡ true → Classes op
unfolding sign_extends opcode_is_load_store opcode_is_branch builds_in_place imm_op_to_op
trap-Classes Op.teqi h = (refl, refl, refl, refl, refl)
trap-Classes Op.tgei h = (refl, refl, refl, refl, refl)
trap-Classes Op.tgeiu h = (refl, refl, refl, refl, refl)
trap-Classes Op.tlti h = (refl, refl, refl, refl, refl)
trap-Classes Op.tltiu h = (refl, refl, refl, refl, refl)
trap-Classes Op.tnei h = (refl, refl, refl, refl, refl)
trap-Classes _ h = absurd (contradiction h)

is_ok : Result (Unit {0}) → Bool
is_ok (ok x s) = true
is_ok _ = false

-- Whatever a run does, it is no success once the program is aborted.
IsFailure : Result (Unit {0}) → Type 0
IsFailure r = (s : Assembler) → r ≢ ok tt s

no_success : (r : Result (Unit {0})) → IsFailure (bind r (λ u s. aborted))
unfolding IsFailure is_ok
no_success (ok x s) s' e = contradiction (ap is_ok e)
no_success (stopped e s) s' p = contradiction (ap is_ok p)
no_success aborted s' p = contradiction (ap is_ok p)
no_success endless s' p = contradiction (ap is_ok p)

full_compute-trap :
    (i_type : Op → ℕ → ℕ → ImmExpr → A (Unit {0})) (op : Op) (rt rs : ℕ) (expr : ImmExpr)
    (value : Option ℕ) (s : Assembler)
    → is_trap op ≡ true
    → IsFailure (full_compute i_type op rt rs expr value s)
unfolding full_compute
full_compute-trap i_type op rt rs expr value s h =
    let (signed_op, load, branch, in_place, no_op) = trap-Classes op h in
    rw (in_place, no_op) (no_success (produce_immediate i_type expr 1 value s))

full_word-trap :
    (i_type : Op → ℕ → ℕ → ImmExpr → A (Unit {0})) (op : Op) (rt rs v : ℕ) (value : Option ℕ)
    (s : Assembler)
    → is_trap op ≡ true
    → IsFailure (i_type_inst_full_word i_type op rt rs (const_imm_expr v) value s)
unfolding i_type_inst_full_word gp_offset const_imm_expr
full_word-trap i_type op rt rs v value s h =
    let (signed_op, load, branch, in_place, no_op) = trap-Classes op h in
    rw (load, branch) (full_compute-trap i_type op rt rs (const_imm_expr v) value s h)

-- The constant is outside of -32768 to 32767.
abbrev pub IsWide : ℕ → Type 0
IsWide v = (0x8000 ≤ v) × (v < 0xffff_8000)

trap_too_wide :
    (op : Op) (v : ℕ) → sign_extends op ≡ true → IsWide v → too_wide op Part.whole v ≡ true
unfolding too_wide
trap_too_wide op v h wide =
    rw h (ground (arith, wide.0, wide.1, bit_and_high 15 v 0x1_ffff, bit_and_low 17 (v / 2 ^ 15)))

trap_runs :
    (fuel : ℕ) (op : Op) (rt rs v : ℕ) (s : Assembler)
    → sign_extends op ≡ true
    → s.machine.settings.bare_machine ≡ false
    → IsWide v
    → i_type_inst (suc fuel) op rt rs (const_imm_expr v) s
      ≡ i_type_inst_full_word
          (i_type_inst fuel)
          op
          rt
          rs
          (const_imm_expr v)
          (some v)
          (record s { serial = s.serial + 1 })
unfolding i_type_inst i_type_body eval_imm_expr const_imm_expr is_known new_number expr_sum
trap_runs fuel op rt rs v s h bare wide = rw (bare, trap_too_wide op v h wide) refl

-- On a machine that is not bare, a trap that compares with a constant outside of -32768 to 32767
-- is never assembled: for every bound on the nesting `i_type_inst` does not succeed.
pub i_type_inst-trap :
    (fuel : ℕ) (op : Op) (rt rs v : ℕ) (s s' : Assembler)
    → is_trap op ≡ true
    → s.machine.settings.bare_machine ≡ false
    → IsWide v
    → i_type_inst fuel op rt rs (const_imm_expr v) s ≢ ok tt s'
unfolding i_type_inst IsFailure is_ok
i_type_inst-trap zero op rt rs v s s' h bare wide e = contradiction (ap is_ok e)
i_type_inst-trap (suc fuel) op rt rs v s s' h bare wide e =
    let (signed_op, load, branch, in_place, no_op) = trap-Classes op h in
    full_word-trap (i_type_inst fuel) op rt rs v (some v) (record s { serial = s.serial + 1 }) h s'
      (sym (trap_runs fuel op rt rs v s signed_op bare wide) ∙ e)
