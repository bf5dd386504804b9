-- ===== src/Run/Alu.antt =====
-- CPU/run.cpp: the cases of `run_spim` that read and write registers only.
use spim_curses.Base.{
  ℕ, ◌/◌, ◌%◌, Bool, not, Option, none, some, ◌==◌, ltb, if◌then◌else◌, bit_and, bit_or, bit_xor,
  add32, sub32, not32, shl, slt, update,
}
use spim_curses.Cpu.Defs.{
  Cpu, status, cause, set_cpr, set_r, compare_reg, status_reg, cause_reg, config_reg, status_mask,
  cause_mask, config_mask,
}
use spim_curses.Cpu.Exception.{raise_exception, exc_cpu, exc_ov, exc_ri, exc_tr}
use spim_curses.Inst.Op.{Op}
use spim_curses.Inst.Fields.{Instruction, rs, rt, rd, shamt, imm, fs}
use spim_curses.Run.Multiply.{HiLo, unsigned_multiply, signed_multiply, multiply_add, multiply_sub}
use spim_curses.Run.Arith.{
  arith_ovfl, sub_ovfl, leading, sdiv, smod, divides, shift_left, shift_right, shift_right_arith,
}

-- `R[RD (inst)] = v` and `R[RT (inst)] = v`
abbrev to_rd : Instruction → ℕ → Cpu → Cpu
to_rd inst v c = set_r (rd inst) v c

abbrev to_rt : Instruction → ℕ → Cpu → Cpu
to_rt inst v c = set_r (rt inst) v c

-- The operands.
abbrev pub vs : Instruction → Cpu → ℕ
vs inst c = c.r (rs inst)

abbrev pub vt : Instruction → Cpu → ℕ
vt inst c = c.r (rt inst)

-- `0xffff & IMM (inst)`
abbrev uimm : Instruction → ℕ
uimm inst = bit_and 0xffff (imm inst)

abbrev flag : Bool → ℕ
flag b = if b then 1 else 0

abbrev pub hi_lo : Cpu → HiLo
hi_lo c = record { hi = c.hi; lo = c.lo }

abbrev pub set_hi_lo : HiLo → Cpu → Cpu
set_hi_lo p c = record c { hi = p.hi; lo = p.lo }

-- Addition, subtraction, logic.
unfoldable pub arith_op : Op → Instruction → Cpu → Option Cpu
unfolding arith_ovfl sub_ovfl leading
arith_op Op.add inst c =
    let sum = add32 (vs inst c) (vt inst c) in
    some (
      if arith_ovfl sum (vs inst c) (vt inst c) then raise_exception exc_ov c else to_rd inst sum c)
arith_op Op.addi inst c =
    let sum = add32 (vs inst c) (imm inst) in
    some
      (if arith_ovfl sum (vs inst c) (imm inst) then raise_exception exc_ov c else to_rt inst sum c)
arith_op Op.addiu inst c = some (to_rt inst (add32 (vs inst c) (imm inst)) c)
arith_op Op.addu inst c = some (to_rd inst (add32 (vs inst c) (vt inst c)) c)
arith_op Op.and inst c = some (to_rd inst (bit_and (vs inst c) (vt inst c)) c)
arith_op Op.andi inst c = some (to_rt inst (bit_and (vs inst c) (uimm inst)) c)
arith_op Op.clo inst c = some (to_rd inst (leading 0 (vs inst c) 32) c)
arith_op Op.clz inst c = some (to_rd inst (leading 1 (vs inst c) 32) c)
arith_op Op.lui inst c = some (to_rt inst (bit_and (shl (imm inst) 16) 0xffff0000) c)
arith_op Op.nor inst c = some (to_rd inst (not32 (bit_or (vs inst c) (vt inst c))) c)
arith_op Op.or inst c = some (to_rd inst (bit_or (vs inst c) (vt inst c)) c)
arith_op Op.ori inst c = some (to_rt inst (bit_or (vs inst c) (uimm inst)) c)
arith_op Op.sub inst c =
    let diff = sub32 (vs inst c) (vt inst c) in
    some (
      if sub_ovfl diff (vs inst c) (vt inst c) then raise_exception exc_ov c else to_rd inst diff c)
arith_op Op.subu inst c = some (to_rd inst (sub32 (vs inst c) (vt inst c)) c)
arith_op Op.xor inst c = some (to_rd inst (bit_xor (vs inst c) (vt inst c)) c)
arith_op Op.xori inst c = some (to_rt inst (bit_xor (vs inst c) (uimm inst)) c)
arith_op _ inst c = none

-- Shifts and comparisons.
unfoldable pub shift_op : Op → Instruction → Cpu → Option Cpu
unfolding shift_left shift_right shift_right_arith
shift_op Op.sll inst c = some (to_rd inst (shift_left (vt inst c) (shamt inst)) c)
shift_op Op.sllv inst c = some (to_rd inst (shift_left (vt inst c) (bit_and (vs inst c) 0x1f)) c)
shift_op Op.slt inst c = some (to_rd inst (flag (slt (vs inst c) (vt inst c))) c)
shift_op Op.slti inst c = some (to_rt inst (flag (slt (vs inst c) (imm inst))) c)
shift_op Op.sltiu inst c = some (to_rt inst (flag (ltb (vs inst c) (imm inst))) c)
shift_op Op.sltu inst c = some (to_rd inst (flag (ltb (vs inst c) (vt inst c))) c)
shift_op Op.sra inst c = some (to_rd inst (shift_right_arith (vt inst c) (shamt inst)) c)
shift_op Op.srav inst c =
    some (to_rd inst (shift_right_arith (vt inst c) (bit_and (vs inst c) 0x1f)) c)
shift_op Op.srl inst c = some (to_rd inst (shift_right (vt inst c) (shamt inst)) c)
shift_op Op.srlv inst c = some (to_rd inst (shift_right (vt inst c) (bit_and (vs inst c) 0x1f)) c)
shift_op _ inst c = none

-- HI and LO, and the conditional moves.
unfoldable pub mul_op : Op → Instruction → Cpu → Option Cpu
unfolding divides sdiv smod unsigned_multiply signed_multiply multiply_add multiply_sub
mul_op Op.div inst c = some (
    if divides (vs inst c) (vt inst c)
    then record c { lo = sdiv (vs inst c) (vt inst c); hi = smod (vs inst c) (vt inst c) }
    else c)
mul_op Op.divu inst c = some (
    if divides (vs inst c) (vt inst c)
    then record c { lo = vs inst c / vt inst c; hi = vs inst c % vt inst c }
    else c)
mul_op Op.madd inst c =
    some (set_hi_lo (multiply_add (hi_lo c) (signed_multiply (vs inst c) (vt inst c))) c)
mul_op Op.maddu inst c =
    some (set_hi_lo (multiply_add (hi_lo c) (unsigned_multiply (vs inst c) (vt inst c))) c)
mul_op Op.mfhi inst c = some (to_rd inst c.hi c)
mul_op Op.mflo inst c = some (to_rd inst c.lo c)
mul_op Op.movn inst c = some (if vt inst c == 0 then c else to_rd inst (vs inst c) c)
mul_op Op.movz inst c = some (if vt inst c == 0 then to_rd inst (vs inst c) c else c)
mul_op Op.msub inst c =
    some (set_hi_lo (multiply_sub (hi_lo c) (signed_multiply (vs inst c) (vt inst c))) c)
mul_op Op.msubu inst c =
    some (set_hi_lo (multiply_sub (hi_lo c) (unsigned_multiply (vs inst c) (vt inst c))) c)
mul_op Op.mthi inst c = some (record c { hi = vs inst c })
mul_op Op.mtlo inst c = some (record c { lo = vs inst c })
mul_op Op.mul inst c =
    let p = signed_multiply (vs inst c) (vt inst c) in some (to_rd inst p.lo (set_hi_lo p c))
mul_op Op.mult inst c = some (set_hi_lo (signed_multiply (vs inst c) (vt inst c)) c)
mul_op Op.multu inst c = some (set_hi_lo (unsigned_multiply (vs inst c) (vt inst c)) c)
mul_op _ inst c = none

-- The `switch` of `Y_MTC0_OP`, after the register is written.
unfoldable pub mtc0_fixup : ℕ → Cpu → Cpu
mtc0_fixup n c =
    if n == compare_reg
    then set_cpr cause_reg (bit_and (cause c) (not32 0x8000)) c
    else if n == status_reg
    then set_cpr status_reg (bit_or (bit_and (status c) status_mask) 0x3000_0010) c
    else if n == cause_reg
    then set_cpr cause_reg (bit_and (cause c) cause_mask) c
    else if n == config_reg
    then set_cpr config_reg (bit_and (c.cpr config_reg) config_mask) c
    else c

-- The moves to and from coprocessor 0.
unfoldable pub cp0_op : Op → Instruction → Cpu → Option Cpu
unfolding mtc0_fixup
cp0_op Op.cfc0 inst c = some (to_rt inst (c.ccr (rd inst)) c)
cp0_op Op.ctc0 inst c = some (record c { ccr = update c.ccr (rd inst) (vt inst c) })
cp0_op Op.mfc0 inst c = some (to_rt inst (c.cpr (fs inst)) c)
cp0_op Op.mtc0 inst c = some (mtc0_fixup (fs inst) (set_cpr (fs inst) (vt inst c) c))
cp0_op _ inst c = none

abbrev trap_if : Bool → Cpu → Option Cpu
trap_if test c = some (if test then raise_exception exc_tr c else c)

-- The trap instructions.
unfoldable pub trap_op : Op → Instruction → Cpu → Option Cpu
trap_op Op.teq inst c = trap_if (vs inst c == vt inst c) c
trap_op Op.teqi inst c = trap_if (vs inst c == imm inst) c
trap_op Op.tge inst c = trap_if (not (slt (vs inst c) (vt inst c))) c
trap_op Op.tgei inst c = trap_if (not (slt (vs inst c) (imm inst))) c
trap_op Op.tgeiu inst c = trap_if (not (ltb (vs inst c) (imm inst))) c
trap_op Op.tgeu inst c = trap_if (not (ltb (vs inst c) (vt inst c))) c
trap_op Op.tlt inst c = trap_if (slt (vs inst c) (vt inst c)) c
trap_op Op.tlti inst c = trap_if (slt (vs inst c) (imm inst)) c
trap_op Op.tltiu inst c = trap_if (ltb (vs inst c) (imm inst)) c
trap_op Op.tltu inst c = trap_if (ltb (vs inst c) (vt inst c)) c
trap_op Op.tne inst c = trap_if (not (vs inst c == vt inst c)) c
trap_op Op.tnei inst c = trap_if (not (vs inst c == imm inst)) c
trap_op _ inst c = none

-- What only raises an exception, and what does nothing.
unfoldable pub other_op : Op → Cpu → Option Cpu
other_op Op.bc2f c = some (raise_exception exc_cpu c)
other_op Op.bc2fl c = some (raise_exception exc_cpu c)
other_op Op.bc2t c = some (raise_exception exc_cpu c)
other_op Op.bc2tl c = some (raise_exception exc_cpu c)
other_op Op.cache c = some c
other_op Op.cfc2 c = some (raise_exception exc_cpu c)
other_op Op.cop2 c = some (raise_exception exc_cpu c)
other_op Op.ctc2 c = some (raise_exception exc_cpu c)
other_op Op.ldc2 c = some (raise_exception exc_cpu c)
other_op Op.lwc2 c = some (raise_exception exc_cpu c)
other_op Op.mfc2 c = some (raise_exception exc_cpu c)
other_op Op.mtc2 c = some (raise_exception exc_cpu c)
other_op Op.pref c = some c
other_op Op.rfe c = some (raise_exception exc_ri c)
other_op Op.sdc2 c = some (raise_exception exc_cpu c)
other_op Op.swc2 c = some (raise_exception exc_cpu c)
other_op Op.sync c = some c
other_op Op.tlbp c = some (raise_exception exc_ri c)
other_op Op.tlbr c = some (raise_exception exc_ri c)
other_op Op.tlbwi c = some (raise_exception exc_ri c)
other_op Op.tlbwr c = some (raise_exception exc_ri c)
other_op _ c = none
