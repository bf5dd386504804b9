-- ===== src/Inst/Fields.antt =====
-- CPU/inst.h: the structures `imm_expr` and `instruction`, and their accessors.
pub mod Displacement
use Prim.Native.Nat.{ℕ, ◌+◌, ◌*◌, ◌/◌, ◌%◌, ◌^◌}
use mathlib.Core.Bool.{Bool}
use mathlib.Core.Option.{Option}
use spim_curses.Base.{u32, shl, sext16, has, if◌then◌else◌, bit_or}
use spim_curses.Inst.Op.{Op}

-- `bits`: zero, positive, negative.
pub data Part : Type 0 where
  whole upper lower : Part

-- `symbol` is a label, named by its number in the symbol table.
pub record ImmExpr : Type 0 where
  pub offset : ℕ
  pub symbol : Option ℕ
  pub bits : Part
  pub pc_relative : Bool

-- `r_t` is the union of `struct inst_s` as one word: on a little-endian host its bytes are
-- `rs`, `rt`, `rd`, `shamt`, its upper half is `imm`, and the whole is `target`.
-- `source_line` is only printed, and left out.
pub record Instruction : Type 0 where
  pub opcode : Op
  pub r_t : ℕ
  pub encoding : ℕ
  pub expr : Option ImmExpr

module _ (inst : Instruction) where
  abbrev pub rs : ℕ
  rs = inst.r_t % 2 ^ 8

  abbrev pub rt : ℕ
  rt = inst.r_t / 2 ^ 8 % 2 ^ 8

  abbrev pub rd : ℕ
  rd = inst.r_t / 2 ^ 16 % 2 ^ 8

  abbrev pub shamt : ℕ
  shamt = inst.r_t / 2 ^ 24 % 2 ^ 8

  -- The `short`, as the `int32` that it is converted to wherever it is read.
  abbrev pub imm : ℕ
  imm = sext16 (inst.r_t / 2 ^ 16 % 2 ^ 16)

  abbrev pub target : ℕ
  target = inst.r_t % 2 ^ 32

  abbrev pub fs : ℕ
  fs = rd

  abbrev pub ft : ℕ
  ft = rt

  abbrev pub fd : ℕ
  fd = shamt

  abbrev pub base : ℕ
  base = rs

  abbrev pub ioffset : ℕ
  ioffset = imm

  abbrev pub cond : ℕ
  cond = rs

  -- `RT(INST) >> 2`
  abbrev pub cc : ℕ
  cc = rt / 4

  -- `(RT(INST) & 0x2) >> 1` and `RT(INST) & 0x1`
  abbrev pub nd : ℕ
  nd = rt / 2 % 2

  abbrev pub tf : ℕ
  tf = rt % 2

  -- `FD(INST) >> 2`
  abbrev pub ccfp : ℕ
  ccfp = fd / 4

-- `SIGN_EX`
abbrev pub sign_ex : ℕ → ℕ
sign_ex x = if has x 0x8000 then bit_or x 0xffff0000 else x

-- `IDISP`: the displacement of a branch, in bytes.
unfoldable pub idisp : Instruction → ℕ
idisp inst = sign_ex (shl (ioffset inst) 2)

module _ (inst : Instruction) (v : ℕ) where
  abbrev pub set_rs : Instruction
  set_rs = record inst { r_t = inst.r_t / 2 ^ 8 * 2 ^ 8 + v % 2 ^ 8 }

  abbrev pub set_rt : Instruction
  set_rt = record inst { r_t = inst.r_t / 2 ^ 16 * 2 ^ 16 + v % 2 ^ 8 * 2 ^ 8 + inst.r_t % 2 ^ 8 }

  abbrev pub set_rd : Instruction
  set_rd = record inst { r_t = inst.r_t / 2 ^ 24 * 2 ^ 24 + v % 2 ^ 8 * 2 ^ 16 + inst.r_t % 2 ^ 16 }

  abbrev pub set_shamt : Instruction
  set_shamt = record inst { r_t = v % 2 ^ 8 * 2 ^ 24 + inst.r_t % 2 ^ 24 }

  abbrev pub set_imm : Instruction
  set_imm = record inst { r_t = v % 2 ^ 16 * 2 ^ 16 + inst.r_t % 2 ^ 16 }

  abbrev pub set_target : Instruction
  set_target = record inst { r_t = u32 v }

  abbrev pub set_encoding : Instruction
  set_encoding = record inst { encoding = u32 v }
