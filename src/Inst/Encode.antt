-- ===== src/Inst/Encode.antt =====
-- CPU/inst.cpp: `inst_encode`.
pub mod RoundTrip
pub mod Whole
use Prim.Native.Nat.{ℕ, ◌*◌, ◌^◌}
use spim_curses.Base.{Option, none, some, bit_and, bit_or}
use spim_curses.Inst.Op.{Format}
use spim_curses.Inst.Table.{op_entry}
use spim_curses.Inst.Fields.{
  Instruction, rs, rt, rd, shamt, imm, target, fs, ft, fd, base, ioffset, cond, cc,
}

-- `REGS`
abbrev pub regs : ℕ → ℕ → ℕ
regs r o = bit_and r 0x1f * 2 ^ o

-- The `switch` on the format, for an instruction whose encoding is `a`. `none` is the fatal error
-- of a format that the switch does not have.
unfoldable pub encode_format : Format → ℕ → Instruction → Option ℕ
encode_format Format.bc a inst =
    some (bit_or (bit_or a (regs (cc inst * 4) 16)) (bit_and (ioffset inst) 0xffff))
encode_format Format.b1 a inst =
    some (bit_or (bit_or a (regs (rs inst) 21)) (bit_and (ioffset inst) 0xffff))
encode_format Format.i1s a inst =
    some (bit_or (bit_or a (regs (rs inst) 21)) (bit_and (imm inst) 0xffff))
encode_format Format.i1t a inst =
    some (
      bit_or (bit_or (bit_or a (regs (rs inst) 21)) (regs (rt inst) 16))
        (bit_and (imm inst) 0xffff))
encode_format Format.i2 a inst =
    some (
      bit_or (bit_or (bit_or a (regs (rs inst) 21)) (regs (rt inst) 16))
        (bit_and (imm inst) 0xffff))
encode_format Format.b2 a inst =
    some (
      bit_or (bit_or (bit_or a (regs (rs inst) 21)) (regs (rt inst) 16))
        (bit_and (imm inst) 0xffff))
encode_format Format.i2a a inst = some (
    bit_or (bit_or (bit_or a (regs (base inst) 21)) (regs (rt inst) 16))
      (bit_and (ioffset inst) 0xffff))
encode_format Format.r1s a inst = some (bit_or a (regs (rs inst) 21))
encode_format Format.r1d a inst = some (bit_or a (regs (rd inst) 11))
encode_format Format.r2td a inst = some (bit_or (bit_or a (regs (rt inst) 16)) (regs (rd inst) 11))
encode_format Format.r2st a inst = some (bit_or (bit_or a (regs (rs inst) 21)) (regs (rt inst) 16))
encode_format Format.r2ds a inst = some (bit_or (bit_or a (regs (rs inst) 21)) (regs (rd inst) 11))
encode_format Format.r2sh a inst =
    some (bit_or (bit_or (bit_or a (regs (rt inst) 16)) (regs (rd inst) 11)) (regs (shamt inst) 6))
encode_format Format.r3 a inst =
    some (bit_or (bit_or (bit_or a (regs (rs inst) 21)) (regs (rt inst) 16)) (regs (rd inst) 11))
encode_format Format.r3sh a inst =
    some (bit_or (bit_or (bit_or a (regs (rs inst) 21)) (regs (rt inst) 16)) (regs (rd inst) 11))
encode_format Format.fp_i2a a inst = some (
    bit_or (bit_or (bit_or a (regs (base inst) 21)) (regs (rt inst) 16))
      (bit_and (ioffset inst) 0xffff))
encode_format Format.fp_r2ds a inst =
    some (bit_or (bit_or a (regs (fs inst) 11)) (regs (fd inst) 6))
encode_format Format.fp_r2ts a inst =
    some (bit_or (bit_or a (regs (rt inst) 16)) (regs (fs inst) 11))
encode_format Format.fp_cmp a inst = some (
    bit_or (bit_or (bit_or (bit_or a (regs (ft inst) 16)) (regs (fs inst) 11)) (regs (fd inst) 6))
      (cond inst))
encode_format Format.fp_r3 a inst =
    some (bit_or (bit_or (bit_or a (regs (ft inst) 16)) (regs (fs inst) 11)) (regs (fd inst) 6))
encode_format Format.movc a inst =
    some (bit_or (bit_or (bit_or a (regs (rs inst) 21)) (regs (rt inst) 16)) (regs (rd inst) 11))
encode_format Format.fp_movc a inst =
    some (bit_or (bit_or (bit_or a (regs (cc inst) 18)) (regs (fs inst) 11)) (regs (fd inst) 6))
encode_format Format.j_type a inst = some (bit_or a (target inst))
encode_format Format.noarg a inst = some a
encode_format Format.fp_r4 a inst = none

-- `inst_encode` of an instruction that is not NULL.
unfoldable pub inst_encode : Instruction → Option ℕ
inst_encode inst = elim (op_entry inst.opcode) [
  | none ↦ some 0
  | some e ↦ encode_format e.format e.a_opcode inst
]
