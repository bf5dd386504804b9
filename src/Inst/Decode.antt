-- ===== src/Inst/Decode.antt =====
-- CPU/inst.cpp: `inst_decode` and the makers of decoded instructions.
use Prim.Native.Nat.{ℕ}
use spim_curses.Base.{Option, none, some, ◌||◌, ◌==◌, if◌then◌else◌, bit_and, bit_or, shr}
use spim_curses.Utils.Search.{map_int}
use spim_curses.Inst.Op.{Op, Format}
use spim_curses.Inst.Table.{op_entry}
use spim_curses.Inst.Rows.{Row, a_opcode_tbl}
use spim_curses.Inst.Fields.{
  Instruction, set_rs, set_rt, set_rd, set_shamt, set_imm, set_target, set_encoding,
}

-- `zmalloc`: every field zero.
abbrev pub zero_inst : Instruction
zero_inst = record { opcode = Op.invalid; r_t = 0; encoding = 0; expr = none }

abbrev pub of_opcode : Op → Instruction
of_opcode op = record zero_inst { opcode = op }

unfoldable pub mk_r_inst : ℕ → Op → ℕ → ℕ → ℕ → ℕ → Instruction
mk_r_inst val op rs rt rd shamt =
    set_encoding (set_shamt (set_rd (set_rt (set_rs (of_opcode op) rs) rt) rd) shamt) val

unfoldable pub mk_co_r_inst : ℕ → Op → ℕ → ℕ → ℕ → Instruction
mk_co_r_inst val op fs ft fd =
    set_encoding (set_shamt (set_rt (set_rd (of_opcode op) fs) ft) fd) val

unfoldable pub mk_i_inst : ℕ → Op → ℕ → ℕ → ℕ → Instruction
mk_i_inst val op rs rt offset =
    set_encoding (set_imm (set_rt (set_rs (of_opcode op) rs) rt) offset) val

unfoldable pub mk_j_inst : ℕ → Op → ℕ → Instruction
mk_j_inst val op target = set_encoding (set_target (of_opcode op) target) val

-- `BIN_REG` and the fields of a word.
abbrev pub bin_reg : ℕ → ℕ → ℕ
bin_reg v o = bit_and (shr v o) 0x1f

module _ (v : ℕ) where
  abbrev pub bin_rs : ℕ
  bin_rs = bin_reg v 21

  abbrev pub bin_rt : ℕ
  bin_rt = bin_reg v 16

  abbrev pub bin_rd : ℕ
  bin_rd = bin_reg v 11

  abbrev pub bin_sa : ℕ
  bin_sa = bin_reg v 6

-- The part of a word that tells which instruction it is.
unfoldable pub opcode_bits : ℕ → ℕ
opcode_bits val =
    let a = bit_and val 0xfc000000 in
    if a == 0 || a == 0x70000000
    then bit_or a (bit_and val 0x3f)
    else if a == 0x04000000
    then bit_or a (bit_and val 0x001f0000)
    else if a == 0x40000000
    then bit_or a (bit_or (bit_and val 0x03e00000) (bit_and val 0x1f))
    else if a == 0x44000000
    then (let b = bit_or a (bit_and val 0x03e00000) in
        if bit_and val 0xff000000 == 0x45000000
        then bit_or b (bit_and val 0x00010000)
        else bit_or b (bit_and val 0x3f))
    else if a == 0x48000000 || a == 0x4c000000
    then bit_or a (bit_and val 0x03e00000)
    else a

-- The `switch` on the format.
unfoldable pub decode_format : Format → Op → ℕ → Instruction
unfolding mk_r_inst mk_co_r_inst mk_i_inst mk_j_inst
decode_format Format.bc op val = mk_i_inst val op (bin_rs val) (bin_rt val) (bit_and val 0xffff)
decode_format Format.b1 op val = mk_i_inst val op (bin_rs val) 0 (bit_and val 0xffff)
decode_format Format.i1s op val = mk_i_inst val op (bin_rs val) 0 (bit_and val 0xffff)
decode_format Format.i1t op val = mk_i_inst val op (bin_rs val) (bin_rt val) (bit_and val 0xffff)
decode_format Format.i2 op val = mk_i_inst val op (bin_rs val) (bin_rt val) (bit_and val 0xffff)
decode_format Format.b2 op val = mk_i_inst val op (bin_rs val) (bin_rt val) (bit_and val 0xffff)
decode_format Format.i2a op val = mk_i_inst val op (bin_rs val) (bin_rt val) (bit_and val 0xffff)
decode_format Format.r1s op val = mk_r_inst val op (bin_rs val) 0 0 0
decode_format Format.r1d op val = mk_r_inst val op 0 0 (bin_rd val) 0
decode_format Format.r2td op val = mk_r_inst val op 0 (bin_rt val) (bin_rd val) 0
decode_format Format.r2st op val = mk_r_inst val op (bin_rs val) (bin_rt val) 0 0
decode_format Format.r2ds op val = mk_r_inst val op (bin_rs val) 0 (bin_rd val) 0
decode_format Format.r2sh op val = mk_r_inst val op 0 (bin_rt val) (bin_rd val) (bin_sa val)
decode_format Format.r3 op val = mk_r_inst val op (bin_rs val) (bin_rt val) (bin_rd val) 0
decode_format Format.r3sh op val = mk_r_inst val op (bin_rs val) (bin_rt val) (bin_rd val) 0
decode_format Format.fp_i2a op val = mk_i_inst val op (bin_rs val) (bin_rt val) (bit_and val 0xffff)
decode_format Format.fp_r2ds op val = mk_co_r_inst val op (bin_rd val) 0 (bin_sa val)
decode_format Format.fp_r2ts op val = mk_r_inst val op 0 (bin_rt val) (bin_rd val) 0
decode_format Format.fp_cmp op val =
    set_rs (mk_r_inst val op (bin_rd val) (bin_rt val) (bin_sa val) 0) (bit_and val 0xf)
decode_format Format.fp_r3 op val = mk_co_r_inst val op (bin_rd val) (bin_rt val) (bin_sa val)
decode_format Format.movc op val = mk_r_inst val op (bin_rs val) (bin_rt val) (bin_rd val) 0
decode_format Format.fp_movc op val = mk_r_inst val op (bin_rd val) (bin_rt val) (bin_sa val) 0
decode_format Format.j_type op val = mk_j_inst val op (bit_and val 0x3ffffff)
decode_format Format.noarg op val = mk_r_inst val op 0 0 0 0
decode_format Format.fp_r4 op val = mk_r_inst val Op.invalid 0 0 0 0

-- What the row of `a_opcode_tbl` that was found leads to. The source reads the format of a row
-- without a test; a row of a directive, which has none, is not found (its key is no opcode).
unfoldable pub decode_row : Option Row → ℕ → Instruction
decode_row none val = mk_r_inst val Op.invalid 0 0 0 0
decode_row (some row) val = elim row.value2 [
  | none ↦ mk_r_inst val Op.invalid 0 0 0 0
  | some op ↦ elim (op_entry op) [
    | none ↦ mk_r_inst val Op.invalid 0 0 0 0
    | some e ↦ decode_format e.format op val
  ]
]

unfoldable pub find_row : ℕ → Option Row
unfolding map_int a_opcode_tbl
find_row a = map_int (λ row. row.value1) a_opcode_tbl a

unfoldable pub inst_decode : ℕ → Instruction
inst_decode val = decode_row (find_row (opcode_bits val)) val
