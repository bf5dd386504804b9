-- ===== src/Assembler/Build.antt =====
-- CPU/inst.cpp: the instructions that the parser's rules produce.
use spim_curses.Base.{ℕ, ◌+◌, false, if◌then◌else◌, bit_and, shl, Option, none, some}
use spim_curses.Inst.Op.{Op}
use spim_curses.Inst.Decode.{zero_inst}
use spim_curses.Inst.Fields.{Instruction, ImmExpr, set_rs, set_rt, set_rd, set_shamt}
use spim_curses.Assembler.State.{A, ◌>>=◌, ◌>>◌, pure, get, modify}
use spim_curses.Assembler.Expr.{is_known}
use spim_curses.Assembler.Text.{store_instruction}
use spim_curses.Assembler.Labels.{record_inst_uses_symbol, resolve_a_label}

-- `zmalloc (sizeof (instruction))`: the number of a new instruction.
unfoldable pub new_number : A ℕ
new_number = do
  number ← get (λ s. s.serial)
  modify (λ s. record s { serial = s.serial + 1 })
  pure number

unfoldable pub make_r_type_inst : Op → ℕ → ℕ → ℕ → Instruction
make_r_type_inst opcode rd rs rt =
    set_shamt (set_rd (set_rt (set_rs (record zero_inst { opcode = opcode }) rs) rt) rd) 0

unfoldable pub store_new : Instruction → A (Unit {0})
unfolding new_number
store_new inst = do number ← new_number; store_instruction number inst

unfoldable pub r_type_inst : Op → ℕ → ℕ → ℕ → A (Unit {0})
unfolding make_r_type_inst store_new
r_type_inst opcode rd rs rt = store_new (make_r_type_inst opcode rd rs rt)

-- `SET_FD`
unfoldable pub r_co_type_inst : Op → ℕ → ℕ → ℕ → A (Unit {0})
unfolding make_r_type_inst store_new
r_co_type_inst opcode fd fs ft = store_new (set_shamt (make_r_type_inst opcode fs 0 ft) fd)

unfoldable pub r_sh_type_inst : Op → ℕ → ℕ → ℕ → A (Unit {0})
unfolding make_r_type_inst store_new
r_sh_type_inst opcode rd rt shamt =
    store_new (set_shamt (make_r_type_inst opcode rd 0 rt) (bit_and shamt 0x1f))

-- The conditions of `r_cond_type_inst`: COND_UN, COND_EQ, COND_LT and COND_IN.
unfoldable pub condition : Op → Option ℕ
condition Op.c_eq_d = some 0x2
condition Op.c_eq_s = some 0x2
condition Op.c_le_d = some 0xe
condition Op.c_le_s = some 0xe
condition Op.c_lt_d = some 0xc
condition Op.c_lt_s = some 0xc
condition Op.c_nge_d = some 0xd
condition Op.c_nge_s = some 0xd
condition Op.c_ngle_d = some 0x9
condition Op.c_ngle_s = some 0x9
condition Op.c_ngl_d = some 0xb
condition Op.c_ngl_s = some 0xb
condition Op.c_ngt_d = some 0xf
condition Op.c_ngt_s = some 0xf
condition Op.c_olt_d = some 0x4
condition Op.c_olt_s = some 0x4
condition Op.c_ole_d = some 0x6
condition Op.c_ole_s = some 0x6
condition Op.c_seq_d = some 0xa
condition Op.c_seq_s = some 0xa
condition Op.c_sf_d = some 0x8
condition Op.c_sf_s = some 0x8
condition Op.c_f_d = some 0x0
condition Op.c_f_s = some 0x0
condition Op.c_ueq_d = some 0x3
condition Op.c_ueq_s = some 0x3
condition Op.c_ult_d = some 0x5
condition Op.c_ult_s = some 0x5
condition Op.c_ule_d = some 0x7
condition Op.c_ule_s = some 0x7
condition Op.c_un_d = some 0x1
condition Op.c_un_s = some 0x1
condition _ = none

-- `SET_FD`, `SET_COND`
unfoldable pub r_cond_type_inst : Op → ℕ → ℕ → ℕ → A (Unit {0})
unfolding make_r_type_inst store_new condition
r_cond_type_inst opcode fs ft cc =
    let inst = set_shamt (make_r_type_inst opcode fs 0 ft) (shl cc 2) in
    store_new (elim (condition opcode) [ none ↦ inst | some c ↦ set_rs inst c ])

-- An instruction whose expression's value is known, or is recorded as a use of its symbol.
unfoldable pub resolve_or_record : ℕ → Instruction → ImmExpr → A (Unit {0})
unfolding resolve_a_label record_inst_uses_symbol store_instruction
resolve_or_record number inst expr = do
  known ← get (λ s. is_known s.symbols expr.symbol)
  if known
      then (do resolved ← resolve_a_label inst; store_instruction number resolved)
      else elim expr.symbol [
        | none ↦ store_instruction number inst
        | some l ↦ (do record_inst_uses_symbol number inst l; store_instruction number inst)
      ]

unfoldable pub j_type_inst : Op → ImmExpr → A (Unit {0})
unfolding new_number resolve_or_record
j_type_inst opcode target = do
  number ← new_number
  let expr = record target { offset = 0; pc_relative = false }
  resolve_or_record number (record zero_inst { opcode = opcode; expr = some expr }) expr
