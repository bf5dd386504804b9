-- ===== src/Assembler/Immediate.antt =====
-- CPU/inst.cpp: `i_type_inst`, which may produce more than one instruction.
pub mod Traps
pub mod Depth
use spim_curses.Base.{
  ℕ, zero, suc, ◌+◌, Bool, true, false, ◌||◌, ◌&&◌, not, ◌==◌, if◌then◌else◌, bit_and, add32, asr,
  has, Option, none, some, slt,
}
use spim_curses.Inst.Op.{Op}
use spim_curses.Inst.Decode.{zero_inst}
use spim_curses.Inst.Fields.{Instruction, ImmExpr, Part, set_rs, set_rt}
use spim_curses.Symbols.Defs.{Symbols}
use spim_curses.Assembler.State.{A, aborted, endless, ◌>>=◌, ◌>>◌, skip, get}
use spim_curses.Assembler.Expr.{
  imm_min, imm_max, reg_gp, upper_bits_of_expr, lower_bits_of_expr, const_imm_expr, is_known,
  eval_imm_expr,
}
use spim_curses.Assembler.Opcodes.{
  opcode_is_branch, opcode_is_load_store, sign_extends, imm_op_to_op, is_lui, builds_in_place,
}
use spim_curses.Assembler.Build.{new_number, r_type_inst, resolve_or_record}

-- The value does not fit the field.
unfoldable pub too_wide : Op → Part → ℕ → Bool
too_wide opcode bits value =
    if sign_extends opcode || (opcode_is_load_store opcode && is_whole bits)
    then not (bit_and value 0xffff_8000 == 0) && not (bit_and value 0xffff_8000 == 0xffff_8000)
    else not (bit_and value 0xffff_0000 == 0)
  where
    is_whole : Part → Bool
    is_whole Part.whole = true
    is_whole Part.upper = false
    is_whole Part.lower = false

-- The offset of a small data item that the global pointer reaches.
unfoldable pub gp_offset : Symbols → ImmExpr → ℕ → Option ℕ
gp_offset s expr rs = of_symbol expr.symbol
  where
    of_symbol : Option ℕ → Option ℕ
    of_symbol none = none
    of_symbol (some l) =
        let offset = add32 ((s.label l).addr) expr.offset in
        if (s.label l).gp_flag
          && (rs == 0 && (not (slt offset imm_min) && not (slt imm_max offset)))
        then some offset
        else none

module _ (i_type : Op → ℕ → ℕ → ImmExpr → A (Unit {0})) where
  unfoldable pub produce_immediate : ImmExpr → ℕ → Option ℕ → A (Unit {0})
  produce_immediate expr rt value = by_value value
    where
      both : A (Unit {0})
      both = do
        i_type Op.lui 1 0 (upper_bits_of_expr expr)
        i_type Op.ori rt 1 (lower_bits_of_expr expr)

      by_value : Option ℕ → A (Unit {0})
      by_value none = both
      by_value (some v) =
          if bit_and v 0xffff == 0
          then i_type Op.lui rt 0 (upper_bits_of_expr expr)
          else if bit_and v 0xffff_0000 == 0
          then i_type Op.ori rt 0 (lower_bits_of_expr expr)
          else both

  -- The base register is added to `$at`.
  unfoldable pub add_base : ℕ → A (Unit {0})
  unfolding r_type_inst
  add_base rs = if rs == 0 then skip else r_type_inst Op.addu 1 1 rs

  -- A load or store of an address whose value is known.
  unfoldable pub known_load_store : Op → ℕ → ℕ → ℕ → A (Unit {0})
  unfolding add_base
  known_load_store opcode rt rs value =
      let high = bit_and (asr value 16) 0xffff in
      let low = bit_and value 0xffff in
      if not (high == 0 && not (has low 0x8000)) && not (high == 0xffff && has low 0x8000)
      then (do
        i_type Op.lui 1 0 (const_imm_expr (if has low 0x8000 then high + 1 else high))
        add_base rs
        i_type opcode rt 1 (lower_bits_of_expr (const_imm_expr low)))
      else i_type opcode rt rs (const_imm_expr low)

  unfoldable pub full_load_store : Op → ℕ → ℕ → ImmExpr → Option ℕ → A (Unit {0})
  unfolding known_load_store
  full_load_store opcode rt rs expr (some value) = known_load_store opcode rt rs value
  full_load_store opcode rt rs expr none = do
    i_type Op.lui 1 0 (upper_bits_of_expr expr)
    add_base rs
    i_type opcode rt 1 (lower_bits_of_expr expr)

  unfoldable pub full_compute : Op → ℕ → ℕ → ImmExpr → Option ℕ → A (Unit {0})
  unfolding produce_immediate r_type_inst
  full_compute opcode rt rs expr value =
      if builds_in_place opcode && rs == 0 then produce_immediate expr rt value else (do
        produce_immediate expr 1 value
        elim (imm_op_to_op opcode) [ none ↦ (λ s. aborted) | some op ↦ r_type_inst op rt rs 1 ])

  -- `i_type_inst_full_word`; `none` for a value that is not known.
  unfoldable pub i_type_inst_full_word : Op → ℕ → ℕ → ImmExpr → Option ℕ → A (Unit {0})
  unfolding full_load_store full_compute
  i_type_inst_full_word opcode rt rs expr value = do
    gp ← get (λ s. gp_offset s.symbols expr rs)
    if opcode_is_load_store opcode
        then elim gp [
          | some offset ↦ i_type opcode rt reg_gp (const_imm_expr offset)
          | none ↦ full_load_store opcode rt rs expr value
        ]
        else if opcode_is_branch opcode
        then i_type opcode rt rs (lower_bits_of_expr expr)
        else elim gp [
          | some offset ↦
              i_type (if is_lui opcode then Op.addiu else opcode) rt reg_gp (const_imm_expr offset)
          | none ↦ full_compute opcode rt rs expr value
        ]

-- `bits` is zero.
abbrev pub wants_all : Part → Bool
wants_all Part.whole = true
wants_all Part.upper = false
wants_all Part.lower = false

abbrev pub i_inst : Op → ℕ → ℕ → ImmExpr → Instruction
i_inst opcode rt rs expr =
    set_rt (set_rs (record zero_inst { opcode = opcode; expr = some expr }) rs) rt

-- The body of `i_type_inst`, where `i_type` makes the calls of itself.
unfoldable pub i_type_body :
    (Op → ℕ → ℕ → ImmExpr → A (Unit {0})) → Op → ℕ → ℕ → ImmExpr → A (Unit {0})
unfolding new_number resolve_or_record i_type_inst_full_word
i_type_body i_type opcode rt rs expr = do
  number ← new_number
  known ← get (λ s. is_known s.symbols expr.symbol)
  value ← get (λ s. eval_imm_expr s.symbols expr)
  bare ← get (λ s. s.machine.settings.bare_machine)
  if known && (not bare && too_wide opcode expr.bits value)
      then i_type_inst_full_word i_type opcode rt rs expr (some value)
      else if known || (bare || not (wants_all expr.bits))
      then resolve_or_record number (i_inst opcode rt rs expr) expr
      else i_type_inst_full_word i_type opcode rt rs expr none

-- `fuel` bounds how deep the calls are nested.
unfoldable pub i_type_inst : ℕ → Op → ℕ → ℕ → ImmExpr → A (Unit {0})
unfolding i_type_body
i_type_inst zero opcode rt rs expr = λ s. endless
i_type_inst (suc fuel) opcode rt rs expr = i_type_body (i_type_inst fuel) opcode rt rs expr
