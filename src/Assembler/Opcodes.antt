-- ===== src/Assembler/Opcodes.antt =====
-- CPU/inst.cpp and CPU/parser.y: classes of opcodes.
use spim_curses.Base.{Bool, true, false, Option, none, some}
use spim_curses.Inst.Op.{Op}

unfoldable pub opcode_is_branch : Op → Bool
opcode_is_branch Op.bc1f = true
opcode_is_branch Op.bc1fl = true
opcode_is_branch Op.bc1t = true
opcode_is_branch Op.bc1tl = true
opcode_is_branch Op.bc2f = true
opcode_is_branch Op.bc2fl = true
opcode_is_branch Op.bc2t = true
opcode_is_branch Op.bc2tl = true
opcode_is_branch Op.beq = true
opcode_is_branch Op.beql = true
opcode_is_branch Op.bgez = true
opcode_is_branch Op.bgezal = true
opcode_is_branch Op.bgezall = true
opcode_is_branch Op.bgezl = true
opcode_is_branch Op.bgtz = true
opcode_is_branch Op.bgtzl = true
opcode_is_branch Op.blez = true
opcode_is_branch Op.blezl = true
opcode_is_branch Op.bltz = true
opcode_is_branch Op.bltzal = true
opcode_is_branch Op.bltzall = true
opcode_is_branch Op.bltzl = true
opcode_is_branch Op.bne = true
opcode_is_branch Op.bnel = true
opcode_is_branch _ = false

unfoldable pub opcode_is_nullified_branch : Op → Bool
opcode_is_nullified_branch Op.bc1fl = true
opcode_is_nullified_branch Op.bc1tl = true
opcode_is_nullified_branch Op.bc2fl = true
opcode_is_nullified_branch Op.bc2tl = true
opcode_is_nullified_branch Op.beql = true
opcode_is_nullified_branch Op.bgezall = true
opcode_is_nullified_branch Op.bgezl = true
opcode_is_nullified_branch Op.bgtzl = true
opcode_is_nullified_branch Op.blezl = true
opcode_is_nullified_branch Op.bltzall = true
opcode_is_nullified_branch Op.bltzl = true
opcode_is_nullified_branch Op.bnel = true
opcode_is_nullified_branch _ = false

unfoldable pub opcode_is_true_branch : Op → Bool
opcode_is_true_branch Op.bc1t = true
opcode_is_true_branch Op.bc1tl = true
opcode_is_true_branch Op.bc2t = true
opcode_is_true_branch Op.bc2tl = true
opcode_is_true_branch _ = false

unfoldable pub opcode_is_jump : Op → Bool
opcode_is_jump Op.j = true
opcode_is_jump Op.jal = true
opcode_is_jump _ = false

unfoldable pub opcode_is_load_store : Op → Bool
opcode_is_load_store Op.lb = true
opcode_is_load_store Op.lbu = true
opcode_is_load_store Op.lh = true
opcode_is_load_store Op.lhu = true
opcode_is_load_store Op.ll = true
opcode_is_load_store Op.ldc1 = true
opcode_is_load_store Op.ldc2 = true
opcode_is_load_store Op.lw = true
opcode_is_load_store Op.lwc1 = true
opcode_is_load_store Op.lwc2 = true
opcode_is_load_store Op.lwl = true
opcode_is_load_store Op.lwr = true
opcode_is_load_store Op.sb = true
opcode_is_load_store Op.sc = true
opcode_is_load_store Op.sh = true
opcode_is_load_store Op.sdc1 = true
opcode_is_load_store Op.sdc2 = true
opcode_is_load_store Op.sw = true
opcode_is_load_store Op.swc1 = true
opcode_is_load_store Op.swc2 = true
opcode_is_load_store Op.swl = true
opcode_is_load_store Op.swr = true
opcode_is_load_store _ = false

-- The opcodes whose immediate `i_type_inst` takes as signed, besides loads and stores.
unfoldable pub sign_extends : Op → Bool
sign_extends Op.addi = true
sign_extends Op.addiu = true
sign_extends Op.slti = true
sign_extends Op.sltiu = true
sign_extends Op.teqi = true
sign_extends Op.tgei = true
sign_extends Op.tgeiu = true
sign_extends Op.tlti = true
sign_extends Op.tltiu = true
sign_extends Op.tnei = true
sign_extends _ = false

-- `imm_op_to_op`; `none` is its fatal error.
unfoldable pub imm_op_to_op : Op → Option Op
imm_op_to_op Op.addi = some Op.add
imm_op_to_op Op.addiu = some Op.addu
imm_op_to_op Op.andi = some Op.and
imm_op_to_op Op.ori = some Op.or
imm_op_to_op Op.xori = some Op.xor
imm_op_to_op Op.slti = some Op.slt
imm_op_to_op Op.sltiu = some Op.sltu
imm_op_to_op Op.j = some Op.jr
imm_op_to_op Op.lui = some Op.addu
imm_op_to_op Op.sll = some Op.sllv
imm_op_to_op Op.sra = some Op.srav
imm_op_to_op Op.srl = some Op.srlv
imm_op_to_op _ = none

-- `opcode == Y_LUI_OP`
unfoldable pub is_lui : Op → Bool
is_lui Op.lui = true
is_lui _ = false

-- The opcodes that can build their value in the destination.
unfoldable pub builds_in_place : Op → Bool
builds_in_place Op.ori = true
builds_in_place Op.addi = true
builds_in_place Op.addiu = true
builds_in_place Op.lui = true
builds_in_place _ = false
