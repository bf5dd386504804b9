-- ===== src/Inst/Rows.antt =====
-- `a_opcode_tbl` of CPU/inst.cpp, as `sort_a_opcode_table` leaves it: the rows of CPU/op.h by
-- `value1`, compared as `int32`.
use Prim.Native.Nat.{ℕ, ◌-◌, ◌^◌}
use mathlib.Core.List.{List, [], ◌∷◌, ◌++◌}
use mathlib.Core.Option.{Option, none, some}
use spim_curses.Inst.Op.{Op}

-- `value2` is `none` for a directive or a pseudo-instruction, whose encoding is -1.
pub record Row : Type 0 where
  pub value1 : ℕ
  pub value2 : Option Op

abbrev word : ℕ → Op → Row
word a op = record { value1 = a; value2 = some op }

abbrev other : Row
other = record { value1 = 2 ^ 32 - 1; value2 = none }

cop_rows : List Row
cop_rows =
    word 0x44000000 Op.mfc1
    ∷ word 0x44400000 Op.cfc1
    ∷ word 0x44600000 Op.mfhc1
    ∷ word 0x44800000 Op.mtc1
    ∷ word 0x44c00000 Op.ctc1
    ∷ word 0x44e00000 Op.mthc1
    ∷ word 0x45000000 Op.bc1f
    ∷ word 0x45010000 Op.bc1t
    ∷ word 0x45020000 Op.bc1fl
    ∷ word 0x45030000 Op.bc1tl
    ∷ word 0x46000000 Op.add_s
    ∷ word 0x46000001 Op.sub_s
    ∷ word 0x46000002 Op.mul_s
    ∷ word 0x46000003 Op.div_s
    ∷ word 0x46000004 Op.sqrt_s
    ∷ word 0x46000005 Op.abs_s
    ∷ word 0x46000006 Op.mov_s
    ∷ word 0x46000007 Op.neg_s
    ∷ word 0x46000008 Op.round_l_s
    ∷ word 0x46000008 Op.swxc1
    ∷ word 0x46000009 Op.sdxc1
    ∷ word 0x46000009 Op.trunc_l_s
    ∷ word 0x4600000a Op.ceil_l_s
    ∷ word 0x4600000b Op.floor_l_s
    ∷ word 0x4600000c Op.round_w_s
    ∷ word 0x4600000d Op.suxc1
    ∷ word 0x4600000d Op.trunc_w_s
    ∷ word 0x4600000e Op.ceil_w_s
    ∷ word 0x4600000f Op.floor_w_s
    ∷ word 0x4600000f Op.prefx
    ∷ word 0x46000011 Op.movf_s
    ∷ word 0x46000012 Op.movz_s
    ∷ word 0x46000013 Op.movn_s
    ∷ word 0x46000015 Op.recip_s
    ∷ word 0x46000016 Op.rsqrt_s
    ∷ word 0x46000021 Op.cvt_d_s
    ∷ word 0x46000024 Op.cvt_w_s
    ∷ word 0x46000025 Op.cvt_l_s
    ∷ word 0x46000026 Op.cvt_ps_s
    ∷ word 0x46000030 Op.c_f_s
    ∷ word 0x46000031 Op.c_un_s
    ∷ word 0x46000032 Op.c_eq_s
    ∷ word 0x46000033 Op.c_ueq_s
    ∷ word 0x46000034 Op.c_olt_s
    ∷ word 0x46000035 Op.c_ult_s
    ∷ word 0x46000036 Op.c_ole_s
    ∷ word 0x46000037 Op.c_ule_s
    ∷ word 0x46000038 Op.c_sf_s
    ∷ word 0x46000039 Op.c_ngle_s
    ∷ word 0x4600003a Op.c_seq_s
    ∷ word 0x4600003b Op.c_ngl_s
    ∷ word 0x4600003c Op.c_lt_s
    ∷ word 0x4600003d Op.c_nge_s
    ∷ word 0x4600003e Op.c_le_s
    ∷ word 0x4600003f Op.c_ngt_s
    ∷ word 0x46010011 Op.movt_s
    ∷ word 0x46200000 Op.add_d
    ∷ word 0x46200001 Op.sub_d
    ∷ word 0x46200002 Op.mul_d
    ∷ word 0x46200003 Op.div_d
    ∷ word 0x46200004 Op.sqrt_d
    ∷ word 0x46200005 Op.abs_d
    ∷ word 0x46200006 Op.mov_d
    ∷ word 0x46200007 Op.neg_d
    ∷ word 0x46200008 Op.round_l_d
    ∷ word 0x46200009 Op.trunc_l_d
    ∷ word 0x4620000a Op.ceil_l_d
    ∷ word 0x4620000b Op.floor_l_d
    ∷ word 0x4620000c Op.round_w_d
    ∷ word 0x4620000d Op.trunc_w_d
    ∷ word 0x4620000e Op.ceil_w_d
    ∷ word 0x4620000f Op.floor_w_d
    ∷ word 0x46200011 Op.movf_d
    ∷ word 0x46200012 Op.movz_d
    ∷ word 0x46200013 Op.movn_d
    ∷ word 0x46200015 Op.recip_d
    ∷ word 0x46200016 Op.rsqrt_d
    ∷ word 0x46200020 Op.cvt_s_d
    ∷ word 0x46200021 Op.cvt_d_w
    ∷ word 0x46200024 Op.cvt_w_d
    ∷ word 0x46200025 Op.cvt_l_d
    ∷ word 0x46200030 Op.c_f_d
    ∷ word 0x46200031 Op.c_un_d
    ∷ word 0x46200032 Op.c_eq_d
    ∷ word 0x46200033 Op.c_ueq_d
    ∷ word 0x46200034 Op.c_olt_d
    ∷ word 0x46200035 Op.c_ult_d
    ∷ word 0x46200036 Op.c_ole_d
    ∷ word 0x46200037 Op.c_ule_d
    ∷ word 0x46200038 Op.c_sf_d
    ∷ word 0x46200039 Op.c_ngle_d
    ∷ word 0x4620003a Op.c_seq_d
    ∷ word 0x4620003b Op.c_ngl_d
    ∷ word 0x4620003c Op.c_lt_d
    ∷ word 0x4620003d Op.c_nge_d
    ∷ word 0x4620003e Op.c_le_d
    ∷ word 0x4620003f Op.c_ngt_d
    ∷ word 0x46210011 Op.movt_d
    ∷ word 0x46600000 Op.add_ps
    ∷ word 0x46600001 Op.sub_ps
    ∷ word 0x46600005 Op.abs_ps
    ∷ word 0x46600030 Op.c_f_ps
    ∷ word 0x46600031 Op.c_un_ps
    ∷ word 0x46600032 Op.c_eq_ps
    ∷ word 0x46600033 Op.c_ueq_ps
    ∷ word 0x46600034 Op.c_olt_ps
    ∷ word 0x46600035 Op.c_ult_ps
    ∷ word 0x46600036 Op.c_ole_ps
    ∷ word 0x46600037 Op.c_ule_ps
    ∷ word 0x46600038 Op.c_sf_ps
    ∷ word 0x46600039 Op.c_ngle_ps
    ∷ word 0x4660003a Op.c_seq_ps
    ∷ word 0x4660003b Op.c_ngl_ps
    ∷ word 0x4660003c Op.c_lt_ps
    ∷ word 0x4660003d Op.c_nge_ps
    ∷ word 0x4660003e Op.c_le_ps
    ∷ word 0x4660003f Op.c_ngt_ps
    ∷ word 0x46800020 Op.cvt_s_w
    ∷ word 0x46b00020 Op.cvt_s_l
    ∷ word 0x46b00021 Op.cvt_d_l
    ∷ word 0x46c00002 Op.mul_ps
    ∷ word 0x46c00006 Op.mov_ps
    ∷ word 0x46c00007 Op.neg_ps
    ∷ word 0x46c00011 Op.movf_ps
    ∷ word 0x46c00012 Op.movz_ps
    ∷ word 0x46c00013 Op.movn_ps
    ∷ word 0x46c00020 Op.cvt_s_pu
    ∷ word 0x46c00024 Op.cvt_s_pl
    ∷ word 0x46c0002c Op.pll_ps
    ∷ word 0x46c0002d Op.plu_ps
    ∷ word 0x46c0002e Op.pul_ps
    ∷ word 0x46c0002f Op.puu_ps
    ∷ word 0x46c10011 Op.movt_ps
    ∷ word 0x48000000 Op.mfc2
    ∷ word 0x48400000 Op.cfc2
    ∷ word 0x48600000 Op.mfhc2
    ∷ word 0x48800000 Op.mtc2
    ∷ word 0x48c00000 Op.ctc2
    ∷ word 0x48e00000 Op.mthc2
    ∷ word 0x49000000 Op.bc2f
    ∷ word 0x49010000 Op.bc2t
    ∷ word 0x49020000 Op.bc2fl
    ∷ word 0x49030000 Op.bc2tl
    ∷ word 0x4a000000 Op.cop2
    ∷ word 0x4c000000 Op.lwxc1
    ∷ word 0x4c000000 Op.madd_s
    ∷ word 0x4c000001 Op.ldxc1
    ∷ word 0x4c000001 Op.madd_d
    ∷ word 0x4c000005 Op.luxc1
    ∷ word 0x4c000006 Op.madd_ps
    ∷ word 0x4c00001e Op.alnv_ps
    ∷ word 0x4c000020 Op.msub_s
    ∷ word 0x4c000021 Op.msub_d
    ∷ word 0x4c000026 Op.msub_ps
    ∷ word 0x4c000030 Op.nmadd_s
    ∷ word 0x4c000031 Op.nmadd_d
    ∷ word 0x4c000036 Op.nmadd_ps
    ∷ word 0x4c000038 Op.nmsub_s
    ∷ word 0x4c000039 Op.nmsub_d
    ∷ word 0x4c00003e Op.nmsub_ps
    ∷ word 0x50000000 Op.beql
    ∷ word 0x54000000 Op.bnel
    ∷ word 0x58000000 Op.blezl
    ∷ word 0x5c000000 Op.bgtzl
    ∷ word 0x70000000 Op.madd
    ∷ word 0x70000001 Op.maddu
    ∷ word 0x70000002 Op.mul
    ∷ word 0x70000004 Op.msub
    ∷ word 0x70000005 Op.msubu
    ∷ word 0x70000020 Op.clz
    ∷ word 0x70000021 Op.clo
    ∷ word 0x7000003f Op.sdbbp
    ∷ word 0x7c000000 Op.ext
    ∷ word 0x7c000004 Op.ins
    ∷ word 0x7c00003b Op.rdhwr
    ∷ word 0x7c0000a0 Op.wsbh
    ∷ word 0x7c000420 Op.seb
    ∷ word 0x7c000620 Op.seh
    ∷ []

low_rows : List Row
low_rows =
    word 0x00000000 Op.sll
    ∷ word 0x00000001 Op.movf
    ∷ word 0x00000002 Op.srl
    ∷ word 0x00000003 Op.sra
    ∷ word 0x00000004 Op.sllv
    ∷ word 0x00000006 Op.srlv
    ∷ word 0x00000007 Op.srav
    ∷ word 0x00000008 Op.jr
    ∷ word 0x00000009 Op.jalr
    ∷ word 0x0000000a Op.movz
    ∷ word 0x0000000b Op.movn
    ∷ word 0x0000000c Op.syscall
    ∷ word 0x0000000d Op.break
    ∷ word 0x0000000f Op.sync
    ∷ word 0x00000010 Op.mfhi
    ∷ word 0x00000011 Op.mthi
    ∷ word 0x00000012 Op.mflo
    ∷ word 0x00000013 Op.mtlo
    ∷ word 0x00000018 Op.mult
    ∷ word 0x00000019 Op.multu
    ∷ word 0x0000001a Op.div
    ∷ word 0x0000001b Op.divu
    ∷ word 0x00000020 Op.add
    ∷ word 0x00000021 Op.addu
    ∷ word 0x00000022 Op.sub
    ∷ word 0x00000023 Op.subu
    ∷ word 0x00000024 Op.and
    ∷ word 0x00000025 Op.or
    ∷ word 0x00000026 Op.xor
    ∷ word 0x00000027 Op.nor
    ∷ word 0x0000002a Op.slt
    ∷ word 0x0000002b Op.sltu
    ∷ word 0x00000030 Op.tge
    ∷ word 0x00000031 Op.tgeu
    ∷ word 0x00000032 Op.tlt
    ∷ word 0x00000033 Op.tltu
    ∷ word 0x00000034 Op.teq
    ∷ word 0x00000036 Op.tne
    ∷ word 0x00000040 Op.ssnop
    ∷ word 0x000000c0 Op.ehb
    ∷ word 0x00000408 Op.jr_hb
    ∷ word 0x00000409 Op.jalr_hb
    ∷ word 0x00010001 Op.movt
    ∷ word 0x00200002 Op.rotr
    ∷ word 0x00200003 Op.rotrv
    ∷ word 0x04000000 Op.bltz
    ∷ word 0x04010000 Op.bgez
    ∷ word 0x04020000 Op.bltzl
    ∷ word 0x04030000 Op.bgezl
    ∷ word 0x04080000 Op.tgei
    ∷ word 0x04090000 Op.tgeiu
    ∷ word 0x040a0000 Op.tlti
    ∷ word 0x040b0000 Op.tltiu
    ∷ word 0x040c0000 Op.teqi
    ∷ word 0x040e0000 Op.tnei
    ∷ word 0x04100000 Op.bltzal
    ∷ word 0x04110000 Op.bgezal
    ∷ word 0x04120000 Op.bltzall
    ∷ word 0x04130000 Op.bgezall
    ∷ word 0x04140000 Op.synci
    ∷ word 0x08000000 Op.j
    ∷ word 0x0c000000 Op.jal
    ∷ word 0x10000000 Op.beq
    ∷ word 0x14000000 Op.bne
    ∷ word 0x18000000 Op.blez
    ∷ word 0x1c000000 Op.bgtz
    ∷ word 0x20000000 Op.addi
    ∷ word 0x24000000 Op.addiu
    ∷ word 0x28000000 Op.slti
    ∷ word 0x2c000000 Op.sltiu
    ∷ word 0x30000000 Op.andi
    ∷ word 0x34000000 Op.ori
    ∷ word 0x38000000 Op.xori
    ∷ word 0x3c000000 Op.lui
    ∷ word 0x40000000 Op.mfc0
    ∷ word 0x40400000 Op.cfc0
    ∷ word 0x40800000 Op.mtc0
    ∷ word 0x40c00000 Op.ctc0
    ∷ word 0x41400000 Op.rdpgpr
    ∷ word 0x41606000 Op.di
    ∷ word 0x41606020 Op.ei
    ∷ word 0x41c00000 Op.wrpgpr
    ∷ word 0x42000001 Op.tlbr
    ∷ word 0x42000002 Op.tlbwi
    ∷ word 0x42000006 Op.tlbwr
    ∷ word 0x42000008 Op.tlbp
    ∷ word 0x42000010 Op.rfe
    ∷ word 0x42000018 Op.eret
    ∷ word 0x4200001f Op.deret
    ∷ []

negative_rows : List Row
negative_rows =
    word 0x80000000 Op.lb
    ∷ word 0x84000000 Op.lh
    ∷ word 0x88000000 Op.lwl
    ∷ word 0x8c000000 Op.lw
    ∷ word 0x90000000 Op.lbu
    ∷ word 0x94000000 Op.lhu
    ∷ word 0x98000000 Op.lwr
    ∷ word 0xa0000000 Op.sb
    ∷ word 0xa4000000 Op.sh
    ∷ word 0xa8000000 Op.swl
    ∷ word 0xac000000 Op.sw
    ∷ word 0xb8000000 Op.swr
    ∷ word 0xbc000000 Op.cache
    ∷ word 0xc0000000 Op.ll
    ∷ word 0xc4000000 Op.lwc1
    ∷ word 0xc8000000 Op.lwc2
    ∷ word 0xcc000000 Op.pref
    ∷ word 0xd4000000 Op.ldc1
    ∷ word 0xd8000000 Op.ldc2
    ∷ word 0xe0000000 Op.sc
    ∷ word 0xe4000000 Op.swc1
    ∷ word 0xe8000000 Op.swc2
    ∷ word 0xf4000000 Op.sdc1
    ∷ word 0xf8000000 Op.sdc2
    ∷ other
    ∷ other
    ∷ other
    ∷ other
    ∷ other
    ∷ other
    ∷ other
    ∷ other
    ∷ other
    ∷ other
    ∷ other
    ∷ other
    ∷ other
    ∷ other
    ∷ other
    ∷ other
    ∷ other
    ∷ other
    ∷ other
    ∷ other
    ∷ other
    ∷ other
    ∷ other
    ∷ other
    ∷ other
    ∷ other
    ∷ other
    ∷ other
    ∷ other
    ∷ other
    ∷ other
    ∷ other
    ∷ other
    ∷ other
    ∷ other
    ∷ other
    ∷ other
    ∷ other
    ∷ other
    ∷ other
    ∷ other
    ∷ other
    ∷ other
    ∷ other
    ∷ other
    ∷ other
    ∷ other
    ∷ other
    ∷ other
    ∷ other
    ∷ other
    ∷ other
    ∷ other
    ∷ other
    ∷ other
    ∷ other
    ∷ other
    ∷ other
    ∷ other
    ∷ other
    ∷ other
    ∷ other
    ∷ other
    ∷ other
    ∷ other
    ∷ other
    ∷ other
    ∷ other
    ∷ other
    ∷ other
    ∷ other
    ∷ other
    ∷ other
    ∷ other
    ∷ other
    ∷ other
    ∷ other
    ∷ other
    ∷ other
    ∷ other
    ∷ other
    ∷ other
    ∷ other
    ∷ other
    ∷ other
    ∷ other
    ∷ other
    ∷ other
    ∷ other
    ∷ other
    ∷ []

unfoldable pub a_opcode_tbl : List Row
unfolding negative_rows low_rows cop_rows
a_opcode_tbl = negative_rows ++ (low_rows ++ cop_rows)
