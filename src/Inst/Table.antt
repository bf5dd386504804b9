-- ===== src/Inst/Table.antt =====
-- The table of CPU/op.h: the format and the encoding of each instruction.
use Prim.Native.Nat.{ℕ}
use mathlib.Core.Option.{Option, none, some}
use spim_curses.Inst.Op.{Op, Format, Entry}

-- `name_tbl` and `i_opcode_tbl`, looked up at an internal opcode: `format` is value2 of the one,
-- `a_opcode` value2 of the other.
abbrev pub entry : Format → ℕ → Entry
entry f a = record { format = f; a_opcode = a }

unfoldable pub op_entry : Op → Option Entry
op_entry Op.invalid = none
op_entry Op.abs_d = some (entry Format.fp_r2ds 0x46200005)
op_entry Op.abs_ps = some (entry Format.fp_r2ds 0x46600005)
op_entry Op.abs_s = some (entry Format.fp_r2ds 0x46000005)
op_entry Op.add = some (entry Format.r3 0x00000020)
op_entry Op.add_d = some (entry Format.fp_r3 0x46200000)
op_entry Op.add_ps = some (entry Format.fp_r3 0x46600000)
op_entry Op.add_s = some (entry Format.fp_r3 0x46000000)
op_entry Op.addi = some (entry Format.i2 0x20000000)
op_entry Op.addiu = some (entry Format.i2 0x24000000)
op_entry Op.addu = some (entry Format.r3 0x00000021)
op_entry Op.alnv_ps = some (entry Format.fp_r4 0x4c00001e)
op_entry Op.and = some (entry Format.r3 0x00000024)
op_entry Op.andi = some (entry Format.i2 0x30000000)
op_entry Op.bc1f = some (entry Format.bc 0x45000000)
op_entry Op.bc1fl = some (entry Format.bc 0x45020000)
op_entry Op.bc1t = some (entry Format.bc 0x45010000)
op_entry Op.bc1tl = some (entry Format.bc 0x45030000)
op_entry Op.bc2f = some (entry Format.bc 0x49000000)
op_entry Op.bc2fl = some (entry Format.bc 0x49020000)
op_entry Op.bc2t = some (entry Format.bc 0x49010000)
op_entry Op.bc2tl = some (entry Format.bc 0x49030000)
op_entry Op.beq = some (entry Format.b2 0x10000000)
op_entry Op.beql = some (entry Format.b2 0x50000000)
op_entry Op.bgez = some (entry Format.b1 0x04010000)
op_entry Op.bgezal = some (entry Format.b1 0x04110000)
op_entry Op.bgezall = some (entry Format.b1 0x04130000)
op_entry Op.bgezl = some (entry Format.b1 0x04030000)
op_entry Op.bgtz = some (entry Format.b1 0x1c000000)
op_entry Op.bgtzl = some (entry Format.b1 0x5c000000)
op_entry Op.blez = some (entry Format.b1 0x18000000)
op_entry Op.blezl = some (entry Format.b1 0x58000000)
op_entry Op.bltz = some (entry Format.b1 0x04000000)
op_entry Op.bltzal = some (entry Format.b1 0x04100000)
op_entry Op.bltzall = some (entry Format.b1 0x04120000)
op_entry Op.bltzl = some (entry Format.b1 0x04020000)
op_entry Op.bne = some (entry Format.b2 0x14000000)
op_entry Op.bnel = some (entry Format.b2 0x54000000)
op_entry Op.break = some (entry Format.noarg 0x0000000d)
op_entry Op.c_eq_d = some (entry Format.fp_cmp 0x46200032)
op_entry Op.c_eq_ps = some (entry Format.fp_cmp 0x46600032)
op_entry Op.c_eq_s = some (entry Format.fp_cmp 0x46000032)
op_entry Op.c_f_d = some (entry Format.fp_cmp 0x46200030)
op_entry Op.c_f_ps = some (entry Format.fp_cmp 0x46600030)
op_entry Op.c_f_s = some (entry Format.fp_cmp 0x46000030)
op_entry Op.c_le_d = some (entry Format.fp_cmp 0x4620003e)
op_entry Op.c_le_ps = some (entry Format.fp_cmp 0x4660003e)
op_entry Op.c_le_s = some (entry Format.fp_cmp 0x4600003e)
op_entry Op.c_lt_d = some (entry Format.fp_cmp 0x4620003c)
op_entry Op.c_lt_ps = some (entry Format.fp_cmp 0x4660003c)
op_entry Op.c_lt_s = some (entry Format.fp_cmp 0x4600003c)
op_entry Op.c_nge_d = some (entry Format.fp_cmp 0x4620003d)
op_entry Op.c_nge_ps = some (entry Format.fp_cmp 0x4660003d)
op_entry Op.c_nge_s = some (entry Format.fp_cmp 0x4600003d)
op_entry Op.c_ngl_d = some (entry Format.fp_cmp 0x4620003b)
op_entry Op.c_ngl_ps = some (entry Format.fp_cmp 0x4660003b)
op_entry Op.c_ngl_s = some (entry Format.fp_cmp 0x4600003b)
op_entry Op.c_ngle_d = some (entry Format.fp_cmp 0x46200039)
op_entry Op.c_ngle_ps = some (entry Format.fp_cmp 0x46600039)
op_entry Op.c_ngle_s = some (entry Format.fp_cmp 0x46000039)
op_entry Op.c_ngt_d = some (entry Format.fp_cmp 0x4620003f)
op_entry Op.c_ngt_ps = some (entry Format.fp_cmp 0x4660003f)
op_entry Op.c_ngt_s = some (entry Format.fp_cmp 0x4600003f)
op_entry Op.c_ole_d = some (entry Format.fp_cmp 0x46200036)
op_entry Op.c_ole_ps = some (entry Format.fp_cmp 0x46600036)
op_entry Op.c_ole_s = some (entry Format.fp_cmp 0x46000036)
op_entry Op.c_olt_d = some (entry Format.fp_cmp 0x46200034)
op_entry Op.c_olt_ps = some (entry Format.fp_cmp 0x46600034)
op_entry Op.c_olt_s = some (entry Format.fp_cmp 0x46000034)
op_entry Op.c_seq_d = some (entry Format.fp_cmp 0x4620003a)
op_entry Op.c_seq_ps = some (entry Format.fp_cmp 0x4660003a)
op_entry Op.c_seq_s = some (entry Format.fp_cmp 0x4600003a)
op_entry Op.c_sf_d = some (entry Format.fp_cmp 0x46200038)
op_entry Op.c_sf_ps = some (entry Format.fp_cmp 0x46600038)
op_entry Op.c_sf_s = some (entry Format.fp_cmp 0x46000038)
op_entry Op.c_ueq_d = some (entry Format.fp_cmp 0x46200033)
op_entry Op.c_ueq_ps = some (entry Format.fp_cmp 0x46600033)
op_entry Op.c_ueq_s = some (entry Format.fp_cmp 0x46000033)
op_entry Op.c_ule_d = some (entry Format.fp_cmp 0x46200037)
op_entry Op.c_ule_ps = some (entry Format.fp_cmp 0x46600037)
op_entry Op.c_ule_s = some (entry Format.fp_cmp 0x46000037)
op_entry Op.c_ult_d = some (entry Format.fp_cmp 0x46200035)
op_entry Op.c_ult_ps = some (entry Format.fp_cmp 0x46600035)
op_entry Op.c_ult_s = some (entry Format.fp_cmp 0x46000035)
op_entry Op.c_un_d = some (entry Format.fp_cmp 0x46200031)
op_entry Op.c_un_ps = some (entry Format.fp_cmp 0x46600031)
op_entry Op.c_un_s = some (entry Format.fp_cmp 0x46000031)
op_entry Op.cache = some (entry Format.i2 0xbc000000)
op_entry Op.ceil_l_d = some (entry Format.fp_r2ds 0x4620000a)
op_entry Op.ceil_l_s = some (entry Format.fp_r2ds 0x4600000a)
op_entry Op.ceil_w_d = some (entry Format.fp_r2ds 0x4620000e)
op_entry Op.ceil_w_s = some (entry Format.fp_r2ds 0x4600000e)
op_entry Op.cfc0 = some (entry Format.fp_r2ts 0x40400000)
op_entry Op.cfc1 = some (entry Format.fp_r2ts 0x44400000)
op_entry Op.cfc2 = some (entry Format.fp_r2ts 0x48400000)
op_entry Op.clo = some (entry Format.r3 0x70000021)
op_entry Op.clz = some (entry Format.r3 0x70000020)
op_entry Op.cop2 = some (entry Format.j_type 0x4a000000)
op_entry Op.ctc0 = some (entry Format.fp_r2ts 0x40c00000)
op_entry Op.ctc1 = some (entry Format.fp_r2ts 0x44c00000)
op_entry Op.ctc2 = some (entry Format.fp_r2ts 0x48c00000)
op_entry Op.cvt_d_l = some (entry Format.fp_r2ds 0x46b00021)
op_entry Op.cvt_d_s = some (entry Format.fp_r2ds 0x46000021)
op_entry Op.cvt_d_w = some (entry Format.fp_r2ds 0x46200021)
op_entry Op.cvt_l_d = some (entry Format.fp_r2ds 0x46200025)
op_entry Op.cvt_l_s = some (entry Format.fp_r2ds 0x46000025)
op_entry Op.cvt_ps_s = some (entry Format.fp_r2ds 0x46000026)
op_entry Op.cvt_s_d = some (entry Format.fp_r2ds 0x46200020)
op_entry Op.cvt_s_l = some (entry Format.fp_r2ds 0x46b00020)
op_entry Op.cvt_s_pl = some (entry Format.fp_r2ds 0x46c00024)
op_entry Op.cvt_s_pu = some (entry Format.fp_r2ds 0x46c00020)
op_entry Op.cvt_s_w = some (entry Format.fp_r2ds 0x46800020)
op_entry Op.cvt_w_d = some (entry Format.fp_r2ds 0x46200024)
op_entry Op.cvt_w_s = some (entry Format.fp_r2ds 0x46000024)
op_entry Op.deret = some (entry Format.noarg 0x4200001f)
op_entry Op.di = some (entry Format.i1t 0x41606000)
op_entry Op.div = some (entry Format.r2st 0x0000001a)
op_entry Op.div_d = some (entry Format.fp_r3 0x46200003)
op_entry Op.div_s = some (entry Format.fp_r3 0x46000003)
op_entry Op.divu = some (entry Format.r2st 0x0000001b)
op_entry Op.ehb = some (entry Format.noarg 0x000000c0)
op_entry Op.ei = some (entry Format.i1t 0x41606020)
op_entry Op.eret = some (entry Format.noarg 0x42000018)
op_entry Op.ext = some (entry Format.fp_r2ds 0x7c000000)
op_entry Op.floor_l_d = some (entry Format.fp_r2ds 0x4620000b)
op_entry Op.floor_l_s = some (entry Format.fp_r2ds 0x4600000b)
op_entry Op.floor_w_d = some (entry Format.fp_r2ds 0x4620000f)
op_entry Op.floor_w_s = some (entry Format.fp_r2ds 0x4600000f)
op_entry Op.ins = some (entry Format.fp_r2ds 0x7c000004)
op_entry Op.j = some (entry Format.j_type 0x08000000)
op_entry Op.jal = some (entry Format.j_type 0x0c000000)
op_entry Op.jalr = some (entry Format.r2ds 0x00000009)
op_entry Op.jalr_hb = some (entry Format.r2ds 0x00000409)
op_entry Op.jr = some (entry Format.r1s 0x00000008)
op_entry Op.jr_hb = some (entry Format.r1s 0x00000408)
op_entry Op.lb = some (entry Format.i2a 0x80000000)
op_entry Op.lbu = some (entry Format.i2a 0x90000000)
op_entry Op.ldc1 = some (entry Format.fp_i2a 0xd4000000)
op_entry Op.ldc2 = some (entry Format.i2a 0xd8000000)
op_entry Op.ldxc1 = some (entry Format.fp_r3 0x4c000001)
op_entry Op.lh = some (entry Format.i2a 0x84000000)
op_entry Op.lhu = some (entry Format.i2a 0x94000000)
op_entry Op.ll = some (entry Format.i2a 0xc0000000)
op_entry Op.lui = some (entry Format.i1t 0x3c000000)
op_entry Op.luxc1 = some (entry Format.fp_r3 0x4c000005)
op_entry Op.lw = some (entry Format.i2a 0x8c000000)
op_entry Op.lwc1 = some (entry Format.fp_i2a 0xc4000000)
op_entry Op.lwc2 = some (entry Format.i2a 0xc8000000)
op_entry Op.lwl = some (entry Format.i2a 0x88000000)
op_entry Op.lwr = some (entry Format.i2a 0x98000000)
op_entry Op.lwxc1 = some (entry Format.fp_r3 0x4c000000)
op_entry Op.madd = some (entry Format.r2st 0x70000000)
op_entry Op.madd_d = some (entry Format.fp_r4 0x4c000001)
op_entry Op.madd_ps = some (entry Format.fp_r4 0x4c000006)
op_entry Op.madd_s = some (entry Format.fp_r4 0x4c000000)
op_entry Op.maddu = some (entry Format.r2st 0x70000001)
op_entry Op.mfc0 = some (entry Format.r2td 0x40000000)
op_entry Op.mfc1 = some (entry Format.fp_r2ts 0x44000000)
op_entry Op.mfc2 = some (entry Format.r2td 0x48000000)
op_entry Op.mfhc1 = some (entry Format.fp_r2ts 0x44600000)
op_entry Op.mfhc2 = some (entry Format.r2td 0x48600000)
op_entry Op.mfhi = some (entry Format.r1d 0x00000010)
op_entry Op.mflo = some (entry Format.r1d 0x00000012)
op_entry Op.mov_d = some (entry Format.fp_r2ds 0x46200006)
op_entry Op.mov_ps = some (entry Format.fp_r2ds 0x46c00006)
op_entry Op.mov_s = some (entry Format.fp_r2ds 0x46000006)
op_entry Op.movf = some (entry Format.movc 0x00000001)
op_entry Op.movf_d = some (entry Format.fp_movc 0x46200011)
op_entry Op.movf_ps = some (entry Format.fp_movc 0x46c00011)
op_entry Op.movf_s = some (entry Format.fp_movc 0x46000011)
op_entry Op.movn = some (entry Format.r3 0x0000000b)
op_entry Op.movn_d = some (entry Format.fp_movc 0x46200013)
op_entry Op.movn_ps = some (entry Format.fp_movc 0x46c00013)
op_entry Op.movn_s = some (entry Format.fp_movc 0x46000013)
op_entry Op.movt = some (entry Format.movc 0x00010001)
op_entry Op.movt_d = some (entry Format.fp_movc 0x46210011)
op_entry Op.movt_ps = some (entry Format.fp_movc 0x46c10011)
op_entry Op.movt_s = some (entry Format.fp_movc 0x46010011)
op_entry Op.movz = some (entry Format.r3 0x0000000a)
op_entry Op.movz_d = some (entry Format.fp_movc 0x46200012)
op_entry Op.movz_ps = some (entry Format.fp_movc 0x46c00012)
op_entry Op.movz_s = some (entry Format.fp_movc 0x46000012)
op_entry Op.msub = some (entry Format.r2st 0x70000004)
op_entry Op.msub_d = some (entry Format.fp_r4 0x4c000021)
op_entry Op.msub_ps = some (entry Format.fp_r4 0x4c000026)
op_entry Op.msub_s = some (entry Format.fp_r4 0x4c000020)
op_entry Op.msubu = some (entry Format.r2st 0x70000005)
op_entry Op.mtc0 = some (entry Format.r2td 0x40800000)
op_entry Op.mtc1 = some (entry Format.fp_r2ts 0x44800000)
op_entry Op.mtc2 = some (entry Format.r2td 0x48800000)
op_entry Op.mthc1 = some (entry Format.fp_r2ts 0x44e00000)
op_entry Op.mthc2 = some (entry Format.r2td 0x48e00000)
op_entry Op.mthi = some (entry Format.r1s 0x00000011)
op_entry Op.mtlo = some (entry Format.r1s 0x00000013)
op_entry Op.mul = some (entry Format.r3 0x70000002)
op_entry Op.mul_d = some (entry Format.fp_r3 0x46200002)
op_entry Op.mul_ps = some (entry Format.fp_r3 0x46c00002)
op_entry Op.mul_s = some (entry Format.fp_r3 0x46000002)
op_entry Op.mult = some (entry Format.r2st 0x00000018)
op_entry Op.multu = some (entry Format.r2st 0x00000019)
op_entry Op.neg_d = some (entry Format.fp_r2ds 0x46200007)
op_entry Op.neg_ps = some (entry Format.fp_r2ds 0x46c00007)
op_entry Op.neg_s = some (entry Format.fp_r2ds 0x46000007)
op_entry Op.nmadd_d = some (entry Format.fp_r4 0x4c000031)
op_entry Op.nmadd_ps = some (entry Format.fp_r4 0x4c000036)
op_entry Op.nmadd_s = some (entry Format.fp_r4 0x4c000030)
op_entry Op.nmsub_d = some (entry Format.fp_r4 0x4c000039)
op_entry Op.nmsub_ps = some (entry Format.fp_r4 0x4c00003e)
op_entry Op.nmsub_s = some (entry Format.fp_r4 0x4c000038)
op_entry Op.nor = some (entry Format.r3 0x00000027)
op_entry Op.or = some (entry Format.r3 0x00000025)
op_entry Op.ori = some (entry Format.i2 0x34000000)
op_entry Op.pll_ps = some (entry Format.fp_r3 0x46c0002c)
op_entry Op.plu_ps = some (entry Format.fp_r3 0x46c0002d)
op_entry Op.pref = some (entry Format.i2 0xcc000000)
op_entry Op.prefx = some (entry Format.r2st 0x4600000f)
op_entry Op.pul_ps = some (entry Format.fp_r3 0x46c0002e)
op_entry Op.puu_ps = some (entry Format.fp_r3 0x46c0002f)
op_entry Op.rdhwr = some (entry Format.r3 0x7c00003b)
op_entry Op.rdpgpr = some (entry Format.r2td 0x41400000)
op_entry Op.recip_d = some (entry Format.fp_r2ds 0x46200015)
op_entry Op.recip_s = some (entry Format.fp_r2ds 0x46000015)
op_entry Op.rfe = some (entry Format.noarg 0x42000010)
op_entry Op.rotr = some (entry Format.r2sh 0x00200002)
op_entry Op.rotrv = some (entry Format.r2sh 0x00200003)
op_entry Op.round_l_d = some (entry Format.fp_r2ds 0x46200008)
op_entry Op.round_l_s = some (entry Format.fp_r2ds 0x46000008)
op_entry Op.round_w_d = some (entry Format.fp_r2ds 0x4620000c)
op_entry Op.round_w_s = some (entry Format.fp_r2ds 0x4600000c)
op_entry Op.rsqrt_d = some (entry Format.fp_r2ds 0x46200016)
op_entry Op.rsqrt_s = some (entry Format.fp_r2ds 0x46000016)
op_entry Op.sb = some (entry Format.i2a 0xa0000000)
op_entry Op.sc = some (entry Format.i2a 0xe0000000)
op_entry Op.sdbbp = some (entry Format.noarg 0x7000003f)
op_entry Op.sdc1 = some (entry Format.fp_i2a 0xf4000000)
op_entry Op.sdc2 = some (entry Format.i2a 0xf8000000)
op_entry Op.sdxc1 = some (entry Format.fp_r3 0x46000009)
op_entry Op.seb = some (entry Format.r2td 0x7c000420)
op_entry Op.seh = some (entry Format.r2td 0x7c000620)
op_entry Op.sh = some (entry Format.i2a 0xa4000000)
op_entry Op.sll = some (entry Format.r2sh 0x00000000)
op_entry Op.sllv = some (entry Format.r3sh 0x00000004)
op_entry Op.slt = some (entry Format.r3 0x0000002a)
op_entry Op.slti = some (entry Format.i2 0x28000000)
op_entry Op.sltiu = some (entry Format.i2 0x2c000000)
op_entry Op.sltu = some (entry Format.r3 0x0000002b)
op_entry Op.sqrt_d = some (entry Format.fp_r2ds 0x46200004)
op_entry Op.sqrt_s = some (entry Format.fp_r2ds 0x46000004)
op_entry Op.sra = some (entry Format.r2sh 0x00000003)
op_entry Op.srav = some (entry Format.r3sh 0x00000007)
op_entry Op.srl = some (entry Format.r2sh 0x00000002)
op_entry Op.srlv = some (entry Format.r3sh 0x00000006)
op_entry Op.ssnop = some (entry Format.r2sh 0x00000040)
op_entry Op.sub = some (entry Format.r3 0x00000022)
op_entry Op.sub_d = some (entry Format.fp_r3 0x46200001)
op_entry Op.sub_ps = some (entry Format.fp_r3 0x46600001)
op_entry Op.sub_s = some (entry Format.fp_r3 0x46000001)
op_entry Op.subu = some (entry Format.r3 0x00000023)
op_entry Op.suxc1 = some (entry Format.fp_r3 0x4600000d)
op_entry Op.sw = some (entry Format.i2a 0xac000000)
op_entry Op.swc1 = some (entry Format.fp_i2a 0xe4000000)
op_entry Op.swc2 = some (entry Format.i2a 0xe8000000)
op_entry Op.swl = some (entry Format.i2a 0xa8000000)
op_entry Op.swr = some (entry Format.i2a 0xb8000000)
op_entry Op.swxc1 = some (entry Format.fp_r3 0x46000008)
op_entry Op.sync = some (entry Format.noarg 0x0000000f)
op_entry Op.synci = some (entry Format.i2 0x04140000)
op_entry Op.syscall = some (entry Format.noarg 0x0000000c)
op_entry Op.teq = some (entry Format.r2st 0x00000034)
op_entry Op.teqi = some (entry Format.i1s 0x040c0000)
op_entry Op.tge = some (entry Format.r2st 0x00000030)
op_entry Op.tgei = some (entry Format.i1s 0x04080000)
op_entry Op.tgeiu = some (entry Format.i1s 0x04090000)
op_entry Op.tgeu = some (entry Format.r2st 0x00000031)
op_entry Op.tlbp = some (entry Format.noarg 0x42000008)
op_entry Op.tlbr = some (entry Format.noarg 0x42000001)
op_entry Op.tlbwi = some (entry Format.noarg 0x42000002)
op_entry Op.tlbwr = some (entry Format.noarg 0x42000006)
op_entry Op.tlt = some (entry Format.r2st 0x00000032)
op_entry Op.tlti = some (entry Format.i1s 0x040a0000)
op_entry Op.tltiu = some (entry Format.i1s 0x040b0000)
op_entry Op.tltu = some (entry Format.r2st 0x00000033)
op_entry Op.tne = some (entry Format.r2st 0x00000036)
op_entry Op.tnei = some (entry Format.i1s 0x040e0000)
op_entry Op.trunc_l_d = some (entry Format.fp_r2ds 0x46200009)
op_entry Op.trunc_l_s = some (entry Format.fp_r2ds 0x46000009)
op_entry Op.trunc_w_d = some (entry Format.fp_r2ds 0x4620000d)
op_entry Op.trunc_w_s = some (entry Format.fp_r2ds 0x4600000d)
op_entry Op.wrpgpr = some (entry Format.r2td 0x41c00000)
op_entry Op.wsbh = some (entry Format.r2td 0x7c0000a0)
op_entry Op.xor = some (entry Format.r3 0x00000026)
op_entry Op.xori = some (entry Format.i2 0x38000000)
