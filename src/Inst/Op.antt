-- ===== src/Inst/Op.antt =====
-- The instructions and the formats of CPU/op.h.
use Prim.Native.Nat.{ℕ}

-- The `Y_..._OP` tokens of the instructions in CPU/op.h; `invalid` is the opcode 0 of an
-- undecodable word. The directives and pseudo-instructions never reach an `instruction`.
pub data Op : Type 0 where
  invalid : Op
  abs_d abs_ps abs_s add add_d add_ps add_s addi addiu addu alnv_ps and andi bc1f bc1fl : Op
  bc1t bc1tl bc2f bc2fl bc2t bc2tl beq beql bgez bgezal bgezall bgezl bgtz bgtzl blez : Op
  blezl bltz bltzal bltzall bltzl bne bnel break c_eq_d c_eq_ps c_eq_s c_f_d c_f_ps : Op
  c_f_s c_le_d c_le_ps c_le_s c_lt_d c_lt_ps c_lt_s c_nge_d c_nge_ps c_nge_s c_ngl_d : Op
  c_ngl_ps c_ngl_s c_ngle_d c_ngle_ps c_ngle_s c_ngt_d c_ngt_ps c_ngt_s c_ole_d c_ole_ps : Op
  c_ole_s c_olt_d c_olt_ps c_olt_s c_seq_d c_seq_ps c_seq_s c_sf_d c_sf_ps c_sf_s c_ueq_d : Op
  c_ueq_ps c_ueq_s c_ule_d c_ule_ps c_ule_s c_ult_d c_ult_ps c_ult_s c_un_d c_un_ps : Op
  c_un_s cache ceil_l_d ceil_l_s ceil_w_d ceil_w_s cfc0 cfc1 cfc2 clo clz cop2 ctc0 : Op
  ctc1 ctc2 cvt_d_l cvt_d_s cvt_d_w cvt_l_d cvt_l_s cvt_ps_s cvt_s_d cvt_s_l cvt_s_pl : Op
  cvt_s_pu cvt_s_w cvt_w_d cvt_w_s deret di div div_d div_s divu ehb ei eret ext floor_l_d : Op
  floor_l_s floor_w_d floor_w_s ins j jal jalr jalr_hb jr jr_hb lb lbu ldc1 ldc2 ldxc1 : Op
  lh lhu ll lui luxc1 lw lwc1 lwc2 lwl lwr lwxc1 madd madd_d madd_ps madd_s maddu mfc0 : Op
  mfc1 mfc2 mfhc1 mfhc2 mfhi mflo mov_d mov_ps mov_s movf movf_d movf_ps movf_s movn : Op
  movn_d movn_ps movn_s movt movt_d movt_ps movt_s movz movz_d movz_ps movz_s msub msub_d : Op
  msub_ps msub_s msubu mtc0 mtc1 mtc2 mthc1 mthc2 mthi mtlo mul mul_d mul_ps mul_s mult : Op
  multu neg_d neg_ps neg_s nmadd_d nmadd_ps nmadd_s nmsub_d nmsub_ps nmsub_s nor or : Op
  ori pll_ps plu_ps pref prefx pul_ps puu_ps rdhwr rdpgpr recip_d recip_s rfe rotr rotrv : Op
  round_l_d round_l_s round_w_d round_w_s rsqrt_d rsqrt_s sb sc sdbbp sdc1 sdc2 sdxc1 : Op
  seb seh sh sll sllv slt slti sltiu sltu sqrt_d sqrt_s sra srav srl srlv ssnop sub : Op
  sub_d sub_ps sub_s subu suxc1 sw swc1 swc2 swl swr swxc1 sync synci syscall teq teqi : Op
  tge tgei tgeiu tgeu tlbp tlbr tlbwi tlbwr tlt tlti tltiu tltu tne tnei trunc_l_d trunc_l_s : Op
  trunc_w_d trunc_w_s wrpgpr wsbh xor xori : Op

-- The formats, `..._TYPE_INST` of CPU/op.h; the last is that of no instruction.
pub data Format : Type 0 where
  bc b1 i1s i1t i2 b2 i2a r1s r1d r2st r2ds r2td r2sh r3 r3sh : Format
  fp_i2a fp_r2ds fp_r2ts fp_cmp fp_r3 fp_r4 fp_movc movc j_type noarg : Format

-- The third and the fourth column of the table.
pub record Entry : Type 0 where
  pub format : Format
  pub a_opcode : ℕ
