-- ===== src/Inst/Fields/Displacement.antt =====
-- CPU/inst.h: the macro `IDISP`.
use spim_curses.Base.{
  ℕ, ◌+◌, ◌/◌, ◌%◌, ◌^◌, ◌≤◌, ◌≡◌, ◌↔◌, arith, ◌==◌, if◌then◌else◌, mul32, shl, IsWord, ◌⊎◌,
}
use spim_curses.Base.Fields.{bit_and_low, bit_and_high}
use spim_curses.Base.Masks.{or_and}
use spim_curses.Inst.Fields.{Instruction, imm, ioffset, idisp, sign_ex}

-- The sixteen bits of the immediate field.
abbrev pub imm_bits : Instruction → ℕ
imm_bits inst = inst.r_t / 2 ^ 16 % 2 ^ 16

pub sign_ex-eq :
    (x : ℕ) → IsWord x → sign_ex x ≡ (if x / 2 ^ 15 % 2 == 0 then x else x % 2 ^ 16 + 0xffff_0000)
sign_ex-eq x h = ground (
  arith,
  bit_and_high 15 x 1,
  bit_and_low 1 (x / 2 ^ 15),
  or_and x 0xffff_0000,
  bit_and_high 16 x 0xffff,
  bit_and_low 16 (x / 2 ^ 16),
)

-- `IDISP` is four times the signed offset of an instruction just where bit 13 of the offset is
-- clear or the offset is at least 0xe000.
pub idisp-exact :
    (inst : Instruction)
    → (idisp inst ≡ mul32 (imm inst) 4)
      ↔ ((imm_bits inst / 2 ^ 13 % 2 ≡ 0) ⊎ (0xe000 ≤ imm_bits inst))
unfolding idisp
idisp-exact inst = ground (arith, sign_ex-eq (shl (ioffset inst) 2) (omega arith))
