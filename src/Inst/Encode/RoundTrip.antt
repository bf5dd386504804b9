-- ===== src/Inst/Encode/RoundTrip.antt =====
-- CPU/inst.cpp: `inst_decode` after `inst_encode`, format by format.
use spim_curses.Base.{
  ℕ, ◌+◌, ◌*◌, ◌/◌, ◌%◌, ◌^◌, ◌<◌, ◌≡◌, refl, ◌∙◌, ap, arith, bit_and, bit_or, shr, IsWord, none,
  some,
}
use spim_curses.Base.Fields.{bit_and_low, bit_or_field}
use spim_curses.Inst.Op.{Op, Format}
use spim_curses.Inst.Fields.{Instruction, rs, rt, rd, imm}
use spim_curses.Inst.Encode.{encode_format, regs}
use spim_curses.Inst.Decode.{decode_format, mk_i_inst, mk_r_inst, bin_rs, bin_rt, bin_rd}

regs-eq : (r o : ℕ) → r < 32 → regs r o ≡ r * 2 ^ o
regs-eq r o h = ap (λ t. t * 2 ^ o) (bit_and_low 5 r ∙ omega arith)

-- The field of five bits from `o` on.
bin_reg-eq : (v o : ℕ) → bit_and (shr v o) 0x1f ≡ v / 2 ^ o % 2 ^ 5
bin_reg-eq v o = bit_and_low 5 (v / 2 ^ o)

-- The two registers and the immediate below an opcode.
or_i_fields :
    (a s t i : ℕ)
    → a % 2 ^ 26 ≡ 0
    → s < 32
    → t < 32
    → bit_or (bit_or (bit_or a (regs s 21)) (regs t 16)) (bit_and i 0xffff)
      ≡ a + s * 2 ^ 21 + t * 2 ^ 16 + i % 2 ^ 16
or_i_fields a s t i h p q =
    ap (λ x. bit_or (bit_or (bit_or a x) (regs t 16)) (bit_and i 0xffff)) (regs-eq s 21 p)
    ∙ ap (λ x. bit_or (bit_or x (regs t 16)) (bit_and i 0xffff))
        (bit_or_field 21 5 a s p (omega (arith, h)))
    ∙ ap (λ x. bit_or (bit_or (a + s * 2 ^ 21) x) (bit_and i 0xffff)) (regs-eq t 16 q)
    ∙ ap (λ x. bit_or x (bit_and i 0xffff))
        (bit_or_field 16 5 (a + s * 2 ^ 21) t q (omega (arith, h)))
    ∙ ap (bit_or (a + s * 2 ^ 21 + t * 2 ^ 16)) {x = bit_and i 0xffff} {y = i % 2 ^ 16 * 2 ^ 0}
        (omega (arith, bit_and_low 16 i))
    ∙ bit_or_field 0 16 (a + s * 2 ^ 21 + t * 2 ^ 16) (i % 2 ^ 16) (omega arith) (omega (arith, h))
    ∙ omega arith

or_r_fields :
    (a s t d : ℕ)
    → a / 2 ^ 11 % 2 ^ 15 ≡ 0
    → s < 32
    → t < 32
    → d < 32
    → bit_or (bit_or (bit_or a (regs s 21)) (regs t 16)) (regs d 11)
      ≡ a + s * 2 ^ 21 + t * 2 ^ 16 + d * 2 ^ 11
or_r_fields a s t d h p q r =
    ap (λ x. bit_or (bit_or (bit_or a x) (regs t 16)) (regs d 11)) (regs-eq s 21 p)
    ∙ ap (λ x. bit_or (bit_or x (regs t 16)) (regs d 11))
        (bit_or_field 21 5 a s p (omega (arith, h)))
    ∙ ap (λ x. bit_or (bit_or (a + s * 2 ^ 21) x) (regs d 11)) (regs-eq t 16 q)
    ∙ ap (λ x. bit_or x (regs d 11)) (bit_or_field 16 5 (a + s * 2 ^ 21) t q (omega (arith, h)))
    ∙ ap (bit_or (a + s * 2 ^ 21 + t * 2 ^ 16)) (regs-eq d 11 r)
    ∙ bit_or_field 11 5 (a + s * 2 ^ 21 + t * 2 ^ 16) d r (omega (arith, h))

imm_low : (inst : Instruction) → imm inst % 2 ^ 16 ≡ inst.r_t / 2 ^ 16 % 2 ^ 16
imm_low inst = ground arith

-- An instruction with two registers and an immediate, or with three registers.
abbrev pub i_type : Op → ℕ → ℕ → ℕ → Instruction
i_type op s t i = record {
  opcode = op;
  r_t = s + t * 2 ^ 8 + i * 2 ^ 16;
  encoding = 0;
  expr = none;
}

abbrev pub r_type : Op → ℕ → ℕ → ℕ → Instruction
r_type op s t d = record {
  opcode = op;
  r_t = s + t * 2 ^ 8 + d * 2 ^ 16;
  encoding = 0;
  expr = none;
}

abbrev inst_of : Op → ℕ → ℕ → Instruction
inst_of op r_t e = record { opcode = op; r_t = r_t; encoding = e; expr = none }

inst_eq :
    (op : Op) {r_t r_t' e e' : ℕ} → r_t ≡ r_t' → e ≡ e' → inst_of op r_t e ≡ inst_of op r_t' e'
inst_eq op {r_t} {r_t'} {e} {e'} h p = ap (λ r. inst_of op r e) h ∙ ap (inst_of op r_t') p

mk_i_inst-eq :
    (val : ℕ) (op : Op) (s t i : ℕ)
    → IsWord val
    → s < 32
    → t < 32
    → mk_i_inst val op s t i ≡ record (i_type op s t (i % 2 ^ 16)) { encoding = val }
unfolding mk_i_inst
mk_i_inst-eq val op s t i w p q = inst_eq op (omega arith) (omega arith)

mk_r_inst-eq :
    (val : ℕ) (op : Op) (s t d : ℕ)
    → IsWord val
    → s < 32
    → t < 32
    → d < 32
    → mk_r_inst val op s t d 0 ≡ record (r_type op s t d) { encoding = val }
unfolding mk_r_inst
mk_r_inst-eq val op s t d w p q r = inst_eq op (omega arith) (omega arith)

-- An instruction with two registers and an immediate is decoded to what was encoded.
pub decode_format-i2 :
    (op : Op) (a s t i : ℕ)
    → IsWord a
    → a % 2 ^ 26 ≡ 0
    → s < 32
    → t < 32
    → i < 2 ^ 16
    → (w : ℕ) × (w ≡ a + (s * 2 ^ 21 + t * 2 ^ 16 + i))
      × (encode_format Format.i2 a (i_type op s t i) ≡ some w)
      × (decode_format Format.i2 op w ≡ record (i_type op s t i) { encoding = w })
unfolding encode_format decode_format
decode_format-i2 op a s t i wa h p q r = (
  w,
  omega arith,
  ap some (
      ap
        (λ x.
          bit_or (bit_or (bit_or a (regs x 21)) (regs (rt inst) 16)) (bit_and (imm inst) 0xffff))
        {x = rs inst} {y = s} (omega arith)
      ∙ ap (λ x. bit_or (bit_or (bit_or a (regs s 21)) (regs x 16)) (bit_and (imm inst) 0xffff))
          {x = rt inst} {y = t} (omega arith)
      ∙ or_i_fields a s t (imm inst) h p q
      ∙ omega (arith, imm_low inst)),
  ap (λ x. mk_i_inst w op x (bin_rt w) (bit_and w 0xffff)) {x = bin_rs w} {y = s}
        (bin_reg-eq w 21 ∙ omega (arith, h))
      ∙ ap (λ x. mk_i_inst w op s x (bit_and w 0xffff)) {x = bin_rt w} {y = t}
          (bin_reg-eq w 16 ∙ omega (arith, h))
      ∙ mk_i_inst-eq w op s t (bit_and w 0xffff) (omega (arith, h)) p q
      ∙ inst_eq op (omega (arith, bit_and_low 16 w, h)) refl,
)
  where
    inst : Instruction
    inst = i_type op s t i

    w : ℕ
    w = a + s * 2 ^ 21 + t * 2 ^ 16 + i

-- For the format of three registers and an encoding that is clear in their fields, the decoding of
-- the encoded word is the instruction, with its encoding set.
pub decode_format-r3 :
    (op : Op) (a s t d : ℕ)
    → IsWord a
    → a / 2 ^ 11 % 2 ^ 15 ≡ 0
    → s < 32
    → t < 32
    → d < 32
    → (w : ℕ) × (encode_format Format.r3 a (r_type op s t d) ≡ some w)
      × (decode_format Format.r3 op w ≡ record (r_type op s t d) { encoding = w })
unfolding encode_format decode_format
decode_format-r3 op a s t d wa h p q r = (
  w,
  ap some (
      ap (λ x. bit_or (bit_or (bit_or a (regs x 21)) (regs (rt inst) 16)) (regs (rd inst) 11))
        {x = rs inst} {y = s} (omega arith)
      ∙ ap (λ x. bit_or (bit_or (bit_or a (regs s 21)) (regs x 16)) (regs (rd inst) 11))
          {x = rt inst} {y = t} (omega arith)
      ∙ ap (λ x. bit_or (bit_or (bit_or a (regs s 21)) (regs t 16)) (regs x 11)) {x = rd inst}
          {y = d} (omega arith)
      ∙ or_r_fields a s t d h p q r),
  ap (λ x. mk_r_inst w op x (bin_rt w) (bin_rd w) 0) {x = bin_rs w} {y = s}
        (bin_reg-eq w 21 ∙ omega (arith, h))
      ∙ ap (λ x. mk_r_inst w op s x (bin_rd w) 0) {x = bin_rt w} {y = t}
          (bin_reg-eq w 16 ∙ omega (arith, h))
      ∙ ap (λ x. mk_r_inst w op s t x 0) {x = bin_rd w} {y = d} (bin_reg-eq w 11 ∙ omega (arith, h))
      ∙ mk_r_inst-eq w op s t d (omega (arith, h)) p q r,
)
  where
    inst : Instruction
    inst = r_type op s t d

    w : ℕ
    w = a + s * 2 ^ 21 + t * 2 ^ 16 + d * 2 ^ 11
