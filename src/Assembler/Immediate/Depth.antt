-- ===== src/Assembler/Immediate/Depth.antt =====
-- CPU/inst.cpp: how deep the calls of `i_type_inst` are nested.
pub mod Loads
pub mod Enough
use spim_curses.Base.{
  ℕ, zero, suc, ◌+◌, ◌-◌, ◌*◌, ◌/◌, ◌%◌, ◌^◌, ◌≤◌, ◌<◌, min, max, ◌≡◌, ◌≢◌, ◌↔◌, refl, sym, ◌∙◌, ap,
  arith, Bool, true, false, ◌||◌, ◌&&◌, not, ltb, leb, ◌==◌, if◌then◌else◌, bit_and, bit_or, bit,
  add32, sub32, mul32, neg32, not32, u32, shl, shr, asr, IsWord, is_negative, has, Option, none,
  some, List, [], ◌∷◌, update, ◌⊎◌, inl, inr, Bool-cases, signed, slt,
}
use mathlib.Core.Path.{ap₂}
use spim_curses.Base.Fields.{bit_and_low, bit_and_high}
use spim_curses.Base.{contradiction, fun_ext}
use spim_curses.Inst.Op.{Op}
use spim_curses.Inst.Fields.{ImmExpr, Part}
use spim_curses.Symbols.Defs.{Symbols}
use spim_curses.Assembler.State.{Assembler, A, Result, ok, endless, bind, ◌>>◌}
use spim_curses.Assembler.Expr.{
  const_imm_expr, eval_imm_expr, is_known, upper_bits_of_expr, lower_bits_of_expr, expr_sum, reg_gp,
  select,
}
use spim_curses.Assembler.Opcodes.{
  opcode_is_branch, opcode_is_load_store, sign_extends, imm_op_to_op, builds_in_place, is_lui,
}
use spim_curses.Assembler.Build.{new_number, r_type_inst, resolve_or_record}
use spim_curses.Assembler.Immediate.{
  i_type_body, i_type_inst_full_word, full_compute, full_load_store, known_load_store, add_base,
  produce_immediate, too_wide, gp_offset, wants_all, i_inst,
}

-- An expression that `i_type_inst` takes as it is, whatever the symbols are.
pub record IsFlat (op : Op) (expr : ImmExpr) : Type 0 where
  pub fits : (s : Symbols) → too_wide op expr.bits (eval_imm_expr s expr) ≡ false
  pub settled : (s : Symbols) → (is_known s expr.symbol || not (wants_all expr.bits)) ≡ true

pick :
    (k b w a : Bool) (x y z : A (Unit {0}))
    → w ≡ false
    → (k || not a) ≡ true
    → (if k && (not b && w) then x else if k || (b || not a) then y else z) ≡ y
pick true true w a x y z fits settled = refl
pick true false w a x y z fits settled = rw fits refl
pick false b w true x y z fits settled = absurd (contradiction settled)
pick false true w false x y z fits settled = refl
pick false false w false x y z fits settled = refl

-- The step that a flat call is.
flat_step : Op → ℕ → ℕ → ImmExpr → A (Unit {0})
flat_step op rt rs expr s =
    resolve_or_record s.serial (i_inst op rt rs expr) expr (record s { serial = s.serial + 1 })

i_type_body-IsFlat :
    (i_type : Op → ℕ → ℕ → ImmExpr → A (Unit {0})) (op : Op) (rt rs : ℕ) (expr : ImmExpr)
    → IsFlat op expr
    → i_type_body i_type op rt rs expr ≡ flat_step op rt rs expr
unfolding i_type_body new_number flat_step
i_type_body-IsFlat i_type op rt rs expr flat = fun_ext (λ s.
    ap (λ (f : A (Unit {0})). f (record s { serial = s.serial + 1 }))
      (pick (is_known s.symbols expr.symbol) s.machine.settings.bare_machine
        (too_wide op expr.bits (eval_imm_expr s.symbols expr)) (wants_all expr.bits)
        (i_type_inst_full_word i_type op rt rs expr (some (eval_imm_expr s.symbols expr)))
        (resolve_or_record s.serial (i_inst op rt rs expr) expr)
        (i_type_inst_full_word i_type op rt rs expr none) (flat.fits s.symbols)
        (flat.settled s.symbols)))

-- Two ways to go on that do the same to flat calls.
unfoldable pub Agree :
    (Op → ℕ → ℕ → ImmExpr → A (Unit {0})) → (Op → ℕ → ℕ → ImmExpr → A (Unit {0})) → Type 0
Agree i_type i_type' =
    (op : Op) (rt rs : ℕ) (expr : ImmExpr)
    → IsFlat op expr
    → i_type op rt rs expr ≡ i_type' op rt rs expr

pub i_type_body-Agree :
    (i_type i_type' : Op → ℕ → ℕ → ImmExpr → A (Unit {0}))
    → Agree (i_type_body i_type) (i_type_body i_type')
unfolding Agree
i_type_body-Agree i_type i_type' op rt rs expr flat =
    i_type_body-IsFlat i_type op rt rs expr flat
    ∙ sym (i_type_body-IsFlat i_type' op rt rs expr flat)

and_false : (b : Bool) → (b && false) ≡ false
and_false true = refl
and_false false = refl

or_true : (b : Bool) → (b || true) ≡ true
or_true true = refl
or_true false = refl

-- Sixteen bits of a value fit.
upper_fits :
    (op : Op) (v : ℕ) → sign_extends op ≡ false → too_wide op Part.upper (bit_and v 0xffff) ≡ false
unfolding too_wide
upper_fits op v h =
    rw (h, and_false (opcode_is_load_store op))
      (ground (
        arith,
        bit_and_low 16 v,
        bit_and_high 16 (bit_and v 0xffff) 0xffff,
        bit_and_low 16 (bit_and v 0xffff / 2 ^ 16),
      ))

lower_fits :
    (op : Op) (v : ℕ) → sign_extends op ≡ false → too_wide op Part.lower (bit_and v 0xffff) ≡ false
unfolding too_wide
lower_fits op v h =
    rw (h, and_false (opcode_is_load_store op))
      (ground (
        arith,
        bit_and_low 16 v,
        bit_and_high 16 (bit_and v 0xffff) 0xffff,
        bit_and_low 16 (bit_and v 0xffff / 2 ^ 16),
      ))

upper-IsFlat :
    (op : Op) (expr : ImmExpr) → sign_extends op ≡ false → IsFlat op (upper_bits_of_expr expr)
unfolding upper_bits_of_expr eval_imm_expr
upper-IsFlat op expr h = record {
  fits = λ s. upper_fits op (asr (expr_sum s expr.offset expr.symbol) 16) h;
  settled = λ s. or_true (is_known s expr.symbol);
}

pub lower-IsFlat :
    (op : Op) (expr : ImmExpr) → sign_extends op ≡ false → IsFlat op (lower_bits_of_expr expr)
unfolding lower_bits_of_expr eval_imm_expr
lower-IsFlat op expr h = record {
  fits = λ s. lower_fits op (expr_sum s expr.offset expr.symbol) h;
  settled = λ s. or_true (is_known s expr.symbol);
}

pub const-IsFlat :
    (op : Op) (v : ℕ) → too_wide op Part.whole v ≡ false → IsFlat op (const_imm_expr v)
unfolding const_imm_expr eval_imm_expr expr_sum is_known
const-IsFlat op v h = record { fits = λ s. h; settled = λ s. refl }

lui_class : sign_extends Op.lui ≡ false
unfolding sign_extends
lui_class = refl

ori_class : sign_extends Op.ori ≡ false
unfolding sign_extends
ori_class = refl

module _ (i_type i_type' : Op → ℕ → ℕ → ImmExpr → A (Unit {0})) (agree : Agree i_type i_type') where
  pub lui-agree :
      (rt rs : ℕ) (expr : ImmExpr)
      → i_type Op.lui rt rs (upper_bits_of_expr expr)
        ≡ i_type' Op.lui rt rs (upper_bits_of_expr expr)
  unfolding Agree
  lui-agree rt rs expr =
      agree Op.lui rt rs (upper_bits_of_expr expr) (upper-IsFlat Op.lui expr lui_class)

  ori-agree :
      (rt rs : ℕ) (expr : ImmExpr)
      → i_type Op.ori rt rs (lower_bits_of_expr expr)
        ≡ i_type' Op.ori rt rs (lower_bits_of_expr expr)
  unfolding Agree
  ori-agree rt rs expr =
      agree Op.ori rt rs (lower_bits_of_expr expr) (lower-IsFlat Op.ori expr ori_class)

  produce_immediate-agree :
      (expr : ImmExpr) (rt : ℕ) (value : Option ℕ)
      → produce_immediate i_type expr rt value ≡ produce_immediate i_type' expr rt value
  unfolding produce_immediate
  produce_immediate-agree expr rt none =
      ap₂ (λ (x y : A (Unit {0})). x >> y) (lui-agree 1 0 expr) (ori-agree rt 1 expr)
  produce_immediate-agree expr rt (some v) =
      rw (lui-agree rt 0 expr, ori-agree rt 0 expr, lui-agree 1 0 expr, ori-agree rt 1 expr) refl

  pub full_compute-agree :
      (op : Op) (rt rs : ℕ) (expr : ImmExpr) (value : Option ℕ)
      → full_compute i_type op rt rs expr value ≡ full_compute i_type' op rt rs expr value
  unfolding full_compute
  full_compute-agree op rt rs expr value =
      rw (produce_immediate-agree expr rt value, produce_immediate-agree expr 1 value) refl
