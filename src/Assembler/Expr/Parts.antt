-- ===== src/Assembler/Expr/Parts.antt =====
-- CPU/inst.cpp: the upper and the lower half of an expression's value.
use spim_curses.Base.{
  ℕ, ◌*◌, ◌/◌, ◌%◌, ◌^◌, ◌≡◌, refl, ◌∙◌, ap, arith, Bool, true, false, not, ◌==◌, if◌then◌else◌,
  bit_or, add32, shl, asr, IsWord, has, Option, none, some, inl, inr, Bool-cases,
}
use mathlib.Core.Path.{ap₂}
use spim_curses.Base.{sext16}
use spim_curses.Base.Fields.{bit_and_low, bit_and_high, bit_or_field}
use spim_curses.Inst.Fields.{ImmExpr, Part}
use spim_curses.Symbols.Defs.{Symbols}
use spim_curses.Assembler.Expr.{
  upper_bits_of_expr, lower_bits_of_expr, incr_expr_offset, expr_sum, eval_imm_expr, select,
}

-- The expression without a choice of bits.
abbrev pub whole_of : ImmExpr → ImmExpr
whole_of expr = record expr { bits = Part.whole }

-- The addresses of the labels are words.
abbrev pub HasWords : Symbols → Type 0
HasWords s = (l : ℕ) → IsWord ((s.label l).addr)

upper_half : (v : ℕ) → IsWord v → select Part.upper v ≡ v / 2 ^ 16
upper_half v h = ground (arith, bit_and_low 16 (asr v 16))

lower_half : (v : ℕ) → select Part.lower v ≡ v % 2 ^ 16
lower_half v = bit_and_low 16 v

bit_15 : (v : ℕ) → has v 0x8000 ≡ not (v / 2 ^ 15 % 2 == 0)
bit_15 v = ground (arith, bit_and_high 15 v 1, bit_and_low 1 (v / 2 ^ 15))

joined : (v : ℕ) → IsWord v → bit_or (shl (select Part.upper v) 16) (select Part.lower v) ≡ v
joined v h =
    let high : ℕ = v / 2 ^ 16 * 2 ^ 16 in
    ap₂ bit_or (omega (arith, upper_half v h)) (omega (arith, lower_half v))
    ∙ bit_or_field 0 16 high (v % 2 ^ 16) (omega arith) (omega arith)
    ∙ omega (arith, h)

-- What is taken away by the sign of the lower half is added to the upper half.
carried :
    (v : ℕ)
    → IsWord v
    → add32
        (shl (select Part.upper (if has v 0x8000 then add32 v 0x1_0000 else v)) 16)
        (sext16 (select Part.lower v))
      ≡ v
carried v h = elim (Bool-cases (has v 0x8000)) [
  | inl e ↦
      rw (e, lower_half v, upper_half (add32 v 0x1_0000) (omega arith))
        (ground (arith, h, e, bit_15 v))
  | inr e ↦ rw (e, lower_half v, upper_half v h) (ground (arith, h, e, bit_15 v))
]

pub expr_sum-IsWord :
    (s : Symbols) (offset : ℕ) (symbol : Option ℕ)
    → IsWord offset
    → IsWord (expr_sum s offset symbol)
unfolding expr_sum
expr_sum-IsWord s offset none h = h
expr_sum-IsWord s offset (some l) h = ground arith

expr_sum-raised :
    (s : Symbols) (offset : ℕ) (symbol : Option ℕ)
    → has (expr_sum s offset symbol) 0x8000 ≡ true
    → expr_sum s (add32 offset 0x1_0000) symbol ≡ add32 (expr_sum s offset symbol) 0x1_0000
unfolding expr_sum
expr_sum-raised s offset none h = refl
expr_sum-raised s offset (some l) h = elim (Bool-cases ((s.label l).addr == 0)) [
  | inl e ↦ absurd (ground (arith, h, e, bit_and_high 15 0 1))
  | inr e ↦ rw e (omega arith)
]

expr_sum-chosen :
    (s : Symbols) (expr : ImmExpr) (b : Bool)
    → has (expr_sum s expr.offset expr.symbol) 0x8000 ≡ b
    → expr_sum s
        ((if b then incr_expr_offset expr 0x1_0000 else expr).offset)
        ((if b then incr_expr_offset expr 0x1_0000 else expr).symbol)
      ≡ (if b
          then add32 (expr_sum s expr.offset expr.symbol) 0x1_0000
          else expr_sum s expr.offset expr.symbol)
unfolding incr_expr_offset
expr_sum-chosen s expr true h = expr_sum-raised s expr.offset expr.symbol h
expr_sum-chosen s expr false h = refl

-- For an expression whose offset is a word, the upper half shifted and joined by `|` with the
-- lower half is its value, and so is the sum of the upper half shifted and the sign-extended lower
-- half, where the offset was raised by 0x10000 for the upper half if bit 15 of the value is set.
pub eval_imm_expr-halves :
    (s : Symbols) (expr : ImmExpr)
    → IsWord expr.offset
    → (bit_or
          (shl (eval_imm_expr s (upper_bits_of_expr expr)) 16)
          (eval_imm_expr s (lower_bits_of_expr expr))
        ≡ eval_imm_expr s (whole_of expr))
      × (add32
            (shl
              (eval_imm_expr s (
                upper_bits_of_expr (
                  if has (eval_imm_expr s (whole_of expr)) 0x8000
                  then incr_expr_offset expr 0x1_0000
                  else expr)))
              16)
            (sext16 (eval_imm_expr s (lower_bits_of_expr expr)))
          ≡ eval_imm_expr s (whole_of expr))
unfolding eval_imm_expr upper_bits_of_expr lower_bits_of_expr incr_expr_offset
eval_imm_expr-halves s expr h =
    let v : ℕ = expr_sum s expr.offset expr.symbol in
    let word : IsWord v = expr_sum-IsWord s expr.offset expr.symbol h in
    (
      joined v word,
      ap (λ x. add32 (shl (select Part.upper x) 16) (sext16 (select Part.lower v)))
            (expr_sum-chosen s expr (has v 0x8000) refl)
          ∙ carried v word,
    )
