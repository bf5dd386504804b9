-- ===== src/Assembler/Expr.antt =====
-- CPU/inst.cpp: immediate expressions and address expressions.
pub mod Parts
use spim_curses.Base.{
  ℕ, zero, suc, ◌+◌, ◌-◌, ◌*◌, ◌/◌, ◌%◌, ◌^◌, ◌≤◌, ◌<◌, min, max, ◌≡◌, ◌≢◌, ◌↔◌, refl, sym, ◌∙◌, ap,
  arith, Bool, true, false, ◌||◌, ◌&&◌, not, ltb, leb, ◌==◌, if◌then◌else◌, bit_and, bit_or, bit,
  add32, sub32, mul32, neg32, not32, u32, shl, shr, asr, IsWord, is_negative, has, Option, none,
  some, List, [], ◌∷◌, update, ◌⊎◌, inl, inr, Bool-cases, signed, slt,
}
use spim_curses.Inst.Fields.{ImmExpr, Part}
use spim_curses.Symbols.Defs.{Name, Symbols, Label, lookup_label}
use spim_curses.Assembler.State.{A, ◌>>=◌, ◌>>◌, get, pure, symbol_op}

-- `IMM_MIN` and `IMM_MAX`
abbrev pub imm_min : ℕ
imm_min = 0xffff_8000

abbrev pub imm_max : ℕ
imm_max = 0x7fff

-- `REG_GP`
abbrev pub reg_gp : ℕ
reg_gp = 28

abbrev new_expr : ℕ → Option ℕ → Bool → ImmExpr
new_expr offs symbol is_pc_relative = record {
  offset = offs;
  symbol = symbol;
  bits = Part.whole;
  pc_relative = is_pc_relative;
}

-- `none` is the NULL pointer for a symbol.
unfoldable pub make_imm_expr : ℕ → Option Name → Bool → A ImmExpr
make_imm_expr offs none is_pc_relative = pure (new_expr offs none is_pc_relative)
make_imm_expr offs (some name) is_pc_relative = do
  l ← symbol_op (lookup_label name)
  pure (new_expr offs (some l) is_pc_relative)

unfoldable pub upper_bits_of_expr : ImmExpr → ImmExpr
upper_bits_of_expr old_expr = record old_expr { bits = Part.upper }

unfoldable pub lower_bits_of_expr : ImmExpr → ImmExpr
lower_bits_of_expr old_expr = record old_expr { bits = Part.lower }

unfoldable pub const_imm_expr : ℕ → ImmExpr
const_imm_expr value = new_expr value none false

unfoldable pub incr_expr_offset : ImmExpr → ℕ → ImmExpr
incr_expr_offset expr value = record expr { offset = add32 expr.offset value }

-- `SYMBOL_IS_DEFINED`
abbrev pub symbol_is_defined : Symbols → ℕ → Bool
symbol_is_defined s l = not ((s.label l).addr == 0)

-- The expression has no symbol, or one that is defined.
unfoldable pub is_known : Symbols → Option ℕ → Bool
is_known s none = true
is_known s (some l) = symbol_is_defined s l

abbrev pub select : Part → ℕ → ℕ
select Part.upper value = bit_and (asr value 16) 0xffff
select Part.lower value = bit_and value 0xffff
select Part.whole value = value

-- The sum; a symbol that is not defined gives 0.
unfoldable pub expr_sum : Symbols → ℕ → Option ℕ → ℕ
expr_sum s offset none = offset
expr_sum s offset (some l) = if symbol_is_defined s l then add32 offset ((s.label l).addr) else 0

unfoldable pub eval_imm_expr : Symbols → ImmExpr → ℕ
unfolding expr_sum
eval_imm_expr s expr = select expr.bits (expr_sum s expr.offset expr.symbol)

unfoldable pub is_zero_imm : ImmExpr → Bool
is_zero_imm expr = expr.offset == 0 && is_none expr.symbol
  where
    is_none : Option ℕ → Bool
    is_none none = true
    is_none (some l) = false

-- `addr_expr`
pub record AddrExpr : Type 0 where
  pub reg_no : ℕ
  pub imm : ImmExpr

-- The part of `make_addr_expr` for a symbol and no register.
unfoldable pub symbol_addr_expr : ℕ → Name → A AddrExpr
unfolding make_imm_expr
symbol_addr_expr offs sym = do
  l ← symbol_op (lookup_label sym)
  lab ← get (λ s. s.symbols.label l)
  midpoint ← get (λ s. s.gp_midpoint)
  if lab.gp_flag
      then (do
        imm ← make_imm_expr (sub32 (add32 offs lab.addr) midpoint) none false
        pure (record { reg_no = reg_gp; imm = imm }))
      else (do imm ← make_imm_expr offs (some sym) false; pure (record { reg_no = 0; imm = imm }))

unfoldable pub make_addr_expr : ℕ → Option Name → ℕ → A AddrExpr
unfolding symbol_addr_expr make_imm_expr
make_addr_expr offs (some sym) zero = symbol_addr_expr offs sym
make_addr_expr offs sym reg_no = do
  imm ← make_imm_expr offs sym false
  pure (record { reg_no = reg_no % 2 ^ 8; imm = imm })
