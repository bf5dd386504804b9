-- ===== src/Assembler/Immediate/Depth/Loads.antt =====
-- CPU/inst.cpp: the calls that `i_type_inst` makes for a load or store are flat.
use spim_curses.Base.{
  ℕ, ◌+◌, ◌/◌, ◌^◌, ◌≤◌, ◌<◌, ◌≡◌, refl, sym, arith, true, false, ◌&&◌, not, ◌==◌, if◌then◌else◌,
  bit_and, asr, IsWord, has, Option, none, some, ◌⊎◌,
}
use mathlib.Core.Path.{ap₂}
use spim_curses.Base.Fields.{bit_and_low, bit_and_high}
use spim_curses.Inst.Op.{Op}
use spim_curses.Inst.Fields.{ImmExpr, Part}
use spim_curses.Symbols.Defs.{Symbols}
use spim_curses.Assembler.State.{A, ◌>>◌}
use spim_curses.Assembler.Expr.{const_imm_expr, lower_bits_of_expr}
use spim_curses.Assembler.Opcodes.{opcode_is_branch, opcode_is_load_store, sign_extends}
use spim_curses.Assembler.Immediate.{
  full_load_store, known_load_store, add_base, too_wide, gp_offset,
}
use spim_curses.Assembler.Immediate.Depth.{Agree, lower-IsFlat, const-IsFlat, lui-agree}

pub load_class : (op : Op) → opcode_is_load_store op ≡ true → sign_extends op ≡ false
unfolding opcode_is_load_store sign_extends
load_class Op.addi h = sym h
load_class Op.addiu h = sym h
load_class Op.slti h = sym h
load_class Op.sltiu h = sym h
load_class Op.teqi h = sym h
load_class Op.tgei h = sym h
load_class Op.tgeiu h = sym h
load_class Op.tlti h = sym h
load_class Op.tltiu h = sym h
load_class Op.tnei h = sym h
load_class _ h = refl

pub branch_class : (op : Op) → opcode_is_branch op ≡ true → sign_extends op ≡ false
unfolding opcode_is_branch sign_extends
branch_class Op.addi h = sym h
branch_class Op.addiu h = sym h
branch_class Op.slti h = sym h
branch_class Op.sltiu h = sym h
branch_class Op.teqi h = sym h
branch_class Op.tgei h = sym h
branch_class Op.tgeiu h = sym h
branch_class Op.tlti h = sym h
branch_class Op.tltiu h = sym h
branch_class Op.tnei h = sym h
branch_class _ h = refl

-- The offset that the pieces of a value leave to the load.
abbrev low_of : ℕ → ℕ
low_of v = bit_and v 0xffff

abbrev high_of : ℕ → ℕ
high_of v = bit_and (asr v 16) 0xffff

-- The value needs an upper half.
abbrev pub NeedsUpper : ℕ → Type 0
NeedsUpper v =
    (not (high_of v == 0 && not (has (low_of v) 0x8000))
      && not (high_of v == 0xffff && has (low_of v) 0x8000))
    ≡ true

pub small_fits : (x : ℕ) → x < 2 ^ 16 → not (bit_and x 0xffff_0000 == 0) ≡ false
small_fits x h = ground (arith, bit_and_high 16 x 0xffff, bit_and_low 16 (x / 2 ^ 16))

lui_fits :
    (v : ℕ)
    → NeedsUpper v
    → too_wide Op.lui Part.whole (if has (low_of v) 0x8000 then high_of v + 1 else high_of v)
      ≡ false
unfolding too_wide sign_extends opcode_is_load_store
lui_fits v h =
    small_fits (if has (low_of v) 0x8000 then high_of v + 1 else high_of v)
      (ground (arith, h, bit_and_low 16 (asr v 16)))

-- The range of a signed field.
abbrev InField : ℕ → Type 0
InField v = (v < 0x8000) ⊎ (0xffff_8000 ≤ v) × IsWord v

gp_range :
    (s : Symbols) (expr : ImmExpr) (symbol : Option ℕ) (rs offset : ℕ)
    → gp_offset s (record expr { symbol = symbol }) rs ≡ some offset
    → InField offset
unfolding gp_offset
gp_range s expr none rs offset e = absurd (ground (arith, e))
gp_range s expr (some l) rs offset e = ground (arith, e)

pub field_fits :
    (v : ℕ)
    → InField v
    → (not (bit_and v 0xffff_8000 == 0) && not (bit_and v 0xffff_8000 == 0xffff_8000)) ≡ false
field_fits v h = ground (arith, h, bit_and_high 15 v 0x1_ffff, bit_and_low 17 (v / 2 ^ 15))

-- The offset from the global pointer fits the field of a load or store.
pub gp_fits :
    (s : Symbols) (op : Op) (expr : ImmExpr) (rs offset : ℕ)
    → opcode_is_load_store op ≡ true
    → gp_offset s expr rs ≡ some offset
    → too_wide op Part.whole offset ≡ false
unfolding too_wide
gp_fits s op expr rs offset load e =
    rw (load, load_class op load) (field_fits offset (gp_range s expr expr.symbol rs offset e))

-- A load or store whose value is not known, or needs an upper half.
abbrev pub IsReady : Option ℕ → Type 0
IsReady none = Unit
IsReady (some v) = NeedsUpper v

module _ (i_type i_type' : Op → ℕ → ℕ → ImmExpr → A (Unit {0})) (agree : Agree i_type i_type') where
  known_load_store-agree :
      (op : Op) (rt rs v : ℕ)
      → opcode_is_load_store op ≡ true
      → NeedsUpper v
      → known_load_store i_type op rt rs v ≡ known_load_store i_type' op rt rs v
  unfolding known_load_store add_base Agree
  known_load_store-agree op rt rs v load h =
      let low = lower-IsFlat op (const_imm_expr (low_of v)) (load_class op load) in
      let high =
        const-IsFlat Op.lui (if has (low_of v) 0x8000 then high_of v + 1 else high_of v)
          (lui_fits v h) in
      rw h (
        ap₂ (λ (x y : A (Unit {0})). x >> (add_base i_type rs >> y))
          (agree Op.lui 1 0
            (const_imm_expr (if has (low_of v) 0x8000 then high_of v + 1 else high_of v)) high)
          (agree op rt 1 (lower_bits_of_expr (const_imm_expr (low_of v))) low))

  full_load_store-agree :
      (op : Op) (rt rs : ℕ) (expr : ImmExpr)
      → opcode_is_load_store op ≡ true
      → full_load_store i_type op rt rs expr none ≡ full_load_store i_type' op rt rs expr none
  unfolding full_load_store add_base Agree
  full_load_store-agree op rt rs expr load =
      ap₂ (λ (x y : A (Unit {0})). x >> (add_base i_type rs >> y))
        (lui-agree i_type i_type' agree 1 0 expr)
        (agree op rt 1 (lower_bits_of_expr expr) (lower-IsFlat op expr (load_class op load)))

  pub load_store-agree :
      (op : Op) (rt rs : ℕ) (expr : ImmExpr) (value : Option ℕ)
      → opcode_is_load_store op ≡ true
      → IsReady value
      → full_load_store i_type op rt rs expr value ≡ full_load_store i_type' op rt rs expr value
  unfolding full_load_store
  load_store-agree op rt rs expr none load r = full_load_store-agree op rt rs expr load
  load_store-agree op rt rs expr (some v) load r = known_load_store-agree op rt rs v load r
