-- ===== src/Assembler/Immediate/Depth/Enough.antt =====
-- CPU/inst.cpp: three levels of calls of `i_type_inst` are enough.
use spim_curses.Base.{
  ℕ, ◌+◌, ◌/◌, ◌^◌, ◌≡◌, refl, sym, ◌∙◌, ap, arith, Bool, true, false, ◌||◌, ◌&&◌, not, ◌==◌,
  if◌then◌else◌, bit_and, asr, IsWord, Option, none, some,
}
use spim_curses.Base.Fields.{bit_and_low, bit_and_high}
use spim_curses.Base.{contradiction, fun_ext}
use spim_curses.Inst.Op.{Op}
use spim_curses.Inst.Fields.{ImmExpr, Part}
use spim_curses.Symbols.Defs.{Symbols}
use spim_curses.Assembler.State.{Assembler, A, Result}
use spim_curses.Assembler.Expr.{
  const_imm_expr, eval_imm_expr, is_known, lower_bits_of_expr, expr_sum, reg_gp, select,
}
use spim_curses.Assembler.Opcodes.{opcode_is_branch, opcode_is_load_store, is_lui}
use spim_curses.Assembler.Build.{new_number, resolve_or_record}
use spim_curses.Assembler.Immediate.{
  i_type_body, i_type_inst, i_type_inst_full_word, full_compute, full_load_store, too_wide,
  gp_offset, wants_all, i_inst,
}
use spim_curses.Assembler.Immediate.Depth.{
  Agree, i_type_body-Agree, lower-IsFlat, const-IsFlat, full_compute-agree,
}
use spim_curses.Assembler.Expr.Parts.{expr_sum-IsWord}
use spim_curses.Assembler.Immediate.Depth.Loads.{
  branch_class, gp_fits, load_store-agree, load_class, IsReady, NeedsUpper, small_fits,
}

-- A branch of a conditional that is not taken does not matter.
chosen :
    {X : Type 0} (c d : Bool) (x x' y z z' : X)
    → (c ≡ true → x ≡ x')
    → z ≡ z'
    → (if c then x else if d then y else z) ≡ (if c then x' else if d then y else z')
chosen true d x x' y z z' h k = h refl
chosen false true x x' y z z' h k = refl
chosen false false x x' y z z' h k = k

wide_whole :
    (op : Op) (v : ℕ)
    → opcode_is_load_store op ≡ true
    → IsWord v
    → too_wide op Part.whole v ≡ true
    → NeedsUpper v
unfolding too_wide
wide_whole op v load word h =
    let wide : (not (bit_and v 0xffff_8000 == 0) && not (bit_and v 0xffff_8000 == 0xffff_8000))
        ≡ true =
      rw (load, load_class op load) at h in
    ground (
      arith,
      wide,
      word,
      bit_and_high 15 v 0x1_ffff,
      bit_and_low 17 (v / 2 ^ 15),
      bit_and_low 16 (asr v 16),
      bit_and_low 16 v,
      bit_and_high 15 (bit_and v 0xffff) 1,
      bit_and_low 1 (bit_and v 0xffff / 2 ^ 15),
    )

-- Half of a value is never too wide for a load.
upper_not_wide :
    (op : Op) (v : ℕ)
    → opcode_is_load_store op ≡ true
    → too_wide op Part.upper (bit_and v 0xffff) ≡ true
    → ⊥
unfolding too_wide
upper_not_wide op v load h =
    let wide : not (bit_and (bit_and v 0xffff) 0xffff_0000 == 0) ≡ true =
      rw (load, load_class op load) at h in
    contradiction (sym (small_fits (bit_and v 0xffff) (omega (arith, bit_and_low 16 v))) ∙ wide)

lower_not_wide :
    (op : Op) (v : ℕ)
    → opcode_is_load_store op ≡ true
    → too_wide op Part.lower (bit_and v 0xffff) ≡ true
    → ⊥
unfolding too_wide
lower_not_wide op v load h =
    let wide : not (bit_and (bit_and v 0xffff) 0xffff_0000 == 0) ≡ true =
      rw (load, load_class op load) at h in
    contradiction (sym (small_fits (bit_and v 0xffff) (omega (arith, bit_and_low 16 v))) ∙ wide)

-- The value is too wide for the field of a load, and so needs an upper half.
wide_NeedsUpper :
    (op : Op) (bits : Part) (v : ℕ)
    → opcode_is_load_store op ≡ true
    → IsWord v
    → too_wide op bits (select bits v) ≡ true
    → NeedsUpper (select bits v)
wide_NeedsUpper op Part.whole v load word h = wide_whole op v load word h
wide_NeedsUpper op Part.upper v load word h = absurd (upper_not_wide op (asr v 16) load h)
wide_NeedsUpper op Part.lower v load word h = absurd (lower_not_wide op v load h)

addiu_or :
    (op : Op) (f : Op → Bool)
    → f Op.addiu ≡ false
    → f op ≡ false
    → f (if is_lui op then Op.addiu else op) ≡ false
addiu_or op f h k = by_case (is_lui op)
  where
    by_case : (b : Bool) → f (if b then Op.addiu else op) ≡ false
    by_case true = h
    by_case false = k

addiu_load : opcode_is_load_store Op.addiu ≡ false
unfolding opcode_is_load_store
addiu_load = refl

addiu_branch : opcode_is_branch Op.addiu ≡ false
unfolding opcode_is_branch
addiu_branch = refl

module _ (i_type i_type' : Op → ℕ → ℕ → ImmExpr → A (Unit {0})) (agree : Agree i_type i_type') where
  -- One level, where the other calls are those of an offset from the global pointer.
  full_word-agree :
      (op : Op) (rt rs : ℕ) (expr : ImmExpr) (value : Option ℕ) (s : Assembler)
      → (opcode_is_load_store op ≡ true → IsReady value)
      → ((op' : Op) (offset : ℕ)
          → opcode_is_load_store op' ≡ false
          → opcode_is_branch op' ≡ false
          → i_type op' rt reg_gp (const_imm_expr offset)
            ≡ i_type' op' rt reg_gp (const_imm_expr offset))
      → i_type_inst_full_word i_type op rt rs expr value s
        ≡ i_type_inst_full_word i_type' op rt rs expr value s
  unfolding i_type_inst_full_word Agree
  full_word-agree op rt rs expr value s ready deep =
      by_class (opcode_is_load_store op) (opcode_is_branch op) (gp_offset s.symbols expr rs) refl
        refl refl
    where
      run : (Op → ℕ → ℕ → ImmExpr → A (Unit {0})) → Bool → Bool → Option ℕ → Result (Unit {0})
      run go load branch gp =
          (if load
              then elim gp [
                | some offset ↦ go op rt reg_gp (const_imm_expr offset)
                | none ↦ full_load_store go op rt rs expr value
              ]
              else if branch
              then go op rt rs (lower_bits_of_expr expr)
              else elim gp [
                | some offset ↦
                    go (if is_lui op then Op.addiu else op) rt reg_gp (const_imm_expr offset)
                | none ↦ full_compute go op rt rs expr value
              ])
            s

      by_class :
          (load branch : Bool) (gp : Option ℕ)
          → opcode_is_load_store op ≡ load
          → opcode_is_branch op ≡ branch
          → gp_offset s.symbols expr rs ≡ gp
          → run i_type load branch gp ≡ run i_type' load branch gp
      by_class true branch (some offset) l b g =
          ap (λ (f : A (Unit {0})). f s)
            (agree op rt reg_gp (const_imm_expr offset)
              (const-IsFlat op offset (gp_fits s.symbols op expr rs offset l g)))
      by_class true branch none l b g =
          ap (λ (f : A (Unit {0})). f s)
            (load_store-agree i_type i_type' agree op rt rs expr value l (ready l))
      by_class false true gp l b g =
          ap (λ (f : A (Unit {0})). f s)
            (agree op rt rs (lower_bits_of_expr expr) (lower-IsFlat op expr (branch_class op b)))
      by_class false false (some offset) l b g =
          ap (λ (f : A (Unit {0})). f s)
            (deep (if is_lui op then Op.addiu else op) offset
              (addiu_or op opcode_is_load_store addiu_load l)
              (addiu_or op opcode_is_branch addiu_branch b))
      by_class false false none l b g =
          ap (λ (f : A (Unit {0})). f s)
            (full_compute-agree i_type i_type' agree op rt rs expr value)

and_last : (a b c : Bool) → (a && (b && c)) ≡ true → c ≡ true
and_last true true c h = h
and_last true false c h = absurd (contradiction h)
and_last false b c h = absurd (contradiction h)

-- One level: the calls that it may make are the same.
level :
    (i_type i_type' : Op → ℕ → ℕ → ImmExpr → A (Unit {0})) (op : Op) (rt rs : ℕ) (expr : ImmExpr)
    → ((s : Symbols)
        → too_wide op expr.bits (eval_imm_expr s expr) ≡ true
        → i_type_inst_full_word i_type op rt rs expr (some (eval_imm_expr s expr))
          ≡ i_type_inst_full_word i_type' op rt rs expr (some (eval_imm_expr s expr)))
    → i_type_inst_full_word i_type op rt rs expr none
      ≡ i_type_inst_full_word i_type' op rt rs expr none
    → i_type_body i_type op rt rs expr ≡ i_type_body i_type' op rt rs expr
unfolding i_type_body new_number
level i_type i_type' op rt rs expr h k = fun_ext (λ s.
    let value = eval_imm_expr s.symbols expr in
    let known = is_known s.symbols expr.symbol in
    let bare = s.machine.settings.bare_machine in
    ap (λ (f : A (Unit {0})). f (record s { serial = s.serial + 1 }))
      (chosen (known && (not bare && too_wide op expr.bits value))
        (known || (bare || not (wants_all expr.bits)))
        (i_type_inst_full_word i_type op rt rs expr (some value))
        (i_type_inst_full_word i_type' op rt rs expr (some value))
        (resolve_or_record s.serial (i_inst op rt rs expr) expr)
        (i_type_inst_full_word i_type op rt rs expr none)
        (i_type_inst_full_word i_type' op rt rs expr none)
        (λ c. h s.symbols (and_last known (not bare) (too_wide op expr.bits value) c)) k))

-- A constant has no symbol, and a computation on it makes flat calls only.
full_word-const :
    (i_type i_type' : Op → ℕ → ℕ → ImmExpr → A (Unit {0})) (op : Op) (rt rs v : ℕ)
    (value : Option ℕ)
    → opcode_is_load_store op ≡ false
    → opcode_is_branch op ≡ false
    → i_type_inst_full_word (i_type_body i_type) op rt rs (const_imm_expr v) value
      ≡ i_type_inst_full_word (i_type_body i_type') op rt rs (const_imm_expr v) value
unfolding i_type_inst_full_word gp_offset const_imm_expr
full_word-const i_type i_type' op rt rs v value load branch = fun_ext (λ s.
    rw (load, branch)
      (ap (λ (f : A (Unit {0})). f s)
        (full_compute-agree (i_type_body i_type) (i_type_body i_type')
          (i_type_body-Agree i_type i_type') op rt rs (const_imm_expr v) value)))

two_levels :
    (i_type i_type' : Op → ℕ → ℕ → ImmExpr → A (Unit {0})) (op : Op) (rt rs v : ℕ)
    → opcode_is_load_store op ≡ false
    → opcode_is_branch op ≡ false
    → i_type_body (i_type_body i_type) op rt rs (const_imm_expr v)
      ≡ i_type_body (i_type_body i_type') op rt rs (const_imm_expr v)
two_levels i_type i_type' op rt rs v load branch =
    level (i_type_body i_type) (i_type_body i_type') op rt rs (const_imm_expr v)
      (λ s wide.
        full_word-const i_type i_type' op rt rs v (some (eval_imm_expr s (const_imm_expr v))) load
          branch)
      (full_word-const i_type i_type' op rt rs v none load branch)

three_levels :
    (i_type i_type' : Op → ℕ → ℕ → ImmExpr → A (Unit {0})) (op : Op) (rt rs : ℕ) (expr : ImmExpr)
    (value : Option ℕ)
    → (opcode_is_load_store op ≡ true → IsReady value)
    → i_type_inst_full_word (i_type_body (i_type_body i_type)) op rt rs expr value
      ≡ i_type_inst_full_word (i_type_body (i_type_body i_type')) op rt rs expr value
three_levels i_type i_type' op rt rs expr value ready = fun_ext (λ s.
    full_word-agree (i_type_body (i_type_body i_type)) (i_type_body (i_type_body i_type'))
      (i_type_body-Agree (i_type_body i_type) (i_type_body i_type')) op rt rs expr value s ready
      (λ op' offset l b. two_levels i_type i_type' op' rt reg_gp offset l b))

-- The calls of `i_type_inst` of itself are nested three deep at most: where the offset of the
-- expression is a word, three levels give the result that fuel of 3 gives, whatever a call below
-- them would do.
pub i_type_inst-enough :
    (i_type : Op → ℕ → ℕ → ImmExpr → A (Unit {0})) (op : Op) (rt rs : ℕ) (expr : ImmExpr)
    (s : Assembler)
    → IsWord expr.offset
    → i_type_body (i_type_body (i_type_body i_type)) op rt rs expr s ≡ i_type_inst 3 op rt rs expr s
unfolding eval_imm_expr i_type_inst
i_type_inst-enough i_type op rt rs expr s word =
    ap (λ (f : A (Unit {0})). f s)
      (level (i_type_body (i_type_body i_type)) (i_type_inst 2) op rt rs expr
        (λ sy wide.
          three_levels i_type (i_type_inst 0) op rt rs expr (some (eval_imm_expr sy expr)) (λ load.
            wide_NeedsUpper op expr.bits (expr_sum sy expr.offset expr.symbol) load
              (expr_sum-IsWord sy expr.offset expr.symbol word) wide))
        (three_levels i_type (i_type_inst 0) op rt rs expr none (λ load. tt)))
