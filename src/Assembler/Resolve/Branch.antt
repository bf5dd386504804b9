-- ===== src/Assembler/Resolve/Branch.antt =====
-- CPU/sym-tbl.cpp: the field of a branch reaches the label.
use spim_curses.Base.{
  ℕ, ◌+◌, ◌-◌, ◌*◌, ◌/◌, ◌%◌, ◌^◌, ◌≤◌, ◌<◌, ◌≡◌, refl, sym, ◌∙◌, ap, arith, Bool, true, false,
  if◌then◌else◌, add32, sub32, mul32, neg32, asr, IsWord, Option, some, ◌⊎◌, inl, inr,
}
use mathlib.Core.Path.{subst}
use spim_curses.Base.{sext16}
use spim_curses.Base.{contradiction}
use spim_curses.Base.Fields.{bit_and_low, bit_and_high}
use spim_curses.Inst.Op.{Op}
use spim_curses.Inst.Table.{op_entry}
use spim_curses.Inst.Fields.{Instruction, ImmExpr, Part, idisp, sign_ex, set_imm, set_encoding}
use spim_curses.Inst.Fields.Displacement.{idisp-exact, imm_bits, sign_ex-eq}
use spim_curses.Inst.Encode.{inst_encode, encode_format}
use spim_curses.Assembler.State.{Assembler, ok, ◌>>=◌, pure}
use spim_curses.Assembler.Expr.{eval_imm_expr, is_known, select, symbol_is_defined}
use spim_curses.Assembler.Opcodes.{opcode_is_branch, opcode_is_jump}
use spim_curses.Assembler.Text.{encode}
use spim_curses.Assembler.Resolve.{
  branch_field, resolve_inst, resolve_field, field_value, too_large,
}

jump_of_branch : (op : Op) → opcode_is_branch op ≡ true → opcode_is_jump op ≡ false
unfolding opcode_is_branch opcode_is_jump
jump_of_branch Op.j h = sym h
jump_of_branch Op.jal h = sym h
jump_of_branch _ h = refl

branch_encodes :
    (op : Op) (r e : ℕ) (x : Option ImmExpr)
    → opcode_is_branch op ≡ true
    → (w : ℕ) × (inst_encode (record { opcode = op; r_t = r; encoding = e; expr = x }) ≡ some w)
unfolding opcode_is_branch inst_encode op_entry encode_format
branch_encodes Op.bc1f r e x h = (_, refl)
branch_encodes Op.bc1fl r e x h = (_, refl)
branch_encodes Op.bc1t r e x h = (_, refl)
branch_encodes Op.bc1tl r e x h = (_, refl)
branch_encodes Op.bc2f r e x h = (_, refl)
branch_encodes Op.bc2fl r e x h = (_, refl)
branch_encodes Op.bc2t r e x h = (_, refl)
branch_encodes Op.bc2tl r e x h = (_, refl)
branch_encodes Op.beq r e x h = (_, refl)
branch_encodes Op.beql r e x h = (_, refl)
branch_encodes Op.bgez r e x h = (_, refl)
branch_encodes Op.bgezal r e x h = (_, refl)
branch_encodes Op.bgezall r e x h = (_, refl)
branch_encodes Op.bgezl r e x h = (_, refl)
branch_encodes Op.bgtz r e x h = (_, refl)
branch_encodes Op.bgtzl r e x h = (_, refl)
branch_encodes Op.blez r e x h = (_, refl)
branch_encodes Op.blezl r e x h = (_, refl)
branch_encodes Op.bltz r e x h = (_, refl)
branch_encodes Op.bltzal r e x h = (_, refl)
branch_encodes Op.bltzall r e x h = (_, refl)
branch_encodes Op.bltzl r e x h = (_, refl)
branch_encodes Op.bne r e x h = (_, refl)
branch_encodes Op.bnel r e x h = (_, refl)
branch_encodes _ r e x h = absurd (contradiction h)

-- A distance of less than 32K bytes to either side, in whole words.
abbrev pub IsNear : ℕ → Type 0
IsNear d = IsWord d × (add32 d 0x8000 < 2 ^ 16) × (d % 4 ≡ 0)

-- The expression stands for the value, or for its low half.
abbrev pub IsLow : Part → Type 0
IsLow bits = (bits ≡ Part.whole) ⊎ (bits ≡ Part.lower)

sign_ex-select : (bits : Part) (d : ℕ) → IsLow bits → IsNear d → sign_ex (select bits d) ≡ d
sign_ex-select bits d (inl e) near = rw e (sign_ex-eq d near.0 ∙ ground (arith, near.0, near.1))
sign_ex-select bits d (inr e) near = rw e (
    ap sign_ex (bit_and_low 16 d)
    ∙ sign_ex-eq (d % 2 ^ 16) (omega arith)
    ∙ ground (arith, near.0, near.1))

branch_field-eq :
    (delayed : Bool) (v d : ℕ)
    → sign_ex v ≡ d
    → IsNear d
    → branch_field delayed v % 2 ^ 16 ≡ (d / 4 + 2 ^ 16 - (if delayed then 1 else 0)) % 2 ^ 16
unfolding branch_field
branch_field-eq true v d e near = rw e (ground (arith, near.0, bit_and_low 16 (asr d 2)))
branch_field-eq false v d e near = rw e (ground (arith, near.0, bit_and_low 16 (asr d 2)))

-- Where the field holds a quarter of the distance, `IDISP` is the distance.
idisp-near :
    (inst : Instruction) (k d : ℕ)
    → IsNear d
    → k ≤ 1
    → imm_bits inst ≡ (d / 4 + 2 ^ 16 - k) % 2 ^ 16
    → add32 (idisp inst) (k * 4) ≡ d
idisp-near inst k d near h e =
    let exact : idisp inst ≡ mul32 (sext16 (imm_bits inst)) 4 =
      (idisp-exact inst).1 (ground (arith, near.0, near.1, near.2)) in
    ground (arith, exact, e, near.0, near.1, near.2)

reaches :
    (delayed : Bool) (v d : ℕ) (inst : Instruction)
    → sign_ex v ≡ d
    → IsNear d
    → add32 (idisp (set_imm inst (branch_field delayed v))) (if delayed then 4 else 0) ≡ d
reaches true v d inst e near =
    idisp-near (set_imm inst (branch_field true v)) 1 d near (omega arith)
      (omega (arith, branch_field-eq true v d e near))
reaches false v d inst e near =
    idisp-near (set_imm inst (branch_field false v)) 0 d near (omega arith)
      (omega (arith, branch_field-eq false v d e near))

not_too_large : (x : ℕ) → (x < 2 ^ 16) ⊎ (x ≡ 0xffff_ffff) → too_large x ≡ false
not_too_large x h = ground (arith, bit_and_high 16 x 0xffff, bit_and_low 16 (x / 2 ^ 16))

field_fits : (delayed : Bool) (v : ℕ) → too_large (branch_field delayed v) ≡ false
unfolding branch_field
field_fits true v =
    not_too_large (branch_field true v) (ground (arith, bit_and_low 16 (asr (sign_ex v) 2)))
field_fits false v =
    not_too_large (branch_field false v) (ground (arith, bit_and_low 16 (asr (sign_ex v) 2)))

-- An expression that is relative to the counter.
abbrev pub relative : ℕ → ℕ → Part → ImmExpr
relative offset l bits = record {
  offset = offset;
  symbol = some l;
  bits = bits;
  pc_relative = true;
}

-- The branch has its opcode and registers, and leads to the address.
pub record Reaches (delayed : Bool) (pc addr : ℕ) (inst i : Instruction) : Type 0 where
  pub leads : add32 (add32 pc (idisp i)) (if delayed then 4 else 0) ≡ addr
  pub opcode : i.opcode ≡ inst.opcode
  pub registers : i.r_t % 2 ^ 16 ≡ inst.r_t % 2 ^ 16

encode-eq :
    (i : Instruction) (w : ℕ) (s : Assembler)
    → inst_encode i ≡ some w
    → (encode i >>= (λ x. pure (set_encoding i x))) s ≡ ok (set_encoding i w) s
unfolding encode
encode-eq i w s h = rw (encode, h) refl

idisp-set_encoding : (i : Instruction) (w : ℕ) → idisp (set_encoding i w) ≡ idisp i
unfolding idisp
idisp-set_encoding i w = refl

-- The field of a branch is filled, and nothing else happens.
resolve_field-branch :
    (inst : Instruction) (expr : ImmExpr) (pc v w : ℕ) (s : Assembler)
    → opcode_is_branch inst.opcode ≡ true
    → eval_imm_expr s.symbols expr ≡ v
    → inst_encode (
        set_imm
          (record inst { expr = some expr })
          (branch_field s.machine.settings.delayed_branches v))
      ≡ some w
    → resolve_field inst expr pc s
      ≡ ok
          (set_encoding
            (set_imm
              (record inst { expr = some expr })
              (branch_field s.machine.settings.delayed_branches v))
            w)
          s
unfolding resolve_field field_value
resolve_field-branch inst expr pc v w s br e encodes =
    rw (br, jump_of_branch inst.opcode br, e, field_fits s.machine.settings.delayed_branches v)
      (encode-eq _ w s encodes)

known :
    (s : Assembler) (l : ℕ)
    → symbol_is_defined s.symbols l ≡ true
    → is_known s.symbols (some l) ≡ true
unfolding is_known
known s l def = def

eval_relative :
    (s : Assembler) (l offset : ℕ) (bits : Part)
    → symbol_is_defined s.symbols l ≡ true
    → eval_imm_expr s.symbols (relative offset l bits)
      ≡ select bits (add32 offset ((s.symbols.label l).addr))
unfolding eval_imm_expr
eval_relative s l offset bits def = rw def refl

-- Resolving a branch whose expression is relative to the counter, for a label that is defined and
-- lies less than 32K bytes away in whole words: it succeeds, the state is as it was, the opcode
-- and registers stay, and the counter plus `IDISP`, and with delayed branches four more, is the
-- address of the label.
pub resolve_inst-Reaches :
    (inst : Instruction) (offset l pc : ℕ) (bits : Part) (s : Assembler)
    → opcode_is_branch inst.opcode ≡ true
    → symbol_is_defined s.symbols l ≡ true
    → IsLow bits
    → IsWord pc
    → IsWord ((s.symbols.label l).addr)
    → IsNear (sub32 ((s.symbols.label l).addr) pc)
    → (i : Instruction) × (resolve_inst inst (relative offset l bits) pc s ≡ ok i s)
      × Reaches s.machine.settings.delayed_branches pc ((s.symbols.label l).addr) inst i
unfolding resolve_inst
resolve_inst-Reaches inst offset l pc bits s br def low word word' near =
    let (w, encodes) = branch_encodes inst.opcode filled.r_t inst.encoding filled.expr br in
    (
      set_encoding filled w,
      rw (known s l def) (
          resolve_field-branch inst (relative (neg32 pc) l bits) pc (select bits sum) w s br
            (eval_relative s l (neg32 pc) bits def) encodes),
      record {
        leads =
            ap (λ k. add32 (add32 pc k) (if delayed then 4 else 0)) (idisp-set_encoding filled w)
            ∙ landed;
        opcode = refl;
        registers = omega arith;
      },
    )
  where
    delayed : Bool
    delayed = s.machine.settings.delayed_branches

    sum : ℕ
    sum = add32 (neg32 pc) ((s.symbols.label l).addr)

    field : ℕ
    field = branch_field delayed (select bits sum)

    filled : Instruction
    filled =
        set_imm
          (record inst { expr = some (record (relative offset l bits) { offset = neg32 pc }) })
          field

    near_sum : IsNear sum
    near_sum = subst IsNear (omega (arith, word, word')) near

    landed : add32 (add32 pc (idisp filled)) (if delayed then 4 else 0) ≡ (s.symbols.label l).addr
    landed = omega (
      arith,
      reaches delayed (select bits sum) sum (record inst { expr = filled.expr })
          (sign_ex-select bits sum low near_sum) near_sum,
      word,
      word',
    )
