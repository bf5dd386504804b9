-- ===== src/Tests/Assembly.antt =====
-- CPU/data.cpp, CPU/sym-tbl.cpp and CPU/inst.cpp: each property at one input.
use spim_curses.Base.{
  ℕ, ◌≤◌, ◌≡◌, ◌≢◌, refl, arith, true, false, ◌==◌, if◌then◌else◌, bit_or, add32, shl, has, none,
  some, [], ◌∷◌, inl, inr, Bool-cases,
}
use spim_curses.Base.{sext16}
use spim_curses.Inst.Op.{Op}
use spim_curses.Inst.Decode.{zero_inst}
use spim_curses.Inst.Fields.{Instruction, ImmExpr, Part}
use spim_curses.Symbols.Defs.{
  Symbols, new_label, lookup_label, find_label, hash, link_local, flush_local_labels,
}
use spim_curses.Symbols.View.{IsTable, IsLookup, lookup_label-IsLookup}
use spim_curses.Symbols.Locals.{IsFlush, flush_local_labels-IsFlush}
use spim_curses.Symbols.Linking.{flush_local_labels-again}
use spim_curses.Assembler.State.{Assembler, ok}
use spim_curses.Assembler.Data.{increment_data_pc}
use spim_curses.Assembler.Data.Counter.{
  IsInside, HasRoom, IsIncremented, increment_data_pc-IsIncremented,
}
use spim_curses.Assembler.Store.{store_word, store_string}
use spim_curses.Assembler.Store.Stored.{Stores, low_bytes}
use spim_curses.Assembler.Store.Bytes.{store_word-Stores}
use spim_curses.Assembler.Expr.{
  eval_imm_expr, upper_bits_of_expr, lower_bits_of_expr, incr_expr_offset, const_imm_expr,
}
use spim_curses.Assembler.Expr.Parts.{whole_of, eval_imm_expr-halves}
use spim_curses.Assembler.Resolve.{resolve_inst}
use spim_curses.Assembler.Resolve.Branch.{relative, Reaches, resolve_inst-Reaches}
use spim_curses.Assembler.Opcodes.{opcode_is_branch}
use spim_curses.Assembler.State.{aborted}
use spim_curses.Assembler.Immediate.{i_type_inst, i_type_body}
use spim_curses.Assembler.Immediate.Depth.Enough.{i_type_inst-enough}
use spim_curses.Assembler.Immediate.Traps.{i_type_inst-trap}
use spim_curses.Base.{length, get_elem?, Option, List, ap, ltb, zero, suc, ◌-◌, ◌<◌, ◌∙◌}
use spim_curses.Memory.Defs.{Bytes}
use spim_curses.StringStream.{StrStream, ss_printf}
use spim_curses.StringStream.Append.{IsVsnprintf, IsStream, IsAppended, ss_printf-IsAppended}
use spim_curses.Cpu.Defs.{set_r}
use spim_curses.Machine.{Machine, done}
use spim_curses.Syscall.{do_syscall}
use spim_curses.Syscall.Strings.{printed, do_syscall-store_string}
use spim_curses.Tests.Setting.{machine0, memory0-IsLaidOut, outside0}

-- No labels.
abbrev symbols0 : Symbols
symbols0 = record { label = λ n. new_label []; allocated = 0; table = λ n. []; local_labels = none }

symbols0-IsTable : IsTable symbols0
symbols0-IsTable = record { below = λ k. tt; distinct = λ k. tt }

-- The label `a`, which is defined and in the list of local labels.
abbrev symbols1 : Symbols
symbols1 = record {
  label = λ n. record (new_label (97 ∷ [])) { addr = 0x40_0100 };
  allocated = 1;
  table = λ k. if k == hash (97 ∷ []) then 0 ∷ [] else [];
  local_labels = some 0;
}

symbols1-IsTable : IsTable symbols1
unfolding find_label
symbols1-IsTable = record {
  below = λ k. elim (Bool-cases (k == hash (97 ∷ []))) [
    | inl h ↦ rw h (omega arith, tt)
    | inr h ↦ rw h tt
  ];
  distinct =
      λ k. elim (Bool-cases (k == hash (97 ∷ []))) [ inl h ↦ rw h (refl, tt) | inr h ↦ rw h tt ];
}

-- The counter stands three bytes before the end of the data segment.
abbrev assembler0 : Assembler
assembler0 = record {
  machine = machine0 false;
  symbols = symbols1;
  next_data_pc = 0x1000_0ffd;
  next_k_data_pc = 0x9000_0000;
  data_in_kernel = false;
  next_gp_item_addr = 0x1000_0000;
  gp_midpoint = 0x1000_8000;
  auto_alignment = true;
  next_text_pc = 0x40_0040;
  next_k_text_pc = 0x8000_0180;
  text_in_kernel = false;
  data_dir = false;
  text_dir = true;
  this_line_labels = [];
  serial = 0;
  owner = λ n. none;
}

inside0 : IsInside assembler0
inside0 = record {
  layout = memory0-IsLaidOut;
  user = refl;
  above = omega arith;
  below = omega arith;
}

room0 : (n : ℕ) → n ≤ 16 → HasRoom n assembler0
room0 n h = record { limit = omega arith; room = omega (arith, h); within = omega (arith, h) }

increment_data_pc-IsIncremented_example :
    (s' : Assembler) × (increment_data_pc 8 assembler0 ≡ ok tt s') × IsIncremented 8 assembler0 s'
increment_data_pc-IsIncremented_example =
    increment_data_pc-IsIncremented 8 assembler0 inside0 (room0 8 (omega arith)) (omega arith)

store_word-Stores_example :
    Stores (low_bytes 4 0x8001_0203) assembler0 (store_word 0x8001_0203 assembler0)
store_word-Stores_example =
    store_word-Stores 0x8001_0203 assembler0 (omega arith) inside0 (room0 4 (omega arith))

lookup_label-IsLookup_example :
    IsLookup
      (98 ∷ [])
      symbols1
      ((lookup_label (98 ∷ []) symbols1).0)
      ((lookup_label (98 ∷ []) symbols1).1)
lookup_label-IsLookup_example = lookup_label-IsLookup (98 ∷ []) symbols1 symbols1-IsTable

flush_local_labels-IsFlush_example :
    (s' : Symbols) × (flush_local_labels 1 symbols1 ≡ some s') × IsFlush (0 ∷ []) symbols1 s'
flush_local_labels-IsFlush_example =
    flush_local_labels-IsFlush 1 (0 ∷ []) symbols1 symbols1-IsTable (refl, refl) (omega arith)

flush_local_labels-again_example : flush_local_labels 1000 (link_local 0 symbols1) ≡ none
flush_local_labels-again_example =
    flush_local_labels-again 1000 0 (0 ∷ []) symbols1 refl (refl, refl) (inl refl)

-- A branch forward to `a`.
abbrev beq0 : Instruction
beq0 = record zero_inst { opcode = Op.beq; r_t = 0x0504 }

resolve_inst-Reaches_example :
    (i : Instruction) × (resolve_inst beq0 (relative 0 0 Part.whole) 0x40_0040 assembler0
      ≡ ok i assembler0)
    × Reaches false 0x40_0040 0x40_0100 beq0 i
unfolding opcode_is_branch
resolve_inst-Reaches_example =
    resolve_inst-Reaches beq0 0 0 0x40_0040 Part.whole assembler0 refl refl (inl refl) (omega arith)
      (omega arith) (omega arith, omega arith, omega arith)

abbrev expr0 : ImmExpr
expr0 = record { offset = 0x7f00; symbol = some 0; bits = Part.whole; pc_relative = false }

eval_imm_expr-halves_example :
    (bit_or
        (shl (eval_imm_expr symbols1 (upper_bits_of_expr expr0)) 16)
        (eval_imm_expr symbols1 (lower_bits_of_expr expr0))
      ≡ eval_imm_expr symbols1 (whole_of expr0))
    × (add32
          (shl
            (eval_imm_expr symbols1 (
              upper_bits_of_expr (
                if has (eval_imm_expr symbols1 (whole_of expr0)) 0x8000
                then incr_expr_offset expr0 0x1_0000
                else expr0)))
            16)
          (sext16 (eval_imm_expr symbols1 (lower_bits_of_expr expr0)))
        ≡ eval_imm_expr symbols1 (whole_of expr0))
eval_imm_expr-halves_example = eval_imm_expr-halves symbols1 expr0 (omega arith)

i_type_inst-trap_example :
    i_type_inst 3 Op.teqi 0 8 (const_imm_expr 0x1_2345) assembler0 ≢ ok tt assembler0
i_type_inst-trap_example =
    i_type_inst-trap 3 Op.teqi 0 8 0x1_2345 assembler0 assembler0 refl refl
      (omega arith, omega arith)

i_type_inst-enough_example :
    i_type_body (i_type_body (i_type_body (λ op rt rs expr s. aborted))) Op.lw 8 9 expr0 assembler0
    ≡ i_type_inst 3 Op.lw 8 9 expr0 assembler0
i_type_inst-enough_example =
    i_type_inst-enough (λ op rt rs expr s. aborted) Op.lw 8 9 expr0 assembler0 (omega arith)

abbrev or_zero : Option ℕ → ℕ
or_zero none = 0
or_zero (some c) = c

-- A `vsnprintf` that writes the text and zero bytes.
abbrev print_at : Bytes → ℕ → ℕ → List ℕ → Bytes
print_at buf pos space text i = if ltb i pos then buf i else or_zero (get_elem? text (i - pos))

or_zero-get_elem? :
    (text : List ℕ) (k : ℕ) → k < length text → some (or_zero (get_elem? text k)) ≡ get_elem? text k
or_zero-get_elem? [] k h = absurd (omega (arith, h))
or_zero-get_elem? (c ∷ text) zero h = refl
or_zero-get_elem? (c ∷ text) (suc k) h = or_zero-get_elem? text k (omega (arith, h))

print_at-IsVsnprintf : IsVsnprintf print_at
print_at-IsVsnprintf = record {
  before = λ buf pos space text i h. ground (arith, h);
  whole = λ buf pos space text k h below. ap some (ground arith) ∙ or_zero-get_elem? text k below;
}

-- A buffer of four bytes, two of them in use.
abbrev stream0 : StrStream
stream0 = record { buf = λ n. 65; max_length = 4; empty_pos = 2; initialized = true }

ss_printf-IsAppended_example :
    (ss' : StrStream) × (ss_printf (λ n. 0xaa) print_at 8 (66 ∷ 67 ∷ 68 ∷ []) stream0 ≡ some ss')
    × IsAppended (66 ∷ 67 ∷ 68 ∷ []) stream0 ss'
    × (ss'.empty_pos ≡ 5)
    × IsStream ss'
ss_printf-IsAppended_example =
    ss_printf-IsAppended (λ n. 0xaa) print_at print_at-IsVsnprintf 8 (66 ∷ 67 ∷ 68 ∷ []) stream0
      (record { initialized = refl; room = omega arith; within = omega arith }) (omega arith)
      (omega arith)

-- `li $v0, 4` and `la $a0` of the counter.
abbrev printing : Machine
printing = let m = machine0 false in record m { cpu = set_r 2 4 (set_r 4 0x1000_0ffd m.cpu) }

do_syscall-store_string_example :
    (s' : Assembler) × (store_string (104 ∷ 105 ∷ []) true assembler0 ≡ ok tt s')
    × (do_syscall outside0 (record printing { mem = s'.machine.mem })
        ≡ done true (printed (104 ∷ 105 ∷ []) (record printing { mem = s'.machine.mem })))
do_syscall-store_string_example =
    do_syscall-store_string outside0 (104 ∷ 105 ∷ []) assembler0 printing
      (λ e. omega arith, (λ e. omega arith, tt)) inside0 (room0 3 (omega arith)) refl refl
