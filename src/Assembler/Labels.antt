-- ===== src/Assembler/Labels.antt =====
-- CPU/sym-tbl.cpp: uses of labels and their definition; the directives of CPU/data.cpp that define
-- labels.
use spim_curses.Base.{
  ℕ, ◌*◌, sym, Bool, true, ◌&&◌, not, ltb, leb, if◌then◌else◌, add32, Option, none, some, List, [],
  ◌∷◌, slt,
}
use spim_curses.Inst.Fields.{Instruction}
use spim_curses.Memory.Defs.{data_bot, slot_inst}
use spim_curses.Memory.Access.{set_mem_word}
use spim_curses.Symbols.Defs.{
  Name, Symbols, Label, LabelUse, UseInst, no_inst, stored_inst, copied_inst, lookup_label,
  set_label, make_label_global, define_label, link_local, add_use,
}
use spim_curses.Assembler.State.{
  Assembler, A, aborted, ◌>>=◌, ◌>>◌, skip, pure, get, modify, machine_op, symbol_op,
}
use spim_curses.Assembler.Data.{data_pc}
use spim_curses.Assembler.Store.{store_zeros}
use spim_curses.Assembler.Text.{inst_pc, current_pc, slot_at, owns, put_object, encode}
use spim_curses.Assembler.Resolve.{resolve_inst}

unfoldable pub record_inst_uses_symbol : ℕ → Instruction → ℕ → A (Unit {0})
unfolding add_use
record_inst_uses_symbol number inst sym = modify (λ s.
    if s.data_dir
    then record s {
      symbols = add_use (record { inst = copied_inst inst; addr = data_pc s }) sym s.symbols;
    }
    else record s {
      symbols = add_use (record { inst = stored_inst number inst; addr = inst_pc s }) sym s.symbols;
    })

-- `resolve_a_label_sub`; an instruction here always has an expression.
unfoldable pub resolve_expr : Instruction → ℕ → A Instruction
unfolding resolve_inst
resolve_expr inst pc = elim inst.expr [ none ↦ (λ s. aborted) | some e ↦ resolve_inst inst e pc ]

unfoldable pub resolve_a_label : Instruction → A Instruction
unfolding resolve_expr
resolve_a_label inst = do pc ← get current_pc; resolve_expr inst pc

-- An instruction in a data segment is written again.
unfoldable pub rewrite_word : ℕ → Instruction → A (Unit {0})
unfolding encode
rewrite_word addr inst = do
  in_data ← get (λ s. leb data_bot addr && ltb addr s.machine.mem.stack_bot)
  if in_data then (do w ← encode inst; machine_op (set_mem_word addr w)) else skip

-- What the instruction with this number is now; `inst` is what it was when its use was recorded.
unfoldable pub object_at : ℕ → ℕ → Instruction → Assembler → Instruction
unfolding owns
object_at addr number inst s =
    if owns s addr number then or_recorded (slot_inst (slot_at s.machine.mem addr)) else inst
  where
    or_recorded : Option Instruction → Instruction
    or_recorded none = inst
    or_recorded (some i) = i

-- One round of `resolve_label_uses`.
unfoldable pub resolve_use : ℕ → UseInst → ℕ → A (Unit {0})
unfolding resolve_expr rewrite_word object_at put_object
resolve_use sym no_inst pc = do
  addr ← get (λ s. (s.symbols.label sym).addr)
  machine_op (set_mem_word pc addr)
resolve_use sym (copied_inst inst) pc = do resolved ← resolve_expr inst pc; rewrite_word pc resolved
resolve_use sym (stored_inst number inst) pc = do
  now ← get (object_at pc number inst)
  resolved ← resolve_expr now pc
  put_object pc number resolved
  rewrite_word pc resolved

unfoldable pub resolve_uses_of : ℕ → List LabelUse → A (Unit {0})
unfolding resolve_use
resolve_uses_of sym [] = skip
resolve_uses_of sym (use_rec ∷ rest) = do
  resolve_use sym use_rec.inst use_rec.addr
  resolve_uses_of sym rest

unfoldable pub resolve_label_uses : ℕ → A (Unit {0})
unfolding resolve_uses_of
resolve_label_uses sym = do
  uses ← get (λ s. (s.symbols.label sym).uses)
  resolve_uses_of sym uses
  modify (λ s. record s { symbols = set_label sym (λ x. record x { uses = [] }) s.symbols })

-- `record_label` of a label that was looked up, which is not defined yet.
unfoldable pub defined_label : ℕ → Bool → Symbols → A ℕ
unfolding resolve_label_uses link_local
defined_label l resolve_uses symbols = do
  modify (λ s. record s { symbols = symbols })
  if resolve_uses then resolve_label_uses l else skip
  modify (λ s. record s { symbols = link_local l s.symbols })
  pure l

-- A second definition is an error message.
unfoldable pub record_label : Name → ℕ → Bool → A ℕ
unfolding defined_label define_label
record_label name address resolve_uses = do
  l ← symbol_op (lookup_label name)
  symbols ← get (λ s. define_label l address s.symbols)
  elim symbols [ none ↦ pure l | some symbols' ↦ defined_label l resolve_uses symbols' ]

-- `SMALL_DATA_SEG_MAX_SIZE`
abbrev pub small_data_seg_max_size : ℕ
small_data_seg_max_size = 8

-- An item of the small data that is left.
abbrev pub fits_gp : ℕ → Assembler → Bool
fits_gp size s =
    not s.machine.settings.bare_machine
    && (slt 0 size
        && (leb size small_data_seg_max_size
            && ltb (add32 s.next_gp_item_addr size) (add32 s.gp_midpoint (32 * 1024))))

abbrev pub make_gp : ℕ → Label → Label
make_gp item x = record x { gp_flag = true; addr = item }

unfoldable pub extern_directive : Name → ℕ → A (Unit {0})
unfolding make_label_global
extern_directive name size = do
  sym ← symbol_op (make_label_global name)
  known ← get (λ s. (s.symbols.label sym).gp_flag)
  fits ← get (fits_gp size)
  if not known && fits
      then modify (λ s. record s {
        symbols = set_label sym (make_gp s.next_gp_item_addr) s.symbols;
        next_gp_item_addr = add32 s.next_gp_item_addr size;
      })
      else skip

unfoldable pub lcomm_directive : Name → ℕ → A (Unit {0})
unfolding record_label store_zeros
lcomm_directive name size = do
  fits ← get (fits_gp size)
  item ← get (λ s. s.next_gp_item_addr)
  pc ← get (λ s. s.next_data_pc)
  if fits
      then (do
        sym ← record_label name item true
        modify (λ s. record s {
          symbols = set_label sym (λ x. record x { gp_flag = true }) s.symbols;
          next_gp_item_addr = add32 s.next_gp_item_addr size;
        }))
      else (do sym ← record_label name pc true; store_zeros (if slt 0 size then size else 0))
