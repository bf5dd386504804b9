-- ===== src/Assembler/Data.antt =====
-- CPU/data.cpp: the location counters of the data segments.
pub mod Counter
use spim_curses.Base.{
  ℕ, zero, suc, ◌+◌, ◌-◌, ◌*◌, ◌/◌, ◌%◌, ◌^◌, ◌≤◌, ◌<◌, min, max, ◌≡◌, ◌≢◌, ◌↔◌, refl, sym, ◌∙◌, ap,
  arith, Bool, true, false, ◌||◌, ◌&&◌, not, ltb, leb, ◌==◌, if◌then◌else◌, bit_and, bit_or, bit,
  add32, sub32, mul32, neg32, not32, u32, shl, shr, asr, IsWord, is_negative, has, Option, none,
  some, List, [], ◌∷◌, update, ◌⊎◌, inl, inr, Bool-cases, signed, slt,
}
use spim_curses.Cpu.Defs.{set_r}
use spim_curses.Machine.{on_cpu}
use spim_curses.Memory.Segments.{expand_data, expand_k_data}
use spim_curses.Assembler.State.{Assembler, A, ◌>>=◌, ◌>>◌, skip, get, modify, machine_op}
use spim_curses.Symbols.Defs.{set_label}

-- `32*K` and `64*K`
abbrev pub half_gp : ℕ
half_gp = 32 * 1024

abbrev pub data_chunk : ℕ
data_chunk = 64 * 1024

-- `ROUND_UP (v, 64*K)`
abbrev pub round_chunk : ℕ → ℕ
round_chunk v = bit_and (add32 v (data_chunk - 1)) 0xffff_0000

unfoldable pub user_kernel_data_segment : Bool → A (Unit {0})
user_kernel_data_segment to_kernel = modify (λ s. record s { data_in_kernel = to_kernel })

unfoldable pub end_of_assembly_file : A (Unit {0})
end_of_assembly_file = modify (λ s. record s { data_in_kernel = false; auto_alignment = true })

unfoldable pub data_begins_at_point : ℕ → A (Unit {0})
data_begins_at_point addr = do
  bare ← get (λ s. s.machine.settings.bare_machine)
  if bare then modify (λ s. record s { next_data_pc = addr }) else (do
    modify (λ s. record s {
      next_gp_item_addr = addr;
      gp_midpoint = add32 addr half_gp;
      next_data_pc = add32 addr data_chunk;
    })
    midpoint ← get (λ s. s.gp_midpoint)
    machine_op (on_cpu (set_r 28 midpoint)))

unfoldable pub k_data_begins_at_point : ℕ → A (Unit {0})
k_data_begins_at_point addr = modify (λ s. record s { next_k_data_pc = addr })

-- `DATA_PC`
abbrev pub data_pc : Assembler → ℕ
data_pc s = if s.data_in_kernel then s.next_k_data_pc else s.next_data_pc

unfoldable pub set_data_pc : ℕ → A (Unit {0})
set_data_pc addr = modify (λ s.
    if s.data_in_kernel
    then record s { next_k_data_pc = addr }
    else record s { next_data_pc = addr })

unfoldable pub move_labels : ℕ → List ℕ → Assembler → Assembler
move_labels addr [] s = s
move_labels addr (l ∷ labels) s =
    move_labels addr labels
      (record s { symbols = set_label l (λ x. record x { addr = addr }) s.symbols })

-- The labels at the start of the line go along.
unfoldable pub fix_current_label_address : ℕ → A (Unit {0})
unfolding move_labels
fix_current_label_address addr =
    modify (λ s. record (move_labels addr s.this_line_labels s) { this_line_labels = [] })

-- `(pc + (1 << alignment) - 1) & (-1 << alignment)`
abbrev pub align_up : ℕ → ℕ → ℕ
align_up alignment pc = bit_and (sub32 (add32 pc (shl 1 alignment)) 1) (shl 0xffff_ffff alignment)

unfoldable pub align_data : ℕ → A (Unit {0})
unfolding set_data_pc fix_current_label_address
align_data alignment =
    if alignment == 0 then modify (λ s. record s { auto_alignment = false }) else (do
      pc ← get data_pc
      set_data_pc (align_up alignment pc)
      fix_current_label_address (align_up alignment pc))

unfoldable pub set_data_alignment : ℕ → A (Unit {0})
unfolding align_data
set_data_alignment alignment = do
  auto ← get (λ s. s.auto_alignment)
  if auto then align_data alignment else skip

unfoldable pub enable_data_alignment : A (Unit {0})
enable_data_alignment = modify (λ s. record s { auto_alignment = true })

unfoldable pub increment_data_pc : ℕ → A (Unit {0})
increment_data_pc delta = do
  kernel ← get (λ s. s.data_in_kernel)
  if kernel
      then (do
        modify (λ s. record s { next_k_data_pc = add32 s.next_k_data_pc delta })
        pc ← get (λ s. s.next_k_data_pc)
        top ← get (λ s. s.machine.mem.k_data_top)
        if leb top pc
            then machine_op (expand_k_data (round_chunk (add32 (sub32 pc top) 1)))
            else skip)
      else (do
        modify (λ s. record s { next_data_pc = add32 s.next_data_pc delta })
        pc ← get (λ s. s.next_data_pc)
        top ← get (λ s. s.machine.mem.data_top)
        if leb top pc
            then machine_op (expand_data (round_chunk (add32 (sub32 pc top) 1)))
            else skip)
