-- ===== src/Run/Floating/Lost.antt =====
-- CPU/run.cpp: `Y_LDC1_OP` with delayed loads.
use spim_curses.Base.{
  ℕ, ◌+◌, ◌%◌, ◌^◌, ◌<◌, ◌≡◌, refl, ◌∙◌, ap, arith, true, IsWord, none, some, add32,
}
use spim_curses.Cpu.Defs.{fpr, set_fgr}
use spim_curses.Inst.Fields.{Instruction, ft}
use spim_curses.Machine.{Machine, done, bind, left_by}
use spim_curses.Memory.Layout.{IsLaidOut}
use spim_curses.Memory.Access.View.{word_byte}
use spim_curses.Memory.Access.RoundTrip.{Holds}
use spim_curses.Run.LoadStore.{address, load_inst_base, do_delayed_update}
use spim_curses.Run.Floating.DoubleWord.{has_aligned, all_ones, read_word}
use spim_curses.Run.Floating.Transfer.{ldc1_inst, load_single}
use spim_curses.Memory.Access.{read_mem_word}

abbrev waiting : ℕ → ℕ → Machine → Machine
waiting n v m = record m { loads = record (m.loads) { slot1 = some (fpr n, v) } }

load_single-waiting :
    (n a v : ℕ) (m : Machine)
    → m.settings.delayed_loads ≡ true
    → IsWord v
    → read_mem_word a m ≡ done v m
    → load_single n a m ≡ done tt (waiting n v m)
unfolding load_inst_base
load_single-waiting n a v m late w reads = rw (reads, late, all_ones v w) refl

-- With delayed loads and nothing in the second slot, `ldc1` from an aligned address whose eight
-- bytes are mapped, in memory that is laid out, loads its second register only: after the two
-- updates that follow, the first one has the value from before, and the slots are empty.
pub ldc1_inst-loses :
    (inst : Instruction) (v w : ℕ) (m : Machine)
    → m.settings.delayed_loads ≡ true
    → m.loads.slot2 ≡ none
    → IsLaidOut m.mem
    → IsWord v
    → IsWord w
    → address inst m % 4 ≡ 0
    → address inst m + 4 < 2 ^ 32
    → Holds 4 (address inst m) (word_byte v) m.mem
    → Holds 4 (address inst m + 4) (word_byte w) m.mem
    → (m1 m2 m3 : Machine) × (ldc1_inst inst m ≡ done tt m1)
      × (do_delayed_update m1 ≡ done tt m2)
      × (do_delayed_update m2 ≡ done tt m3)
      × (m3.cpu ≡ set_fgr (ft inst + 1) w m.cpu)
      × (m3.loads ≡ record { slot1 = none; slot2 = none })
unfolding ldc1_inst do_delayed_update
ldc1_inst-loses inst v w m late free l vw ww al fits lows highs =
    let a = address inst m in
    let m0 = waiting (ft inst) v m in
    let m1 = waiting (ft inst + 1) w m0 in
    let m2 = left_by m1 (do_delayed_update m1) in
    let m3 = left_by m2 (do_delayed_update m2) in
    let first = load_single-waiting (ft inst) a v m late vw (read_word a v m l vw al lows) in
    let second =
      load_single-waiting (ft inst + 1) (a + 4) w m0 late ww
        (read_word (a + 4) w m0 l ww (omega arith) highs) in
    (
      m1,
      m2,
      m3,
      rw (has_aligned a al) (
          ap (λ o. bind o (λ _. load_single (ft inst + 1) (add32 a 4))) first
          ∙ ap (λ t. load_single (ft inst + 1) t m0) (omega arith)
          ∙ second),
      ground (arith, late),
      ground (arith, late),
      ground (arith, late, free),
      ground (arith, late, free),
    )
