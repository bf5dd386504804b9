-- ===== src/Run/LoadStore/Delay.antt =====
-- CPU/run.cpp: loads whose result comes one instruction late.
use spim_curses.Base.{ℕ, ◌≡◌, arith, true, none}
use spim_curses.Cpu.Defs.{Dest, set_dest}
use spim_curses.Machine.{Machine, done, left_by}
use spim_curses.Run.LoadStore.{load_inst_base, do_delayed_update}

-- With delayed loads and nothing in the second slot, a load changes no register, nor does the
-- update before the next instruction; the update after that one writes the register, and leaves
-- both slots empty.
pub load_inst_base-delayed :
    (dest : Dest) (value : ℕ) (m : Machine)
    → m.settings.delayed_loads ≡ true
    → m.loads.slot2 ≡ none
    → (m1 m2 m3 : Machine) × (load_inst_base dest value m ≡ done tt m1)
      × (do_delayed_update m1 ≡ done tt m2)
      × (do_delayed_update m2 ≡ done tt m3)
      × (m2.cpu ≡ m.cpu)
      × (m3.cpu ≡ set_dest dest value m.cpu)
      × (m3.loads ≡ record { slot1 = none; slot2 = none })
unfolding load_inst_base do_delayed_update
load_inst_base-delayed dest value m h free =
    let m1 = left_by m (load_inst_base dest value m) in
    let m2 = left_by m1 (do_delayed_update m1) in
    let m3 = left_by m2 (do_delayed_update m2) in
    (
      m1,
      m2,
      m3,
      ground (arith, h),
      ground (arith, h),
      ground (arith, h),
      ground (arith, h, free),
      ground (arith, h, free),
      ground (arith, h, free),
    )
