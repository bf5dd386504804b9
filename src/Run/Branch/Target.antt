-- ===== src/Run/Branch/Target.antt =====
-- CPU/run.cpp: where the branches go.
use spim_curses.Base.{◌≡◌, arith, Bool, false, if◌then◌else◌, add32, IsWord}
use spim_curses.Cpu.Defs.{Cpu, set_r}
use spim_curses.Machine.{Machine, M, done, left_by}
use spim_curses.Inst.Fields.{Instruction, idisp}
use spim_curses.Run.Branch.{Branch, branch_inst, return_address}

-- The registers after the link.
abbrev pub linked : Branch → Machine → Machine
linked b m = if b.link then record m { cpu = set_r 31 (return_address m) m.cpu } else m

-- Without delayed branches, the instruction after a branch is the one at the displacement if the
-- test holds on the linked registers, else the next one, or the one behind it for a likely branch;
-- only the PC and the linked register change.
pub branch_inst-undelayed :
    (run_slot : M Bool) (b : Branch) (inst : Instruction) (m : Machine)
    → m.settings.delayed_branches ≡ false
    → IsWord m.cpu.pc
    → (c : Cpu) × (branch_inst run_slot b inst m ≡ done tt (record m { cpu = c }))
      × (add32 c.pc 4 ≡ (
          if b.test inst ((linked b m).cpu)
          then add32 m.cpu.pc (idisp inst)
          else add32 m.cpu.pc (if b.nullify then 8 else 4)))
      × (c.r ≡ ((linked b m).cpu).r)
unfolding branch_inst
branch_inst-undelayed run_slot b inst m h word =
    let m' = left_by m (branch_inst run_slot b inst m) in
    (m'.cpu, ground (arith, h), ground (arith, h), ground (arith, h))
