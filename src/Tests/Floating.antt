-- ===== src/Tests/Floating.antt =====
-- CPU/run.cpp: the properties of the floating-point cases at concrete machines.
use spim_curses.Base.{
  ℕ, zero, suc, ◌+◌, ◌<◌, ◌≤◌, ◌∙◌, ap, sym, ◌≡◌, refl, arith, Bool, true, false, none, some,
}
use spim_curses.Cpu.Defs.{Cpu, set_r, set_fgr}
use spim_curses.Cpu.Floating.{double_at}
use spim_curses.Inst.Decode.{zero_inst}
use spim_curses.Inst.Fields.{Instruction}
use spim_curses.Inst.Op.{Op}
use spim_curses.Machine.{Machine, done}
use spim_curses.Memory.Access.View.{byte_at, word_byte}
use spim_curses.Run.Branch.{Branch}
use spim_curses.Run.Floating.Compare.{compare_d}
use spim_curses.Run.Floating.Condition.{IsJudged, answer_d, same_bit, fp_branch, compare_d-IsJudged}
use spim_curses.Run.Floating.DoubleWord.{ldc1_inst-sdc1_inst}
use spim_curses.Run.Floating.Lost.{ldc1_inst-loses}
use spim_curses.Run.Floating.Transfer.{ldc1_inst, sdc1_inst}
use spim_curses.Run.LoadStore.{do_delayed_update}
use spim_curses.Tests.Setting.{machine0, memory0, memory0-IsLaidOut, host0, cpu0}

-- `c.lt.d 3, $f2, $f4` and `bc1t 3, 4`.
abbrev compare0 : Instruction
compare0 = record zero_inst { opcode = Op.c_lt_d; r_t = 0x0c02_0404 }

abbrev branch0 : Instruction
branch0 = record zero_inst { opcode = Op.bc1t; r_t = 0x0004_0d00 }

compare_d-IsJudged_example :
    (c : Cpu) × (compare_d host0 compare0 (machine0 false)
      ≡ done tt (record (machine0 false) { cpu = c }))
    × IsJudged 3 (answer_d host0 compare0 (machine0 false)) cpu0 c
    × (branch : Branch) × (fp_branch Op.bc1t branch0 ≡ some branch)
    × (branch.test branch0 c ≡ same_bit (answer_d host0 compare0 (machine0 false)) 1)
compare_d-IsJudged_example =
    compare_d-IsJudged host0 compare0 (machine0 false) branch0 refl refl (omega arith) refl refl

-- `$t0` points into the data.
abbrev pointing : Bool → Machine
pointing delayed = record (machine0 delayed) { cpu = set_r 8 0x1000_0010 cpu0 }

zeros_there : (k : ℕ) → k < 8 → byte_at memory0 (0x1000_0010 + k) ≡ some 0
unfolding byte_at
zeros_there k h = ground arith

zero_bytes_there :
    (n k : ℕ) → k < 4 → n ≤ 4 → byte_at memory0 (0x1000_0010 + n + k) ≡ some (word_byte 0 k)
zero_bytes_there n k h p =
    ap (byte_at memory0) (omega arith)
    ∙ zeros_there (n + k) (omega arith)
    ∙ ap some (sym (no_bits k))
  where
    no_bits : (i : ℕ) → word_byte 0 i ≡ 0
    no_bits zero = refl
    no_bits (suc i) = no_bits i

-- `sdc1 $f2, 0($t0)` and `ldc1 $f6, 0($t0)`.
abbrev store0 : Instruction
store0 = record zero_inst { opcode = Op.sdc1; r_t = 0x0208 }

abbrev load0 : Instruction
load0 = record zero_inst { opcode = Op.ldc1; r_t = 0x0608 }

ldc1_inst-sdc1_inst_example :
    (m1 m2 : Machine) × (sdc1_inst store0 (pointing false) ≡ done tt m1)
    × (m1.cpu ≡ (pointing false).cpu)
    × (ldc1_inst load0 m1 ≡ done tt m2)
    × (double_at 6 m2.cpu ≡ double_at 2 (pointing false).cpu)
    × (m2.mem ≡ m1.mem)
    × (m2.cpu.r ≡ (pointing false).cpu.r)
    × (m2.cpu.cpr ≡ (pointing false).cpu.cpr)
ldc1_inst-sdc1_inst_example =
    ldc1_inst-sdc1_inst store0 load0 (λ k. 0) (pointing false) refl memory0-IsLaidOut refl
      (omega arith) refl (omega arith) (omega arith) zeros_there

ldc1_inst-loses_example :
    (m1 m2 m3 : Machine) × (ldc1_inst load0 (pointing true) ≡ done tt m1)
    × (do_delayed_update m1 ≡ done tt m2)
    × (do_delayed_update m2 ≡ done tt m3)
    × (m3.cpu ≡ set_fgr 7 0 (pointing true).cpu)
    × (m3.loads ≡ record { slot1 = none; slot2 = none })
ldc1_inst-loses_example =
    ldc1_inst-loses load0 0 0 (pointing true) refl refl memory0-IsLaidOut (omega arith)
      (omega arith) (omega arith) (omega arith) (λ k h. zero_bytes_there 0 k h (omega arith))
      (λ k h. zero_bytes_there 4 k h (omega arith))
