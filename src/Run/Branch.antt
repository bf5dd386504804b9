-- ===== src/Run/Branch.antt =====
-- CPU/run.cpp: the branches and jumps of `run_spim`.
pub mod Target
pub mod Return
pub mod Trapped
use spim_curses.Base.{
  ℕ, ◌+◌, Bool, true, false, ◌&&◌, ◌||◌, not, Option, none, some, ◌==◌, if◌then◌else◌, bit_and,
  bit_or, add32, sub32, not32, shl, is_negative,
}
use spim_curses.Cpu.Defs.{Cpu, status, epc, set_cpr, set_r, status_reg, status_exl}
use spim_curses.Machine.{Machine, M, ◌>>=◌, ◌>>◌, get, skip, on_cpu}
use spim_curses.Inst.Op.{Op}
use spim_curses.Inst.Fields.{Instruction, rs, rt, rd, target, idisp}

-- The cases of a conditional branch: its test, whether it links, and whether it is "likely",
-- so that a test that fails skips the delay slot.
pub record Branch : Type 0 where
  pub test : Instruction → Cpu → Bool
  pub link : Bool
  pub nullify : Bool

abbrev equal : Instruction → Cpu → Bool
equal inst c = c.r (rs inst) == c.r (rt inst)

abbrev negative : Instruction → Cpu → Bool
negative inst c = is_negative (c.r (rs inst))

abbrev zero_or_negative : Instruction → Cpu → Bool
zero_or_negative inst c = (c.r (rs inst) == 0) || is_negative (c.r (rs inst))

abbrev negated : (Instruction → Cpu → Bool) → Instruction → Cpu → Bool
negated test inst c = not (test inst c)

abbrev plain : (Instruction → Cpu → Bool) → Bool → Option Branch
plain test nullify = some (record { test = test; link = false; nullify = nullify })

abbrev linking : (Instruction → Cpu → Bool) → Bool → Option Branch
linking test nullify = some (record { test = test; link = true; nullify = nullify })

unfoldable pub branch_op : Op → Option Branch
branch_op Op.beq = plain equal false
branch_op Op.beql = plain equal true
branch_op Op.bgez = plain (negated negative) false
branch_op Op.bgezl = plain (negated negative) true
branch_op Op.bgezal = linking (negated negative) false
branch_op Op.bgezall = linking (negated negative) true
branch_op Op.bgtz = plain (negated zero_or_negative) false
branch_op Op.bgtzl = plain (negated zero_or_negative) true
branch_op Op.blez = plain zero_or_negative false
branch_op Op.blezl = plain zero_or_negative true
branch_op Op.bltz = plain negative false
branch_op Op.bltzl = plain negative true
branch_op Op.bltzal = linking negative false
branch_op Op.bltzall = linking negative true
branch_op Op.bne = plain (negated equal) false
branch_op Op.bnel = plain (negated equal) true
branch_op _ = none

-- The address after the branch or jump, and after its delay slot if there is one.
abbrev pub return_address : Machine → ℕ
return_address m = add32 m.cpu.pc (if m.settings.delayed_branches then 8 else 4)

module _ (run_slot : M Bool) where
  -- `JUMP_INST`, where `run_slot` is `run_spim (PC + BYTES_PER_WORD, 1, display)`. The target is
  -- computed after the delay slot.
  unfoldable pub jump_inst : (Machine → ℕ) → M (Unit {0})
  jump_inst new_pc = do
    delayed ← get (λ m. m.settings.delayed_branches)
    if delayed
        then (do
          on_cpu (λ c. record c { running_in_delay_slot = true })
          _ ← run_slot
          on_cpu (λ c. record c { running_in_delay_slot = false }))
        else skip
    t ← get new_pc
    on_cpu (λ c. record c { pc = sub32 t 4 })

  -- `BRANCH_INST`
  unfoldable pub branch_inst : Branch → Instruction → M (Unit {0})
  unfolding jump_inst
  branch_inst b inst = do
    if b.link then (do ra ← get return_address; on_cpu (set_r 31 ra)) else skip
    m ← get (λ m. m)
    if b.test inst m.cpu
        then (let t = add32 m.cpu.pc (idisp inst) in
            jump_inst (λ _. if m.settings.delayed_branches then add32 t 4 else t))
        else if b.nullify
        then on_cpu (λ c. record c { pc = add32 c.pc 4 })
        else skip

  abbrev region_target : Instruction → Machine → ℕ
  region_target inst m = bit_or (bit_and m.cpu.pc 0xf000_0000) (shl (target inst) 2)

  -- `Y_ERET_OP`
  unfoldable pub eret_inst : M (Unit {0})
  unfolding jump_inst
  eret_inst = do
    on_cpu (λ c. set_cpr status_reg (bit_and (status c) (not32 status_exl)) c)
    jump_inst (λ m. epc m.cpu)

  unfoldable pub jump_op : Op → Instruction → Option (M (Unit {0}))
  unfolding jump_inst eret_inst
  jump_op Op.eret inst = some eret_inst
  jump_op Op.j inst = some (jump_inst (region_target inst))
  jump_op Op.jal inst =
      some (do ra ← get return_address; on_cpu (set_r 31 ra); jump_inst (region_target inst))
  jump_op Op.jalr inst = some (do
    tmp ← get (λ m. m.cpu.r (rs inst))
    ra ← get return_address
    on_cpu (set_r (rd inst) ra)
    jump_inst (λ _. tmp))
  jump_op Op.jr inst = some (do tmp ← get (λ m. m.cpu.r (rs inst)); jump_inst (λ _. tmp))
  jump_op _ inst = none
