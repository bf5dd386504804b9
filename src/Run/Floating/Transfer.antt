-- ===== src/Run/Floating/Transfer.antt =====
-- CPU/run.cpp: the floating-point cases that move words to and from the processor and the memory.
use spim_curses.Base.{
  ℕ, ◌+◌, ◌^◌, ◌%◌, ◌/◌, ◌&&◌, Option, none, some, ◌==◌, if◌then◌else◌, bit_and, add32, not32, has,
}
use spim_curses.Cpu.Defs.{Cpu, fpr, set_r, set_fgr, set_fcr}
use spim_curses.Cpu.Exception.{raise_exception, raise_at, exc_fpe, exc_ad_el}
use spim_curses.Cpu.Floating.{fir_reg, fcsr_reg, fcsr_mask}
use spim_curses.Inst.Op.{Op}
use spim_curses.Inst.Fields.{Instruction, rt, fs, ft}
use spim_curses.Machine.{M, ◌>>=◌, ◌>>◌, get, skip, on_cpu}
use spim_curses.Memory.Access.{read_mem_word, set_mem_word}
use spim_curses.Run.LoadStore.{address, load_inst_base}
use spim_curses.Run.Floating.Compare.{fpr_d}

-- `Y_CTC1_OP`
unfoldable pub ctc1_inst : Instruction → Cpu → Cpu
ctc1_inst inst c =
    let word = c.r (rt inst) in
    let written = set_fcr (fs inst) word c in
    if fs inst == fir_reg
    then written
    else if (fs inst == fcsr_reg) && has word (not32 fcsr_mask)
    then raise_exception exc_fpe written
    else written

-- The alignment that a double is asked for. What follows is done even so.
abbrev check_double : ℕ → M (Unit {0})
check_double addr = if has addr 0x3 then on_cpu (raise_at exc_ad_el addr) else skip

-- `LOAD_INST ((reg_word *) &FPR_S (n), read_mem_word (addr), 0xffffffff)`
abbrev pub load_single : ℕ → ℕ → M (Unit {0})
load_single n addr = do
  value ← read_mem_word addr
  load_inst_base (fpr n) (bit_and value 0xffff_ffff)

-- `Y_LDC1_OP`. The register number is not tested: 31 also writes the word behind the registers.
unfoldable pub ldc1_inst : Instruction → M (Unit {0})
ldc1_inst inst = do
  addr ← get (address inst)
  check_double addr
  load_single (ft inst) addr
  load_single (ft inst + 1) (add32 addr 4)

-- `Y_SDC1_OP`
unfoldable pub sdc1_inst : Instruction → M (Unit {0})
unfolding fpr_d
sdc1_inst inst = do
  val ← fpr_d (rt inst)
  addr ← get (address inst)
  check_double addr
  set_mem_word addr (val % 2 ^ 32)
  set_mem_word (add32 addr 4) (val / 2 ^ 32 % 2 ^ 32)

-- `Y_SWC1_OP`
unfoldable pub swc1_inst : Instruction → M (Unit {0})
swc1_inst inst = do
  addr ← get (address inst)
  val ← get (λ m. m.cpu.fgr (rt inst))
  set_mem_word addr val

-- `Y_CFC1_OP` and `Y_MTC1_OP`
unfoldable pub cfc1_inst : Instruction → Cpu → Cpu
cfc1_inst inst c = set_r (rt inst) (c.fcr (fs inst)) c

unfoldable pub mtc1_inst : Instruction → Cpu → Cpu
mtc1_inst inst c = set_fgr (fs inst) (c.r (rt inst)) c

unfoldable pub transfer_case : Op → Instruction → Option (M (Unit {0}))
unfolding cfc1_inst ctc1_inst ldc1_inst mtc1_inst sdc1_inst swc1_inst
transfer_case Op.cfc1 inst = some (on_cpu (cfc1_inst inst))
transfer_case Op.ctc1 inst = some (on_cpu (ctc1_inst inst))
transfer_case Op.ldc1 inst = some (ldc1_inst inst)
transfer_case Op.lwc1 inst = some (do addr ← get (address inst); load_single (ft inst) addr)
transfer_case Op.mfc1 inst = some (on_cpu (λ c. set_r (rt inst) (c.fgr (fs inst)) c))
transfer_case Op.mtc1 inst = some (on_cpu (mtc1_inst inst))
transfer_case Op.sdc1 inst = some (sdc1_inst inst)
transfer_case Op.swc1 inst = some (swc1_inst inst)
transfer_case _ inst = none
