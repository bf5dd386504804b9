-- ===== src/Cpu/Defs.antt =====
-- CPU/reg.h: the integer registers and coprocessor 0, with the exception flags of CPU/run.cpp.
use spim_curses.Base.{ℕ, Bool, update}

pub record Cpu : Type 0 where
  pub r : ℕ → ℕ  -- R
  pub hi : ℕ
  pub lo : ℕ
  pub pc : ℕ
  pub ccr : ℕ → ℕ  -- CCR[0]
  pub cpr : ℕ → ℕ  -- CPR[0]
  pub fgr : ℕ → ℕ  -- FGR and FWR, which overlay FPR: one word each; past 31 the host's memory behind
  pub fcr : ℕ → ℕ  -- FCR
  pub exception_occurred : Bool
  pub running_in_delay_slot : Bool

-- The numbers of the registers that the code names.
abbrev pub bad_v_addr_reg : ℕ
bad_v_addr_reg = 8

abbrev pub count_reg : ℕ
count_reg = 9

abbrev pub compare_reg : ℕ
compare_reg = 11

abbrev pub status_reg : ℕ
status_reg = 12

abbrev pub cause_reg : ℕ
cause_reg = 13

abbrev pub epc_reg : ℕ
epc_reg = 14

abbrev pub config_reg : ℕ
config_reg = 16

module _ (c : Cpu) where
  abbrev pub status : ℕ
  status = c.cpr status_reg

  abbrev pub cause : ℕ
  cause = c.cpr cause_reg

  abbrev pub epc : ℕ
  epc = c.cpr epc_reg

-- `CPR[0][n] = v` and `R[n] = v`.
abbrev pub set_cpr : ℕ → ℕ → Cpu → Cpu
set_cpr n v c = record c { cpr = update c.cpr n v }

abbrev pub set_r : ℕ → ℕ → Cpu → Cpu
set_r n v c = record c { r = update c.r n v }

-- `FGR[n] = v` and `FCR[n] = v`.
abbrev pub set_fgr : ℕ → ℕ → Cpu → Cpu
set_fgr n v c = record c { fgr = update c.fgr n v }

abbrev pub set_fcr : ℕ → ℕ → Cpu → Cpu
set_fcr n v c = record c { fcr = update c.fcr n v }

-- What a `reg_word *` points to: an integer register or a floating-point register.
pub data Dest : Type 0 where
  gpr : ℕ → Dest
  fpr : ℕ → Dest

-- `*dest = v`
abbrev pub set_dest : Dest → ℕ → Cpu → Cpu
set_dest (gpr n) v c = set_r n v c
set_dest (fpr n) v c = set_fgr n v c

-- The masks of the Status and Cause registers.
abbrev pub status_ie : ℕ
status_ie = 0x1

abbrev pub status_exl : ℕ
status_exl = 0x2

abbrev pub status_um : ℕ
status_um = 0x10

abbrev pub status_im : ℕ
status_im = 0xff00

abbrev pub status_mask : ℕ
status_mask = 0xf000ff13

abbrev pub cause_exc_code : ℕ
cause_exc_code = 0x7c

abbrev pub cause_ip : ℕ
cause_ip = 0xff00

abbrev pub cause_bd : ℕ
cause_bd = 0x8000_0000

abbrev pub cause_mask : ℕ
cause_mask = 0x8000ff7c

abbrev pub config_mask : ℕ
config_mask = 0xfc380
