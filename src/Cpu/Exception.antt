-- ===== src/Cpu/Exception.antt =====
-- Exceptions and interrupts: CPU/run.cpp `raise_exception`, the macros of CPU/inst.h, and
-- CPU/syscall.cpp `handle_exception`.
pub mod Raise
use spim_curses.Base.{
  ℕ, ◌+◌, ◌^◌, Bool, true, false, ◌&&◌, ◌||◌, not, ◌==◌, if◌then◌else◌, bit_and, bit_or, has, add32,
  sub32, not32, shl, shr, update,
}
use spim_curses.Cpu.Defs.{
  Cpu, status, cause, set_cpr, bad_v_addr_reg, count_reg, compare_reg, status_reg, cause_reg,
  epc_reg, status_ie, status_exl, status_im, cause_exc_code, cause_ip, cause_bd,
}

-- `ExcCode_...`
abbrev pub exc_int : ℕ
exc_int = 0

abbrev pub exc_ad_el : ℕ
exc_ad_el = 4

abbrev pub exc_ad_es : ℕ
exc_ad_es = 5

abbrev pub exc_ibe : ℕ
exc_ibe = 6

abbrev pub exc_dbe : ℕ
exc_dbe = 7

abbrev pub exc_bp : ℕ
exc_bp = 9

abbrev pub exc_ri : ℕ
exc_ri = 10

abbrev pub exc_cpu : ℕ
exc_cpu = 11

abbrev pub exc_ov : ℕ
exc_ov = 12

abbrev pub exc_tr : ℕ
exc_tr = 13

abbrev pub exc_fpe : ℕ
exc_fpe = 15

-- `ROUND_DOWN (v, BYTES_PER_WORD)`
abbrev pub round_down : ℕ → ℕ
round_down v = bit_and v 0xfffffffc

-- Interrupts are on: IE set and EXL clear.
abbrev pub interruptible : Cpu → Bool
interruptible c = has (status c) status_ie && not (has (status c) status_exl)

-- The EPC, and the BD bit of Cause, unless EXL is set already.
unfoldable pub save_epc : Cpu → Cpu
save_epc c =
    if has (status c) status_exl
    then c
    else if c.running_in_delay_slot
    then record c {
      cpr =
          update (update c.cpr epc_reg (round_down (sub32 c.pc 4))) cause_reg
            (bit_or (cause c) cause_bd);
    }
    else set_cpr epc_reg (round_down c.pc) c

-- The cause and EXL.
unfoldable pub mark_exception : ℕ → Cpu → Cpu
mark_exception excode c = record c {
  exception_occurred = true;
  cpr =
      update
        (update c.cpr cause_reg (bit_or (bit_and (cause c) (not32 cause_exc_code)) (shl excode 2)))
        status_reg (bit_or (status c) status_exl);
}

unfoldable pub raise_exception : ℕ → Cpu → Cpu
unfolding save_epc mark_exception
raise_exception excode c =
    if not (excode == exc_int) || interruptible c then mark_exception excode (save_epc c) else c

-- `RAISE_EXCEPTION (code, CP0_BadVAddr = addr)`
unfoldable pub raise_at : ℕ → ℕ → Cpu → Cpu
unfolding raise_exception
raise_at excode addr c = set_cpr bad_v_addr_reg addr (raise_exception excode c)

-- `RAISE_INTERRUPT`
unfoldable pub raise_interrupt : ℕ → Cpu → Cpu
raise_interrupt level c = set_cpr cause_reg (bit_or (cause c) (2 ^ (level + 8))) c

-- `CLEAR_INTERRUPT`
unfoldable pub clear_interrupt : ℕ → Cpu → Cpu
clear_interrupt level c = set_cpr cause_reg (bit_and (cause c) (not32 (2 ^ (level + 8)))) c

-- The test at the head of a run: an interrupt is enabled, pending and not masked.
abbrev pub interrupt_pending : Cpu → Bool
interrupt_pending c =
    interruptible c && has (bit_and (cause c) cause_ip) (bit_and (status c) status_im)

-- `CP0_ExCode`
abbrev pub ex_code : Cpu → ℕ
ex_code c = shr (bit_and (cause c) cause_exc_code) 2

abbrev pub exception_addr : ℕ
exception_addr = 0x8000_0180

-- All that it does besides its messages.
unfoldable pub handle_exception : Cpu → Cpu
handle_exception c = record c { exception_occurred = false; pc = exception_addr }

unfoldable pub bump_cp0_timer : Cpu → Cpu
unfolding raise_interrupt
bump_cp0_timer c =
    let ticked = set_cpr count_reg (add32 (c.cpr count_reg) 1) c in
    if ticked.cpr count_reg == ticked.cpr compare_reg then raise_interrupt 7 ticked else ticked
