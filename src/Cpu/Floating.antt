-- ===== src/Cpu/Floating.antt =====
-- CPU/reg.h: the floating-point registers, and the condition codes in the FCSR register.
pub mod Codes
pub mod Doubles
use spim_curses.Base.{
  ℕ, ◌+◌, ◌-◌, ◌*◌, ◌/◌, ◌%◌, ◌^◌, Bool, ◌||◌, ◌==◌, ltb, if◌then◌else◌, bit_and, bit_or, not32,
  has, update,
}
use spim_curses.Cpu.Defs.{Cpu, set_fcr}

abbrev pub fir_reg : ℕ
fir_reg = 0

abbrev pub fcsr_reg : ℕ
fcsr_reg = 31

abbrev pub fcsr_mask : ℕ
fcsr_mask = 0xfe800000

-- `CC_mask`
abbrev pub cc_mask : ℕ → ℕ
cc_mask n = if (n == 0) || ltb 7 n then 2 ^ 23 else 2 ^ (25 + n - 1)

-- `FCC`
unfoldable pub fcc : ℕ → Cpu → Bool
fcc n c = has (c.fcr fcsr_reg) (cc_mask n)

-- `SET_FCC`
unfoldable pub set_fcc : ℕ → Bool → Cpu → Cpu
set_fcc n v c =
    set_fcr fcsr_reg
      (if v
        then bit_or (c.fcr fcsr_reg) (cc_mask n)
        else bit_and (c.fcr fcsr_reg) (not32 (cc_mask n)))
      c

abbrev pub is_odd : ℕ → Bool
is_odd n = n % 2 == 1

-- `FPR[n / 2]` for an even `n`: the bits of a double, on a little-endian host.
abbrev pub double_at : ℕ → Cpu → ℕ
double_at n c = c.fgr n + c.fgr (n + 1) * 2 ^ 32

abbrev pub put_double : ℕ → ℕ → Cpu → Cpu
put_double n v c = record c {
  fgr = update (update c.fgr n (v % 2 ^ 32)) (n + 1) (v / 2 ^ 32 % 2 ^ 32);
}
