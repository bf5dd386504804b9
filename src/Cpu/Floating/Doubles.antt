-- ===== src/Cpu/Floating/Doubles.antt =====
-- CPU/reg.h: the doubles that overlay pairs of single registers.
use spim_curses.Base.{ℕ, ◌%◌, ◌^◌, ◌<◌, ◌≡◌, ◌≢◌, arith}
use spim_curses.Cpu.Defs.{Cpu}
use spim_curses.Cpu.Floating.{double_at, put_double}

pub double_at-put_double :
    (n : ℕ) (v : ℕ) (c : Cpu) → v < 2 ^ 64 → double_at n (put_double n v c) ≡ v
double_at-put_double n v c h = grind arith

pub double_at-put_double_ne :
    (n k v : ℕ) (c : Cpu)
    → n % 2 ≡ 0
    → k % 2 ≡ 0
    → n ≢ k
    → double_at k (put_double n v c) ≡ double_at k c
double_at-put_double_ne n k v c even even' h = grind arith
