-- ===== src/Cpu/Floating/Codes.antt =====
-- CPU/reg.h: `SET_FCC` against `FCC`.
use spim_curses.Base.{
  ℕ, ◌+◌, ◌-◌, ◌^◌, ◌≤◌, ◌<◌, ◌≡◌, ◌∙◌, arith, ap, sym, Bool, true, false, ◌||◌, max, min, ◌==◌,
  ltb, if◌then◌else◌, bit, bit_and, bit_or, not32, has,
}
use spim_curses.Base.Bits.{bit-bit_or, bit-bit_and, bit-le}
use spim_curses.Base.Powers.{bit-power, has-power, bit-complement}
use native.Mathlib.Nat.{pow-le-pow_right}
use spim_curses.Cpu.Defs.{Cpu}
use spim_curses.Cpu.Floating.{fcc, set_fcc, cc_mask, fcsr_reg}

abbrev code_bit : ℕ → ℕ
code_bit n = if (n == 0) || ltb 7 n then 23 else 25 + n - 1

code_bit-bound : (n : ℕ) → n ≤ 7 → code_bit n < 32
code_bit-bound n h = ground arith

cc_mask-power : (n : ℕ) → cc_mask n ≡ 2 ^ code_bit n
cc_mask-power n = ground arith

code_bit-apart : (k n : ℕ) → k ≤ 7 → n ≤ 7 → (code_bit k == code_bit n) ≡ (n == k)
code_bit-apart k n p q = ground arith

power_bound : (j : ℕ) → j < 32 → 2 ^ j < 2 ^ 32
power_bound j h =
    omega (arith, pow-le-pow_right {n = 2} (omega arith) {i = j} {j = 31} (omega arith))

-- One digit after `|` or `&`.
flag_bit :
    (v same : Bool) (d m z : ℕ)
    → d ≤ 1
    → m ≡ (if same then 1 else 0)
    → z + m ≡ 1
    → ((if v then max d m else min d z) == 1) ≡ (if same then v else d == 1)
flag_bit true true d m z small mask other = ground arith
flag_bit true false d m z small mask other = ground arith
flag_bit false true d m z small mask other = ground arith
flag_bit false false d m z small mask other = ground arith

bit-flagged :
    (v : Bool) (i j a : ℕ)
    → i < 32
    → j < 32
    → (bit i (if v then bit_or a (2 ^ j) else bit_and a (not32 (2 ^ j))) == 1)
      ≡ (if i == j then v else bit i a == 1)
bit-flagged true i j a p q =
    ap (λ t. t == 1) (bit-bit_or i a (2 ^ j))
    ∙ flag_bit true (i == j) (bit i a) (bit i (2 ^ j)) (bit i (not32 (2 ^ j))) (bit-le i a)
        (bit-power i j) (bit-complement 32 i (2 ^ j) p (power_bound j q))
bit-flagged false i j a p q =
    ap (λ t. t == 1) (bit-bit_and i a (not32 (2 ^ j)))
    ∙ flag_bit false (i == j) (bit i a) (bit i (2 ^ j)) (bit i (not32 (2 ^ j))) (bit-le i a)
        (bit-power i j) (bit-complement 32 i (2 ^ j) p (power_bound j q))

pub fcc-bit : (k : ℕ) (c : Cpu) → fcc k c ≡ (bit (code_bit k) (c.fcr fcsr_reg) == 1)
unfolding fcc
fcc-bit k c = ap (has (c.fcr fcsr_reg)) (cc_mask-power k) ∙ has-power (c.fcr fcsr_reg) (code_bit k)

pub fcc-set_fcc :
    (n k : ℕ) (v : Bool) (c : Cpu)
    → n ≤ 7
    → k ≤ 7
    → fcc k (set_fcc n v c) ≡ (if n == k then v else fcc k c)
unfolding set_fcc
fcc-set_fcc n k v c p q =
    fcc-bit k (set_fcc n v c)
    ∙ ap
        (λ t.
          bit (code_bit k)
            (if v then bit_or (c.fcr fcsr_reg) t else bit_and (c.fcr fcsr_reg) (not32 t))
          == 1)
        (cc_mask-power n)
    ∙ bit-flagged v (code_bit k) (code_bit n) (c.fcr fcsr_reg) (code_bit-bound k q)
        (code_bit-bound n p)
    ∙ ap (λ b. if b then v else bit (code_bit k) (c.fcr fcsr_reg) == 1) (code_bit-apart k n q p)
    ∙ ap (λ b. if n == k then v else b) (sym (fcc-bit k c))
