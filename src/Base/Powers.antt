-- ===== src/Base/Powers.antt =====
-- Masks of one bit: tests of a bit, and the complement of a word.
use spim_curses.Base.Bits.{bit, bit-le, bit-zero}
use spim_curses.Base.Fields.{bit_and_high, bit_and_low, half-div}
use Prim.Native.Nat.{ℕ, zero, suc, ◌+◌, ◌-◌, ◌*◌, ◌/◌, ◌%◌, ◌^◌, ◌≤◌, ◌<◌, bit_and}
use mathlib.Core.Path.{◌≡◌, refl, sym, ◌∙◌, ap}
use mathlib.Core.Bool.{true, false}
use native.Mathlib.Nat.{pow-suc, one-le-pow}
use native.Mathlib.Omega.{arith}
use spim_curses.Base.Tests.{◌==◌, if◌then◌else◌}
use spim_curses.Base.Words.{has}

pub bit-power : (i j : ℕ) → bit i (2 ^ j) ≡ (if i == j then 1 else 0)
bit-power zero zero = refl
bit-power zero (suc j) = grind (arith, pow-suc 2 j)
bit-power (suc i) zero = bit-zero i ∙ ground arith
bit-power (suc i) (suc j) = ap (bit i) (omega (arith, pow-suc 2 j)) ∙ bit-power i j ∙ ground arith

pub bit-shifted : (k a : ℕ) → bit k a ≡ a / 2 ^ k % 2
bit-shifted zero a = omega arith
bit-shifted (suc k) a = bit-shifted k (a / 2) ∙ ap (λ (t : ℕ). t % 2) (sym (half-div a k))

nonzero_multiple : (d p : ℕ) → d ≤ 1 → 1 ≤ p → (if d * p == 0 then false else true) ≡ (d == 1)
nonzero_multiple zero p h q = ground arith
nonzero_multiple (suc zero) p h q = ground arith
nonzero_multiple (suc (suc d)) p h q = absurd (omega arith)

-- `a & (1 << k)` is not zero.
pub has-power : (a k : ℕ) → has a (2 ^ k) ≡ (bit k a == 1)
has-power a k =
    ap (λ t. if t == 0 then false else true) taken
    ∙ nonzero_multiple (bit k a) (2 ^ k) (bit-le k a) (one-le-pow k 2 (omega arith))
  where
    taken : bit_and a (2 ^ k) ≡ bit k a * 2 ^ k
    taken =
        ap (bit_and a) (omega arith)
        ∙ bit_and_high k a 1
        ∙ ap (λ (t : ℕ). t * 2 ^ k) (bit_and_low 1 (a / 2 ^ k) ∙ sym (bit-shifted k a))

-- The digits of `~ a`.
pub bit-complement : (w i a : ℕ) → i < w → a < 2 ^ w → bit i (2 ^ w - 1 - a) + bit i a ≡ 1
bit-complement zero i a h small = absurd (omega arith)
bit-complement (suc w) zero a h small = omega (arith, pow-suc 2 w)
bit-complement (suc w) (suc i) a h small =
    ap (λ t. bit i t + bit i (a / 2)) half
    ∙ bit-complement w i (a / 2) (omega arith) (omega (arith, pow-suc 2 w))
  where
    half : (2 ^ suc w - 1 - a) / 2 ≡ 2 ^ w - 1 - a / 2
    half = omega (arith, pow-suc 2 w, small)
