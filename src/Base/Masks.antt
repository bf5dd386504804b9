-- ===== src/Base/Masks.antt =====
-- Laws of `&` and `|` on numbers.
use Prim.Native.Nat.{ℕ, zero, suc, ◌+◌, ◌*◌, ◌/◌, ◌%◌, ◌≤◌, max, bit_and, bit_or}
use mathlib.Core.Path.{◌≡◌, sym, ◌∙◌, ap}
use native.Mathlib.Omega.{arith}
use spim_curses.Base.Bits.{bit, bit-bit_and, bit-bit_or, bit-zero}
use spim_curses.Base.Fields.{bit_ext, bit_and_step}

module _ (a b c : ℕ) where
  pub bit_and_assoc : bit_and (bit_and a b) c ≡ bit_and a (bit_and b c)
  bit_and_assoc = bit_ext _ _ λ k. omega (
    arith,
    bit-bit_and k (bit_and a b) c,
    bit-bit_and k a b,
    bit-bit_and k a (bit_and b c),
    bit-bit_and k b c,
  )

  pub bit_and-bit_or : bit_and (bit_or a b) c ≡ bit_or (bit_and a c) (bit_and b c)
  bit_and-bit_or = bit_ext _ _ λ k. omega (
    arith,
    bit-bit_and k (bit_or a b) c,
    bit-bit_or k a b,
    bit-bit_or k (bit_and a c) (bit_and b c),
    bit-bit_and k a c,
    bit-bit_and k b c,
  )

module _ (a b : ℕ) where
  pub bit_and_absorb : bit_and (bit_or a b) b ≡ b
  bit_and_absorb = bit_ext _ _ λ k. omega (arith, bit-bit_and k (bit_or a b) b, bit-bit_or k a b)

  pub bit_and_comm : bit_and a b ≡ bit_and b a
  bit_and_comm = bit_ext _ _ λ k. omega (arith, bit-bit_and k a b, bit-bit_and k b a)

  pub bit_or_comm : bit_or a b ≡ bit_or b a
  bit_or_comm = bit_ext _ _ λ k. omega (arith, bit-bit_or k a b, bit-bit_or k b a)

pub bit_and_zero : (a : ℕ) → bit_and a 0 ≡ 0
bit_and_zero a = bit_ext _ _ λ k. omega (arith, bit-bit_and k a 0, bit-zero k)

pub bit_or_zero : (a : ℕ) → bit_or 0 a ≡ a
bit_or_zero a = bit_ext _ _ λ k. omega (arith, bit-bit_or k 0 a, bit-zero k)

bit_or_step : (a b : ℕ) → bit_or a b ≡ bit_or (a / 2) (b / 2) * 2 + max (a % 2) (b % 2)
bit_or_step a b = bit_ext _ _ same
  where
    same : (k : ℕ) → bit k (bit_or a b) ≡ bit k (bit_or (a / 2) (b / 2) * 2 + max (a % 2) (b % 2))
    same zero = omega (arith, bit-bit_or 0 a b)
    same (suc k) =
        bit-bit_or (suc k) a b ∙ sym (bit-bit_or k (a / 2) (b / 2)) ∙ ap (bit k) (omega arith)

or_and_below : (n a b : ℕ) → a + b ≤ n → bit_or a b + bit_and a b ≡ a + b
or_and_below zero a b h = omega (
  arith,
  ap (bit_or 0) {x = b} {y = 0} (omega arith),
  ap (λ t. bit_or t b) {x = a} {y = 0} (omega arith),
  bit_or_zero 0,
  bit_and_zero a,
  ap (bit_and a) {x = b} {y = 0} (omega arith),
)
or_and_below (suc n) zero b h = omega (arith, bit_or_zero b, bit_and_comm 0 b, bit_and_zero b)
or_and_below (suc n) (suc a) b h = omega (
  arith,
  bit_or_step (suc a) b,
  bit_and_step (suc a) b,
  or_and_below n (suc a / 2) (b / 2) (omega arith),
)

-- What `|` and `&` take apart.
pub or_and : (a b : ℕ) → bit_or a b + bit_and a b ≡ a + b
or_and a b = or_and_below (a + b) a b (omega arith)
