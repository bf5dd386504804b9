-- ===== src/Base/Bits.antt =====
-- The binary digits of `|`, `&`, and what these are on fields that do not overlap.
use Prim.Native.Nat.{
  ℕ, zero, suc, ◌+◌, ◌*◌, ◌/◌, ◌%◌, ◌≤◌, min, max, bit_and, bit_or, digits, bit_and-bitwise,
  bit_or-bitwise,
}
use mathlib.Core.Path.{◌≡◌, refl, sym, ◌∙◌, ap}
use native.Mathlib.Omega.{arith}

-- The digit of weight `2 ^ k`.
abbrev pub bit : ℕ → ℕ → ℕ
bit zero a = a % 2
bit (suc k) a = bit k (a / 2)

pub bit-le : (k a : ℕ) → bit k a ≤ 1
bit-le zero a = omega arith
bit-le (suc k) a = bit-le k (a / 2)

pub bit-zero : (k : ℕ) → bit k 0 ≡ 0
bit-zero zero = refl
bit-zero (suc k) = bit-zero k

bit-digits :
    (z : ℕ → ℕ) (f : ℕ → ℕ → ℕ)
    → ((x y : ℕ) → x ≤ 1 → y ≤ 1 → f x y ≤ 1)
    → ((k b : ℕ) → bit k (z b) ≡ f 0 (bit k b))
    → (n k a b : ℕ) → a ≤ n
    → bit k (digits z f n a b) ≡ f (bit k a) (bit k b)
bit-digits z f small ends zero k zero b h = ends k b ∙ ap (λ x. f x (bit k b)) (sym (bit-zero k))
bit-digits z f small ends zero k (suc a) b h = absurd (omega arith)
bit-digits z f small ends (suc n) k zero b h = ends k b ∙ ap (λ x. f x (bit k b)) (sym (bit-zero k))
bit-digits z f small ends (suc n) zero (suc a) b h =
    omega (arith, small (suc a % 2) (b % 2) (omega arith) (omega arith))
bit-digits z f small ends (suc n) (suc k) (suc a) b h =
    ap (bit k) half ∙ bit-digits z f small ends n k (suc a / 2) (b / 2) (omega arith)
  where
    half :
        (digits z f n (suc a / 2) (b / 2) * 2 + f (suc a % 2) (b % 2)) / 2
        ≡ digits z f n (suc a / 2) (b / 2)
    half = omega (arith, small (suc a % 2) (b % 2) (omega arith) (omega arith))

pub bit-bit_or : (k a b : ℕ) → bit k (bit_or a b) ≡ max (bit k a) (bit k b)
bit-bit_or k a b =
    ap (bit k) (bit_or-bitwise a b)
    ∙ bit-digits (λ y. y) max (λ x y p q. omega arith) (λ j y. omega arith) a k a b (omega arith)

pub bit-bit_and : (k a b : ℕ) → bit k (bit_and a b) ≡ min (bit k a) (bit k b)
bit-bit_and k a b =
    ap (bit k) (bit_and-bitwise a b)
    ∙ bit-digits (λ y. 0) min (λ x y p q. omega arith) (λ j y. omega (arith, bit-zero j)) a k a b
        (omega arith)

or_digits_apart :
    (n a b : ℕ) → a ≤ n → ((k : ℕ) → bit k a + bit k b ≤ 1) → digits (λ y. y) max n a b ≡ a + b
or_digits_apart zero zero b h apart = omega arith
or_digits_apart zero (suc a) b h apart = absurd (omega arith)
or_digits_apart (suc n) zero b h apart = omega arith
or_digits_apart (suc n) (suc a) b h apart =
    omega (arith, or_digits_apart n (suc a / 2) (b / 2) (omega arith) (λ k. apart (suc k)), apart 0)

-- Numbers with no digit in common: `|` is `+`.
pub bit_or_apart : (a b : ℕ) → ((k : ℕ) → bit k a + bit k b ≤ 1) → bit_or a b ≡ a + b
bit_or_apart a b apart = bit_or-bitwise a b ∙ or_digits_apart a a b (omega arith) apart
