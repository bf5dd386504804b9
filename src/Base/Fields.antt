-- ===== src/Base/Fields.antt =====
-- Bit fields: `|` puts a value into a clear field, `&` with a mask takes fields out.
use Prim.Native.Nat.{ℕ, zero, suc, ◌+◌, ◌-◌, ◌*◌, ◌/◌, ◌%◌, ◌^◌, ◌≤◌, ◌<◌, min, bit_and, bit_or}
use mathlib.Core.Path.{◌≡◌, refl, sym, ◌∙◌, ap}
use native.Mathlib.Nat.{
  pow-suc, one-le-pow, div-div-eq-div-mul, div-add-mod, mod-eq_of_lt, mod-lt, mul-add-mod_self_left,
}
use native.Mathlib.Omega.{arith}
use spim_curses.Base.Bits.{bit, bit-le, bit-zero, bit-bit_and, bit_or_apart}

-- Numbers with the same digits are equal.
bit_ext_below : (n a b : ℕ) → a ≤ n → b ≤ n → ((k : ℕ) → bit k a ≡ bit k b) → a ≡ b
bit_ext_below zero a b p q h = omega arith
bit_ext_below (suc n) zero zero p q h = refl
bit_ext_below (suc n) a b p q h =
    omega (arith, h 0, bit_ext_below n (a / 2) (b / 2) (omega arith) (omega arith) (λ k. h (suc k)))

pub bit_ext : (a b : ℕ) → ((k : ℕ) → bit k a ≡ bit k b) → a ≡ b
bit_ext a b h = bit_ext_below (a + b) a b (omega arith) (omega arith) h

-- One step of `&`, from the lowest digit.
pub bit_and_step : (a b : ℕ) → bit_and a b ≡ bit_and (a / 2) (b / 2) * 2 + min (a % 2) (b % 2)
bit_and_step a b = bit_ext _ _ same
  where
    same : (k : ℕ) → bit k (bit_and a b) ≡ bit k (bit_and (a / 2) (b / 2) * 2 + min (a % 2) (b % 2))
    same zero = omega (arith, bit-bit_and 0 a b)
    same (suc k) =
        bit-bit_and (suc k) a b ∙ sym (bit-bit_and k (a / 2) (b / 2)) ∙ ap (bit k) (omega arith)

pub mask-half : (k : ℕ) → (2 ^ suc k - 1) / 2 ≡ 2 ^ k - 1
mask-half k = omega (arith, pow-suc 2 k, one-le-pow k 2)

-- The quotient and remainder by `2 ^ (k + 1)`, one digit first.
half-mod : (a k : ℕ) → a % 2 ^ suc k ≡ a / 2 % 2 ^ k * 2 + a % 2
half-mod a k = ap (λ t. t % 2 ^ suc k) parts ∙ mul-add-mod_self_left (2 ^ suc k) q low ∙ fits
  where
    q : ℕ
    q = a / 2 / 2 ^ k

    low : ℕ
    low = a / 2 % 2 ^ k * 2 + a % 2

    parts : a ≡ 2 ^ suc k * q + low
    parts = omega (arith, ap (λ (t : ℕ). t * q) (pow-suc 2 k), div-add-mod (a / 2) (2 ^ k))

    fits : low % 2 ^ suc k ≡ low
    fits =
        mod-eq_of_lt
          (omega (arith, pow-suc 2 k, mod-lt (a / 2) {m = 2 ^ k} (one-le-pow k 2 (omega arith))))

pub half-div : (a k : ℕ) → a / 2 ^ suc k ≡ a / 2 / 2 ^ k
half-div a k = ap (λ t. a / t) (omega (arith, pow-suc 2 k)) ∙ sym (div-div-eq-div-mul a 2 (2 ^ k))

-- `a & (2 ^ k - 1)` is a remainder.
pub bit_and_low : (k a : ℕ) → bit_and a (2 ^ k - 1) ≡ a % 2 ^ k
bit_and_low zero a = omega (arith, bit_ext (bit_and a 0) 0 none_set)
  where
    none_set : (j : ℕ) → bit j (bit_and a 0) ≡ bit j 0
    none_set j = omega (arith, bit-bit_and j a 0, bit-zero j)
bit_and_low (suc k) a = omega (
  arith,
  bit_and_step a (2 ^ suc k - 1),
  ap (bit_and (a / 2)) (mask-half k),
  bit_and_low k (a / 2),
  half-mod a k,
  pow-suc 2 k,
  one-le-pow k 2,
)

-- A mask that ends in `k` zeros looks at the digits from `k` on.
pub bit_and_high : (k a m : ℕ) → bit_and a (m * 2 ^ k) ≡ bit_and (a / 2 ^ k) m * 2 ^ k
bit_and_high zero a m =
    let whole : a ≡ a / 1 = omega arith in
    let one : m * 1 ≡ m = omega arith in
    ap (bit_and a) one ∙ ap (λ t. bit_and t m) whole ∙ omega arith
bit_and_high (suc k) a m =
    bit_and_step a (m * 2 ^ suc k)
    ∙ omega (
      arith,
      ap (bit_and (a / 2)) half_mask,
      twice,
      bit_and_high k (a / 2) m,
      ap (λ t. bit_and t m * 2 ^ k) (half-div a k),
      ap (λ (t : ℕ). bit_and (a / 2 ^ suc k) m * t) (pow-suc 2 k),
    )
  where
    twice : m * 2 ^ suc k ≡ m * 2 ^ k * 2
    twice = omega (arith, ap (λ (t : ℕ). m * t) (pow-suc 2 k))

    half_mask : m * 2 ^ suc k / 2 ≡ m * 2 ^ k
    half_mask = omega (arith, twice)

clear_low : (w a r j : ℕ) → r < 2 ^ w → a % 2 ^ w ≡ 0 → bit j a + bit j r ≤ 1
clear_low zero a r j small clear =
    omega (arith, ap (bit j) {x = r} {y = 0} (omega arith), bit-zero j, bit-le j a)
clear_low (suc w) a r zero small clear = omega (arith, half-mod a w)
clear_low (suc w) a r (suc j) small clear =
    clear_low w (a / 2) (r / 2) j (omega (arith, pow-suc 2 w)) (omega (arith, half-mod a w))

clear_field : (k w a r j : ℕ) → r < 2 ^ w → a / 2 ^ k % 2 ^ w ≡ 0 → bit j a + bit j (r * 2 ^ k) ≤ 1
clear_field zero w a r j small clear =
    let same : r * 1 ≡ r = omega arith in
    rw same (clear_low w a r j small (ap (λ t. t % 2 ^ w) (omega arith) ∙ clear))
clear_field (suc k) w a r zero small clear = omega (arith, ap (λ (t : ℕ). r * t) (pow-suc 2 k))
clear_field (suc k) w a r (suc j) small clear =
    let half : r * 2 ^ suc k / 2 ≡ r * 2 ^ k = omega (arith, ap (λ (t : ℕ). r * t) (pow-suc 2 k)) in
    rw half (clear_field k w (a / 2) r j small (ap (λ t. t % 2 ^ w) (sym (half-div a k)) ∙ clear))

-- `a | (r << k)` adds, where `r` has `w` digits and `a` none in that place.
pub bit_or_field :
    (k w a r : ℕ) → r < 2 ^ w → a / 2 ^ k % 2 ^ w ≡ 0 → bit_or a (r * 2 ^ k) ≡ a + r * 2 ^ k
bit_or_field k w a r small clear =
    bit_or_apart a (r * 2 ^ k) (λ j. clear_field k w a r j small clear)
