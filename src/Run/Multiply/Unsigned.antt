-- ===== src/Run/Multiply/Unsigned.antt =====
-- CPU/run.cpp `unsigned_multiply`: the 64-bit product of two words.
use spim_curses.Base.{
  ℕ, ◌+◌, ◌*◌, ◌/◌, ◌%◌, ◌^◌, ◌≤◌, ◌<◌, ◌≡◌, ◌∙◌, ap, arith, ◌||◌, ltb, if◌then◌else◌, bit_and,
  bit_or, add32, mul32, shl, asr, IsWord,
}
use spim_curses.Base.Fields.{bit_and_low, bit_or_field}
use spim_curses.Run.Multiply.{HiLo, unsigned_multiply}

-- The number that HI and LO hold together.
abbrev pub double : HiLo → ℕ
double p = p.hi * 2 ^ 32 + p.lo

-- Both are words.
abbrev pub IsPair : HiLo → Type 0
IsPair p = IsWord p.hi × IsWord p.lo

pub low_half : (v : ℕ) → bit_and v 0xffff ≡ v % 2 ^ 16
low_half v = bit_and_low 16 v

pub high_half : (v : ℕ) → IsWord v → bit_and (asr v 16) 0xffff ≡ v / 2 ^ 16
high_half v h = low_half (asr v 16) ∙ ground arith

pub bit_or_halves :
    (l h : ℕ) → bit_or (l % 2 ^ 16) (shl (h % 2 ^ 16) 16) ≡ l % 2 ^ 16 + h % 2 ^ 16 * 2 ^ 16
bit_or_halves l h =
    ap (bit_or (l % 2 ^ 16)) {y = h % 2 ^ 16 * 2 ^ 16} (omega arith)
    ∙ bit_or_field 16 16 (l % 2 ^ 16) (h % 2 ^ 16) (omega arith) (omega arith)

-- The middle and the end of `unsigned_multiply`, on the four partial products.
combine : ℕ → ℕ → ℕ → ℕ → HiLo
combine bd ad cb ac =
    let mid = add32 ad cb in
    let carry1 : ℕ = if ltb mid ad || ltb mid cb then 1 else 0 in
    let bd_high = bd / 2 ^ 16 % 2 ^ 16 in
    let mid2 = add32 mid bd_high in
    let carry_mid = if ltb mid2 mid || ltb mid2 bd_high then carry1 + 1 else carry1 in
    record {
      lo = bit_or (bd % 2 ^ 16) (shl (mid2 % 2 ^ 16) 16);
      hi = add32 (add32 ac (shl carry_mid 16)) (mid2 / 2 ^ 16 % 2 ^ 16);
    }

abbrev most : ℕ
most = 65535 * 65535

combine-exact :
    (bd ad cb ac : ℕ)
    → bd ≤ most
    → ad ≤ most
    → cb ≤ most
    → ac ≤ most
    → (double (combine bd ad cb ac) ≡ ac * 2 ^ 32 + (ad + cb) * 2 ^ 16 + bd)
      × IsPair (combine bd ad cb ac)
unfolding combine
combine-exact bd ad cb ac p q r s =
    rw (bit_or_halves bd (add32 (add32 ad cb) (bd / 2 ^ 16 % 2 ^ 16)))
      (ground arith, (ground arith, ground arith))

product-le : (x y : ℕ) → x < 2 ^ 16 → y < 2 ^ 16 → x * y ≤ most
product-le x y p q = grind arith

-- The four partial products of two words, from their halves.
product_parts :
    (v1 v2 : ℕ)
    → v1 * v2
      ≡ v1 / 2 ^ 16 * (v2 / 2 ^ 16) * 2 ^ 32
        + (v1 / 2 ^ 16 * (v2 % 2 ^ 16) + v2 / 2 ^ 16 * (v1 % 2 ^ 16)) * 2 ^ 16
        + v1 % 2 ^ 16 * (v2 % 2 ^ 16)
product_parts v1 v2 =
    split v1 v2 (v1 / 2 ^ 16) (v1 % 2 ^ 16) (v2 / 2 ^ 16) (v2 % 2 ^ 16) (omega arith) (omega arith)
  where
    split :
        (x y a b c d : ℕ)
        → x ≡ a * 2 ^ 16 + b
        → y ≡ c * 2 ^ 16 + d
        → x * y ≡ a * c * 2 ^ 32 + (a * d + c * b) * 2 ^ 16 + b * d
    split x y a b c d p q = rw (p, q) (omega arith)

-- The code is `combine` on the partial products.
unsigned_multiply-combine :
    (v1 v2 : ℕ)
    → IsWord v1
    → IsWord v2
    → unsigned_multiply v1 v2
      ≡ combine
          (mul32 (v1 % 2 ^ 16) (v2 % 2 ^ 16))
          (mul32 (v1 / 2 ^ 16) (v2 % 2 ^ 16))
          (mul32 (v2 / 2 ^ 16) (v1 % 2 ^ 16))
          (mul32 (v1 / 2 ^ 16) (v2 / 2 ^ 16))
unfolding unsigned_multiply combine
unsigned_multiply-combine v1 v2 h1 h2 =
    rw (high_half v1 h1, high_half v2 h2, low_half v1, low_half v2) (simp low_half)

mul32-exact : (x y : ℕ) → x < 2 ^ 16 → y < 2 ^ 16 → mul32 x y ≡ x * y
mul32-exact x y p q = omega (arith, product-le x y p q)

-- For two words, HI and LO after `unsigned_multiply` are words and hold the 64-bit product.
pub unsigned_multiply-exact :
    (v1 v2 : ℕ)
    → IsWord v1
    → IsWord v2
    → (double (unsigned_multiply v1 v2) ≡ v1 * v2) × IsPair (unsigned_multiply v1 v2)
unsigned_multiply-exact v1 v2 h1 h2 =
    rw
      (
        unsigned_multiply-combine v1 v2 h1 h2,
        mul32-exact (v1 % 2 ^ 16) (v2 % 2 ^ 16) (omega arith) (omega arith),
        mul32-exact (v1 / 2 ^ 16) (v2 % 2 ^ 16) (omega arith) (omega arith),
        mul32-exact (v2 / 2 ^ 16) (v1 % 2 ^ 16) (omega arith) (omega arith),
        mul32-exact (v1 / 2 ^ 16) (v2 / 2 ^ 16) (omega arith) (omega arith),
        product_parts v1 v2,
      )
      (combine-exact _ _ _ _ (product-le _ _ (omega arith) (omega arith))
        (product-le _ _ (omega arith) (omega arith)) (product-le _ _ (omega arith) (omega arith))
        (product-le _ _ (omega arith) (omega arith)))
