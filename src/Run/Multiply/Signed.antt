-- ===== src/Run/Multiply/Signed.antt =====
-- CPU/run.cpp `signed_multiply`, and the sums and differences of `Y_MADD_OP` to `Y_MSUBU_OP`.
use spim_curses.Base.{
  ℕ, ◌+◌, ◌-◌, ◌*◌, ◌%◌, ◌^◌, ◌≤◌, ◌≡◌, arith, ltb, if◌then◌else◌, IsWord, is_negative, signed,
}
use spim_curses.Base.Int.{ℤ, pos, negsuc, sub_ℕ, ◌*ℤ◌}
use spim_curses.Run.Multiply.{
  HiLo, unsigned_multiply, negate, absolute, signed_multiply, multiply_add, multiply_sub,
}
use spim_curses.Run.Multiply.Unsigned.{double, IsPair, unsigned_multiply-exact}

-- The integer that HI and LO hold, as a 64-bit number in two's complement.
abbrev pub double_signed : HiLo → ℤ
double_signed p = if ltb (double p) (2 ^ 63) then pos (double p) else negsuc (2 ^ 64 - 1 - double p)

negate-exact :
    (p : HiLo) → IsPair p → (double (negate p) ≡ (2 ^ 64 - double p) % 2 ^ 64) × IsPair (negate p)
unfolding negate
negate-exact p h = (ground arith, (ground arith, ground arith))

-- A product of two words in two's complement, from that of their absolute values.
signed-product :
    (v1 v2 n : ℕ)
    → IsWord v1
    → IsWord v2
    → n ≡ absolute v1 * absolute v2
    → signed v1 *ℤ signed v2 ≡ (
        if is_negative v1
        then (if is_negative v2 then sub_ℕ n 0 else sub_ℕ 0 n)
        else (if is_negative v2 then sub_ℕ 0 n else sub_ℕ n 0))
unfolding ◌*ℤ◌
signed-product v1 v2 n h1 h2 e = ground arith

absolute-le : (v : ℕ) → IsWord v → absolute v ≤ 2 ^ 31
absolute-le v h = ground arith

absolute_product : (x y : ℕ) → x ≤ 2 ^ 31 → y ≤ 2 ^ 31 → x * y ≤ 2 ^ 62
absolute_product x y p q = grind arith

-- For two words, HI and LO after `signed_multiply` are words and hold the 64-bit two's complement
-- product of the signed words.
pub signed_multiply-exact :
    (v1 v2 : ℕ)
    → IsWord v1
    → IsWord v2
    → (double_signed (signed_multiply v1 v2) ≡ signed v1 *ℤ signed v2)
      × IsPair (signed_multiply v1 v2)
unfolding signed_multiply
signed_multiply-exact v1 v2 h1 h2 =
    rw (signed-product v1 v2 (double p) h1 h2 exact.0)
      (ground (arith, small, exact.1, negate-exact p exact.1), words)
  where
    p : HiLo
    p = unsigned_multiply (absolute v1) (absolute v2)

    a1 : absolute v1 ≤ 2 ^ 31
    a1 = absolute-le v1 h1

    a2 : absolute v2 ≤ 2 ^ 31
    a2 = absolute-le v2 h2

    exact : (double p ≡ absolute v1 * absolute v2) × IsPair p
    exact =
        unsigned_multiply-exact (absolute v1) (absolute v2) (omega (arith, a1)) (omega (arith, a2))

    small : double p ≤ 2 ^ 62
    small = omega (arith, exact.0, absolute_product (absolute v1) (absolute v2) a1 a2)

    words : IsPair (signed_multiply v1 v2)
    words = ground (arith, exact.1, negate-exact p exact.1)

-- Adding a product to HI and LO adds 64-bit numbers, modulo 2 ^ 64.
pub multiply_add-exact :
    (p q : HiLo)
    → IsPair p
    → IsPair q
    → (double (multiply_add p q) ≡ (double p + double q) % 2 ^ 64) × IsPair (multiply_add p q)
unfolding multiply_add
multiply_add-exact p q hp hq = (ground arith, (ground arith, ground arith))

-- Subtracting a product from HI and LO subtracts 64-bit numbers, modulo 2 ^ 64.
pub multiply_sub-exact :
    (p q : HiLo)
    → IsPair p
    → IsPair q
    → (double (multiply_sub p q) ≡ (double p + 2 ^ 64 - double q) % 2 ^ 64)
      × IsPair (multiply_sub p q)
unfolding multiply_sub
multiply_sub-exact p q hp hq = (ground arith, (ground arith, ground arith))
