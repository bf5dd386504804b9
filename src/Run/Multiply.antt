-- ===== src/Run/Multiply.antt =====
-- CPU/run.cpp: `unsigned_multiply`, `signed_multiply`, and the arithmetic on HI and LO.
pub mod Unsigned
pub mod Signed
use spim_curses.Base.{
  ℕ, ◌+◌, ◌||◌, ltb, ◌==◌, if◌then◌else◌, not, bit_and, bit_or, add32, sub32, mul32, neg32, not32,
  shl, shr, asr, is_negative,
}

-- The registers HI and LO.
pub record HiLo : Type 0 where
  pub hi : ℕ
  pub lo : ℕ

unfoldable pub unsigned_multiply : ℕ → ℕ → HiLo
unsigned_multiply v1 v2 =
    let a = bit_and (asr v1 16) 0xffff in
    let b = bit_and v1 0xffff in
    let c = bit_and (asr v2 16) 0xffff in
    let d = bit_and v2 0xffff in
    let bd = mul32 b d in
    let ad = mul32 a d in
    let cb = mul32 c b in
    let ac = mul32 a c in
    let mid = add32 ad cb in
    let carry1 : ℕ = if ltb mid ad || ltb mid cb then 1 else 0 in
    let bd_high = bit_and (shr bd 16) 0xffff in
    let mid2 = add32 mid bd_high in
    let carry_mid = if ltb mid2 mid || ltb mid2 bd_high then carry1 + 1 else carry1 in
    record {
      lo = bit_or (bit_and bd 0xffff) (shl (bit_and mid2 0xffff) 16);
      hi = add32 (add32 ac (shl carry_mid 16)) (bit_and (shr mid2 16) 0xffff);
    }

-- `~` of both words, and then `+ 1` with the carry into HI.
unfoldable pub negate : HiLo → HiLo
negate p =
    let lo' = add32 (not32 p.lo) 1 in
    record { lo = lo'; hi = if lo' == 0 then add32 (not32 p.hi) 1 else not32 p.hi }

abbrev pub absolute : ℕ → ℕ
absolute v = if is_negative v then neg32 v else v

unfoldable pub signed_multiply : ℕ → ℕ → HiLo
signed_multiply v1 v2 =
    let neg_sign = if is_negative v2 then not (is_negative v1) else is_negative v1 in
    let product = unsigned_multiply (absolute v1) (absolute v2) in
    if neg_sign then negate product else product

-- `Y_MADD_OP` and `Y_MADDU_OP`: the product is added to the HI and LO of before.
unfoldable pub multiply_add : HiLo → HiLo → HiLo
multiply_add old product =
    let tmp = add32 old.lo product.lo in
    let hi' = if ltb tmp product.lo || ltb tmp old.lo then add32 old.hi 1 else old.hi in
    record { lo = tmp; hi = add32 hi' product.hi }

-- `Y_MSUB_OP` and `Y_MSUBU_OP`
unfoldable pub multiply_sub : HiLo → HiLo → HiLo
multiply_sub old product =
    let hi' = if ltb old.lo product.lo then sub32 old.hi 1 else old.hi in
    record { lo = sub32 old.lo product.lo; hi = sub32 hi' product.hi }
