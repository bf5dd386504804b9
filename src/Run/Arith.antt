-- ===== src/Run/Arith.antt =====
-- CPU/run.cpp: the values that the integer instructions compute.
pub mod Overflow
pub mod Division
use spim_curses.Base.{
  ℕ, zero, suc, ◌-◌, ◌/◌, ◌%◌, Bool, true, false, ◌&&◌, not, ltb, ◌==◌, if◌then◌else◌, bit_and,
  bit_or, neg32, shl, shr, asr, is_negative,
}
use spim_curses.Run.Multiply.{absolute}

-- Two Boolean values differ.
abbrev pub differ : Bool → Bool → Bool
differ true b = not b
differ false b = b

-- `ARITH_OVFL`
unfoldable pub arith_ovfl : ℕ → ℕ → ℕ → Bool
arith_ovfl result op1 op2 =
    not (differ (is_negative op1) (is_negative op2))
    && differ (is_negative op1) (is_negative result)

-- The test of `Y_SUB_OP`.
unfoldable pub sub_ovfl : ℕ → ℕ → ℕ → Bool
sub_ovfl diff vs vt =
    differ (is_negative vs) (is_negative vt) && differ (is_negative vs) (is_negative diff)

-- The loops of `Y_CLO_OP` and `Y_CLZ_OP`, with the bits below `i + 1` to go: how far from the top
-- the first bit is that equals `stop`.
unfoldable pub leading : ℕ → ℕ → ℕ → ℕ
leading stop val zero = 32
leading stop val (suc i) =
    let rest = leading stop val i in if bit_and (asr val i) 0x1 == stop then 31 - i else rest

-- `/` and `%` of two `int32`: towards zero, and the remainder has the sign of the dividend.
unfoldable pub sdiv : ℕ → ℕ → ℕ
sdiv a b =
    let q = absolute a / absolute b in if differ (is_negative a) (is_negative b) then neg32 q else q

unfoldable pub smod : ℕ → ℕ → ℕ
smod a b = let r = absolute a % absolute b in if is_negative a then neg32 r else r

-- The condition of `Y_DIV_OP` and of `Y_DIVU_OP`.
unfoldable pub divides : ℕ → ℕ → Bool
divides vs vt = not (vt == 0) && not ((vs == 0x8000_0000) && (vt == 0xffff_ffff))

-- The shifts of a word, by an amount that may be too large.
unfoldable pub shift_left : ℕ → ℕ → ℕ
shift_left val shamt = if ltb shamt 32 then shl val shamt else val

unfoldable pub shift_right : ℕ → ℕ → ℕ
shift_right val shamt = if ltb shamt 32 then shr val shamt else val

unfoldable pub shift_right_arith : ℕ → ℕ → ℕ
shift_right_arith val shamt = if ltb shamt 32 then asr val shamt else val

-- The words that `Y_LWL_OP`, `Y_LWR_OP`, `Y_SWL_OP` and `Y_SWR_OP` put together on a little-endian
-- host, for the place `byte` of the address in its word.
unfoldable pub lwl_merge : ℕ → ℕ → ℕ → ℕ
lwl_merge byte word reg =
    if byte == 0
    then bit_or (shl (bit_and word 0xff) 24) (bit_and reg 0xffffff)
    else if byte == 1
    then bit_or (shl (bit_and word 0xffff) 16) (bit_and reg 0xffff)
    else if byte == 2
    then bit_or (shl (bit_and word 0xffffff) 8) (bit_and reg 0xff)
    else word

unfoldable pub lwr_merge : ℕ → ℕ → ℕ → ℕ
lwr_merge byte word reg =
    if byte == 0
    then word
    else if byte == 1
    then bit_or (bit_and reg 0xff000000) (shr (bit_and word 0xffffff00) 8)
    else if byte == 2
    then bit_or (bit_and reg 0xffff0000) (shr (bit_and word 0xffff0000) 16)
    else bit_or (bit_and reg 0xffffff00) (shr (bit_and word 0xff000000) 24)

unfoldable pub swl_merge : ℕ → ℕ → ℕ → ℕ
swl_merge byte word reg =
    if byte == 0
    then bit_or (bit_and word 0xffffff00) (bit_and (asr reg 24) 0xff)
    else if byte == 1
    then bit_or (bit_and word 0xffff0000) (bit_and (asr reg 16) 0xffff)
    else if byte == 2
    then bit_or (bit_and word 0xff000000) (bit_and (asr reg 8) 0xffffff)
    else reg

unfoldable pub swr_merge : ℕ → ℕ → ℕ → ℕ
swr_merge byte word reg =
    if byte == 0
    then reg
    else if byte == 1
    then bit_or (bit_and (shl reg 8) 0xffffff00) (bit_and word 0xff)
    else if byte == 2
    then bit_or (bit_and (shl reg 16) 0xffff0000) (bit_and word 0xffff)
    else bit_or (bit_and (shl reg 24) 0xff000000) (bit_and word 0xffffff)
