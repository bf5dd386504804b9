-- ===== src/Base/Words.antt =====
-- Words of C as bit patterns: an `int32` or a `uint32` is a number below `2 ^ 32`.
-- `signed` is the integer that an `int32` stands for.
use Prim.Native.Nat.{ℕ, ◌+◌, ◌-◌, ◌*◌, ◌/◌, ◌%◌, ◌^◌, ◌<◌, bit_and}
use mathlib.Core.Bool.{Bool}
use spim_curses.Base.Tests.{ltb, ◌==◌, if◌then◌else◌}
use spim_curses.Base.Int.{ℤ, pos, negsuc, ltb_ℤ}

-- The cast to a 32-bit type.
abbrev pub u32 : ℕ → ℕ
u32 n = n % 2 ^ 32

abbrev pub IsWord : ℕ → Type 0
IsWord n = n < 2 ^ 32

abbrev pub add32 : ℕ → ℕ → ℕ
add32 a b = u32 (a + b)

abbrev pub sub32 : ℕ → ℕ → ℕ
sub32 a b = u32 (a + 2 ^ 32 - b)

abbrev pub mul32 : ℕ → ℕ → ℕ
mul32 a b = u32 (a * b)

-- `~ a`
abbrev pub not32 : ℕ → ℕ
not32 a = 2 ^ 32 - 1 - a

-- `- a`
abbrev pub neg32 : ℕ → ℕ
neg32 a = sub32 0 a

-- `a << k`, the bits past the word's end dropped.
abbrev pub shl : ℕ → ℕ → ℕ
shl a k = u32 (a * 2 ^ k)

-- `a >> k` of an unsigned value.
abbrev pub shr : ℕ → ℕ → ℕ
shr a k = a / 2 ^ k

abbrev pub is_negative : ℕ → Bool
is_negative a = ltb (2 ^ 31 - 1) a

-- `a >> k` of an `int32`: copies of the sign come in from the left.
abbrev pub asr : ℕ → ℕ → ℕ
asr a k = if is_negative a then not32 (shr (not32 a) k) else shr a k

-- The conversions of a `signed char` and of a `short` to an `int32`.
abbrev pub sext8 : ℕ → ℕ
sext8 b = if ltb b 128 then b else b + (2 ^ 32 - 2 ^ 8)

abbrev pub sext16 : ℕ → ℕ
sext16 h = if ltb h (2 ^ 15) then h else h + (2 ^ 32 - 2 ^ 16)

abbrev pub signed : ℕ → ℤ
signed w = if is_negative w then negsuc (2 ^ 32 - 1 - w) else pos w

-- `a < b` of two `int32`.
abbrev pub slt : ℕ → ℕ → Bool
slt a b = ltb_ℤ (signed a) (signed b)

-- `a & b` is not zero.
abbrev pub has : ℕ → ℕ → Bool
has a mask = if bit_and a mask == 0 then Bool.false else Bool.true
