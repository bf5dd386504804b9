-- ===== src/Memory/Growth.antt =====
-- CPU/mem.cpp: the loops that fill a segment that has grown, described index by index.
pub mod Data
pub mod Stack
pub mod Kernel
pub mod Touch
use spim_curses.Base.{
  ℕ, zero, suc, ◌+◌, ◌-◌, ◌*◌, ◌/◌, ◌%◌, ◌^◌, ◌≤◌, ◌<◌, min, max, ◌≡◌, ◌≢◌, ◌↔◌, refl, sym, ◌∙◌, ap,
  arith, Bool, true, false, ◌||◌, ◌&&◌, not, ltb, leb, ◌==◌, if◌then◌else◌, bit_and, bit_or, bit,
  add32, sub32, mul32, neg32, not32, u32, shl, shr, asr, IsWord, is_negative, has, Option, none,
  some, List, [], ◌∷◌, update, ◌⊎◌, inl, inr, Bool-cases, signed, slt,
}
use spim_curses.Base.Fields.{bit_and_low, bit_and_high}
use spim_curses.Memory.Defs.{Bytes}
use spim_curses.Memory.Segments.{round_up, clear_bytes, copy_word, copy_words}

pub round_up-eq : (n : ℕ) → n < 2 ^ 32 - 3 → round_up n ≡ (n + 3) / 4 * 4
round_up-eq n h =
    omega (arith, bit_and_high 2 (add32 n 3) 0x3fff_ffff, bit_and_low 30 (add32 n 3 / 2 ^ 2))

pub clear_bytes-at :
    (n from : ℕ) (seg : Bytes) (i : ℕ)
    → clear_bytes n from seg i ≡ (if leb from i && ltb i (from + n) then 0 else seg i)
unfolding clear_bytes
clear_bytes-at zero from seg i = ground arith
clear_bytes-at (suc n) from seg i =
    ground (arith, clear_bytes-at n (from + 1) (update seg from 0) i)

copy_word-at :
    (src : Bytes) (o : ℕ) (dst : Bytes) (n i : ℕ)
    → copy_word src o dst n i ≡ (if leb n i && ltb i (n + 4) then src (o + (i - n)) else dst i)
unfolding copy_word
copy_word-at src o dst n i = ground arith

pub copy_words-at :
    (k gap : ℕ) (old new : Bytes) (i : ℕ)
    → copy_words k gap old new i
      ≡ (if leb (gap * 4) i && ltb i ((k + gap) * 4) then old (i - gap * 4) else new i)
unfolding copy_words
copy_words-at zero gap old new i = ground arith
copy_words-at (suc k) gap old new i = ground (
  arith,
  copy_words-at k gap old (copy_word old (k * 4) new ((k + gap) * 4)) i,
  copy_word-at old (k * 4) new ((k + gap) * 4) i,
)
