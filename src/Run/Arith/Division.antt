-- ===== src/Run/Arith/Division.antt =====
-- CPU/run.cpp: the division of `Y_DIV_OP`.
use spim_curses.Base.{
  ℕ, zero, suc, ◌+◌, ◌*◌, ◌/◌, ◌%◌, ◌^◌, ◌≤◌, ◌<◌, ◌≡◌, arith, true, if◌then◌else◌, neg32, IsWord,
  is_negative, ◌⊎◌, inl, inr, signed, some, false,
}
use native.Mathlib.Nat.{div-add-mod, div-mul-le_self, mod-lt}
use spim_curses.Base.Int.{◌+ℤ◌, ◌*ℤ◌, magnitude, sub_ℕ}
use spim_curses.Run.Arith.{divides, sdiv, smod, differ}
use spim_curses.Run.Multiply.{absolute}
use spim_curses.Run.Alu.{mul_op, vs, vt}
use spim_curses.Inst.Op.{Op}
use spim_curses.Inst.Fields.{Instruction}
use spim_curses.Cpu.Defs.{Cpu}

module _ (a b q r : ℕ) (ha : IsWord a) (hb : IsWord b) (parts : absolute a ≡ q * absolute b + r)
    (below : r < absolute b) where
  abbrev quotient : ℕ
  quotient = if differ (is_negative a) (is_negative b) then neg32 q else q

  abbrev remainder : ℕ
  remainder = if is_negative a then neg32 r else r

  -- The quotient fits a word with its sign.
  abbrev Fits : Type 0
  Fits = (q < 2 ^ 31) ⊎ ((q ≡ 2 ^ 31) × (differ (is_negative a) (is_negative b) ≡ true))

  signed-quotient :
      Fits
      → signed quotient ≡ (if differ (is_negative a) (is_negative b) then sub_ℕ 0 q else sub_ℕ q 0)
  signed-quotient f = ground arith

  signed-parts : Fits → signed a ≡ signed quotient *ℤ signed b +ℤ signed remainder
  unfolding ◌*ℤ◌ ◌+ℤ◌
  signed-parts f = rw (signed-quotient f) (ground arith)

  remainder-lt : magnitude (signed remainder) < magnitude (signed b)
  remainder-lt = ground arith

  remainder_sign : (remainder ≡ 0) ⊎ (is_negative remainder ≡ is_negative a)
  remainder_sign = ground arith

quotient-fits :
    (x y : ℕ) → x ≤ 2 ^ 31 → 0 < y → (x / y < 2 ^ 31) ⊎ ((x / y ≡ 2 ^ 31) × (x ≡ 2 ^ 31) × (y ≡ 1))
quotient-fits x zero h p = absurd (omega arith)
quotient-fits x (suc zero) h p = ground arith
quotient-fits x (suc (suc k)) h p = inl (grind (arith, div-mul-le_self x (suc (suc k))))

fits_of_divides :
    (a b : ℕ) (ha : IsWord a) (hb : IsWord b)
    (parts : absolute a ≡ absolute a / absolute b * absolute b + absolute a % absolute b)
    (below : absolute a % absolute b < absolute b)
    → divides a b ≡ true
    → Fits a b (absolute a / absolute b) (absolute a % absolute b) ha hb parts below
unfolding divides
fits_of_divides a b ha hb parts below h =
    ground (arith, quotient-fits (absolute a) (absolute b) (ground arith) (ground arith))

-- Quotient and remainder of two words as C has them.
pub record IsDivision (a b q r : ℕ) : Type 0 where
  pub quotient_word : IsWord q
  pub remainder_word : IsWord r
  pub parts : signed a ≡ signed q *ℤ signed b +ℤ signed r
  pub smaller : magnitude (signed r) < magnitude (signed b)
  pub sign : (r ≡ 0) ⊎ (is_negative r ≡ is_negative a)

sdiv-IsDivision :
    (a b : ℕ) → IsWord a → IsWord b → divides a b ≡ true → IsDivision a b (sdiv a b) (smod a b)
sdiv-IsDivision a b ha hb h =
    let x = absolute a in
    let y = absolute b in
    let positive : 0 < y = unfold divides in ground arith in
    let parts : x ≡ x / y * y + x % y = ground (arith, div-add-mod x y) in
    let below : x % y < y = mod-lt x positive in
    let fits = fits_of_divides a b ha hb parts below h in
    unfold sdiv smod in
    record {
      quotient_word = ground arith;
      remainder_word = ground arith;
      parts = signed-parts a b (x / y) (x % y) ha hb parts below fits;
      smaller = remainder-lt a b (x / y) (x % y) ha hb parts below;
      sign = remainder_sign a b (x / y) (x % y) ha hb parts below;
    }

divides_cases :
    (a b : ℕ)
    → (divides a b ≡ true)
      ⊎ ((divides a b ≡ false) × ((b ≡ 0) ⊎ ((a ≡ 0x8000_0000) × (b ≡ 0xffff_ffff))))
unfolding divides
divides_cases a b = ground arith

-- For operands that are words, the instruction `div` either finds a zero divisor, or the least
-- number over -1, and changes nothing, or it puts into LO and HI, and changes nothing else, words
-- that are, as signed integers, a quotient and a remainder: the dividend is quotient times divisor
-- plus remainder, the remainder is smaller than the divisor in size, and it is zero or has the
-- dividend's sign.
pub mul_op-div :
    (inst : Instruction) (c : Cpu)
    → IsWord (vs inst c)
    → IsWord (vt inst c)
    → ((mul_op Op.div inst c ≡ some c)
        × ((vt inst c ≡ 0) ⊎ ((vs inst c ≡ 0x8000_0000) × (vt inst c ≡ 0xffff_ffff))))
      ⊎ ((q : ℕ) × (r : ℕ) × (mul_op Op.div inst c ≡ some (record c { lo = q; hi = r }))
          × IsDivision (vs inst c) (vt inst c) q r)
unfolding mul_op
mul_op-div inst c hs ht = elim (divides_cases (vs inst c) (vt inst c)) [
  | inl h ↦ inr (
    sdiv (vs inst c) (vt inst c),
    smod (vs inst c) (vt inst c),
    ground arith,
    sdiv-IsDivision (vs inst c) (vt inst c) hs ht h,
  )
  | inr (h, why) ↦ inl (ground arith, why)
]
