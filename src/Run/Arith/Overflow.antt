-- ===== src/Run/Arith/Overflow.antt =====
-- CPU/run.cpp: the overflow tests of `Y_ADD_OP`, `Y_ADDI_OP` and `Y_SUB_OP`.
use spim_curses.Base.{ℕ, ◌≡◌, ◌↔◌, arith, false, add32, sub32, IsWord, signed}
use spim_curses.Base.Int.{◌+ℤ◌, ◌-ℤ◌}
use spim_curses.Run.Arith.{arith_ovfl, sub_ovfl}

-- For two words, the overflow test of an addition fails exactly where the wrapped sum is the sum
-- of the signed words.
pub arith_ovfl-exact :
    (a b : ℕ)
    → IsWord a
    → IsWord b
    → (arith_ovfl (add32 a b) a b ≡ false) ↔ (signed (add32 a b) ≡ signed a +ℤ signed b)
unfolding arith_ovfl ◌+ℤ◌
arith_ovfl-exact a b ha hb = (λ h. ground arith, λ h. ground arith)

-- For two words, the overflow test of a subtraction fails exactly where the wrapped difference is
-- the difference of the signed words.
pub sub_ovfl-exact :
    (a b : ℕ)
    → IsWord a
    → IsWord b
    → (sub_ovfl (sub32 a b) a b ≡ false) ↔ (signed (sub32 a b) ≡ signed a -ℤ signed b)
unfolding sub_ovfl ◌-ℤ◌
sub_ovfl-exact a b ha hb = (λ h. ground arith, λ h. ground arith)
