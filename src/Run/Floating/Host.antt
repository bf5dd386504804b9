-- ===== src/Run/Floating/Host.antt =====
-- The host's arithmetic on `float` and `double`, which the cases of CPU/run.cpp call. Values are
-- bit patterns: 32 bits of a `float`, 64 bits of a `double`.
use spim_curses.Base.{ℕ, Bool, not}

-- `fabs`, `sqrt`, the operators and the comparisons at one of the two types.
pub record Operators : Type 0 where
  pub abs : ℕ → ℕ
  pub neg : ℕ → ℕ
  pub sqrt : ℕ → ℕ
  pub add : ℕ → ℕ → ℕ
  pub sub : ℕ → ℕ → ℕ
  pub mul : ℕ → ℕ → ℕ
  pub div : ℕ → ℕ → ℕ
  pub less : ℕ → ℕ → Bool
  pub equal : ℕ → ℕ → Bool

-- The conversions are named by their result and their operand: `w` is an `int32`.
pub record Host : Type 0 where
  pub single : Operators
  pub double : Operators
  pub d_of_s : ℕ → ℕ
  pub d_of_w : ℕ → ℕ
  pub s_of_d : ℕ → ℕ
  pub s_of_w : ℕ → ℕ
  pub w_of_d : ℕ → ℕ
  pub w_of_s : ℕ → ℕ
  pub ceil : ℕ → ℕ
  pub floor : ℕ → ℕ

-- `NaN (x)`: `x != x`
abbrev pub nan : Operators → ℕ → Bool
nan ops x = not (ops.equal x x)
