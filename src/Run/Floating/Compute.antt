-- ===== src/Run/Floating/Compute.antt =====
-- CPU/run.cpp: the floating-point cases that compute, convert and move.
use spim_curses.Base.{ℕ, Bool, not, Option, none, some, ◌==◌, if◌then◌else◌}
use spim_curses.Cpu.Defs.{Cpu, set_r, set_fgr}
use spim_curses.Cpu.Floating.{fcc, is_odd, put_double}
use spim_curses.Inst.Op.{Op}
use spim_curses.Inst.Fields.{Instruction, rs, rt, rd, fs, ft, fd, cc}
use spim_curses.Machine.{M, ◌>>=◌, get, skip, pure, fail, on_cpu, odd_double}
use spim_curses.Run.Floating.Host.{Host}
use spim_curses.Run.Floating.Compare.{fpr_d}

-- `SET_FPR_D`: the number is tested before the value is computed.
unfoldable pub set_fpr_d : ℕ → M ℕ → M (Unit {0})
set_fpr_d n value = if is_odd n then fail odd_double else (do v ← value; on_cpu (put_double n v))

-- `SET_FPR_S` and `SET_FPR_W`, whose arrays are one.
unfoldable pub set_fpr_s : ℕ → M ℕ → M (Unit {0})
set_fpr_s n value = do v ← value; on_cpu (set_fgr n v)

-- `0.5`
abbrev one_half : ℕ
one_half = 0x3fe0_0000_0000_0000

abbrev same : ℕ → ℕ
same x = x

-- A case that acts only if a test of the registers holds.
abbrev only_if : (Cpu → Bool) → M (Unit {0}) → Option (M (Unit {0}))
only_if test act = some (do go ← get (λ m. test m.cpu); if go then act else skip)

module _ (inst : Instruction) where
  -- The operands `FPR_S (FS (inst))`, `FPR_W (FS (inst))` and `FPR_D (FS (inst))`, and the pairs.
  abbrev of_s : (ℕ → ℕ) → M ℕ
  of_s f = get (λ m. f (m.cpu.fgr (fs inst)))

  abbrev of_two_s : (ℕ → ℕ → ℕ) → M ℕ
  of_two_s f = get (λ m. f (m.cpu.fgr (fs inst)) (m.cpu.fgr (ft inst)))

  abbrev of_d : (ℕ → ℕ) → M ℕ
  of_d f = do x ← fpr_d (fs inst); pure (f x)

  abbrev of_two_d : (ℕ → ℕ → ℕ) → M ℕ
  of_two_d f = do x ← fpr_d (fs inst); y ← fpr_d (ft inst); pure (f x y)

  abbrev to_s : M ℕ → Option (M (Unit {0}))
  to_s value = some (set_fpr_s (fd inst) value)

  abbrev to_d : M ℕ → Option (M (Unit {0}))
  to_d value = some (set_fpr_d (fd inst) value)

module _ (host : Host) where
  unfoldable pub abs_add_case : Op → Instruction → Option (M (Unit {0}))
  unfolding set_fpr_d set_fpr_s fpr_d
  abs_add_case Op.abs_s inst = to_s inst (of_s inst host.single.abs)
  abs_add_case Op.abs_d inst = to_d inst (of_d inst host.double.abs)
  abs_add_case Op.add_s inst = to_s inst (of_two_s inst host.single.add)
  abs_add_case Op.add_d inst = to_d inst (of_two_d inst host.double.add)
  abs_add_case _ inst = none

  unfoldable pub div_case : Op → Instruction → Option (M (Unit {0}))
  unfolding set_fpr_d set_fpr_s fpr_d
  div_case Op.div_s inst = to_s inst (of_two_s inst host.single.div)
  div_case Op.div_d inst = to_d inst (of_two_d inst host.double.div)
  div_case _ inst = none

  unfoldable pub mul_neg_case : Op → Instruction → Option (M (Unit {0}))
  unfolding set_fpr_d set_fpr_s fpr_d
  mul_neg_case Op.mul_s inst = to_s inst (of_two_s inst host.single.mul)
  mul_neg_case Op.mul_d inst = to_d inst (of_two_d inst host.double.mul)
  mul_neg_case Op.neg_s inst = to_s inst (of_s inst host.single.neg)
  mul_neg_case Op.neg_d inst = to_d inst (of_d inst host.double.neg)
  mul_neg_case _ inst = none

  unfoldable pub sqrt_sub_case : Op → Instruction → Option (M (Unit {0}))
  unfolding set_fpr_d set_fpr_s fpr_d
  sqrt_sub_case Op.sqrt_s inst = to_s inst (of_s inst host.single.sqrt)
  sqrt_sub_case Op.sqrt_d inst = to_d inst (of_d inst host.double.sqrt)
  sqrt_sub_case Op.sub_s inst = to_s inst (of_two_s inst host.single.sub)
  sqrt_sub_case Op.sub_d inst = to_d inst (of_two_d inst host.double.sub)
  sqrt_sub_case _ inst = none

  -- Conversions; `int32` rounds toward zero.
  unfoldable pub ceil_cvt_case : Op → Instruction → Option (M (Unit {0}))
  unfolding set_fpr_d set_fpr_s fpr_d
  ceil_cvt_case Op.ceil_w_d inst = to_s inst (of_d inst (λ x. host.w_of_d (host.ceil x)))
  ceil_cvt_case Op.ceil_w_s inst =
      to_s inst (of_s inst (λ x. host.w_of_d (host.ceil (host.d_of_s x))))
  ceil_cvt_case Op.cvt_d_s inst = to_d inst (of_s inst host.d_of_s)
  ceil_cvt_case Op.cvt_d_w inst = to_d inst (of_s inst host.d_of_w)
  ceil_cvt_case Op.cvt_s_d inst = to_s inst (of_d inst host.s_of_d)
  ceil_cvt_case Op.cvt_s_w inst = to_s inst (of_s inst host.s_of_w)
  ceil_cvt_case Op.cvt_w_d inst = to_s inst (of_d inst host.w_of_d)
  ceil_cvt_case Op.cvt_w_s inst = to_s inst (of_s inst host.w_of_s)
  ceil_cvt_case _ inst = none

  unfoldable pub floor_case : Op → Instruction → Option (M (Unit {0}))
  unfolding set_fpr_d set_fpr_s fpr_d
  floor_case Op.floor_w_d inst = to_s inst (of_d inst (λ x. host.w_of_d (host.floor x)))
  floor_case Op.floor_w_s inst =
      to_s inst (of_s inst (λ x. host.w_of_d (host.floor (host.d_of_s x))))
  floor_case _ inst = none

  unfoldable pub round_case : Op → Instruction → Option (M (Unit {0}))
  unfolding set_fpr_d set_fpr_s fpr_d
  round_case Op.round_w_d inst =
      to_s inst (of_d inst (λ x. host.w_of_d (host.double.add x one_half)))
  round_case Op.round_w_s inst =
      to_s inst (of_s inst (λ x. host.w_of_d (host.double.add (host.d_of_s x) one_half)))
  round_case _ inst = none

  unfoldable pub trunc_case : Op → Instruction → Option (M (Unit {0}))
  unfolding set_fpr_d set_fpr_s fpr_d
  trunc_case Op.trunc_w_d inst = to_s inst (of_d inst host.w_of_d)
  trunc_case Op.trunc_w_s inst = to_s inst (of_s inst (λ x. host.w_of_d (host.d_of_s x)))
  trunc_case _ inst = none

-- The moves between registers, some on a condition.
unfoldable pub move_case : Op → Instruction → Option (M (Unit {0}))
unfolding set_fpr_d set_fpr_s fpr_d fcc
move_case Op.mov_s inst = to_s inst (of_s inst same)
move_case Op.mov_d inst = to_d inst (of_d inst same)
move_case Op.movf inst =
    only_if (λ c. not (fcc (cc inst) c)) (on_cpu (λ c. set_r (rd inst) (c.r (rs inst)) c))
move_case Op.movf_d inst =
    only_if (λ c. not (fcc (cc inst) c)) (set_fpr_d (fd inst) (of_d inst same))
move_case Op.movf_s inst =
    only_if (λ c. not (fcc (cc inst) c)) (set_fpr_s (fd inst) (of_s inst same))
move_case Op.movn_d inst =
    only_if (λ c. not (c.r (rt inst) == 0)) (set_fpr_d (fd inst) (of_d inst same))
move_case Op.movn_s inst =
    only_if (λ c. not (c.r (rt inst) == 0)) (set_fpr_s (fd inst) (of_s inst same))
move_case Op.movt inst = only_if (fcc (cc inst)) (on_cpu (λ c. set_r (rd inst) (c.r (rs inst)) c))
move_case Op.movt_d inst = only_if (fcc (cc inst)) (set_fpr_d (fd inst) (of_d inst same))
move_case Op.movt_s inst = only_if (fcc (cc inst)) (set_fpr_s (fd inst) (of_s inst same))
move_case Op.movz_d inst = only_if (λ c. c.r (rt inst) == 0) (set_fpr_d (fd inst) (of_d inst same))
move_case Op.movz_s inst = only_if (λ c. c.r (rt inst) == 0) (set_fpr_s (fd inst) (of_s inst same))
move_case _ inst = none
