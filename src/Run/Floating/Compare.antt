-- ===== src/Run/Floating/Compare.antt =====
-- CPU/run.cpp: the comparisons of `run_spim` on `float` and `double`.
use spim_curses.Base.{ℕ, Bool, true, false, ◌||◌, ◌&&◌, Option, none, some, if◌then◌else◌, has}
use spim_curses.Cpu.Defs.{Cpu}
use spim_curses.Cpu.Exception.{raise_exception, exc_fpe}
use spim_curses.Cpu.Floating.{set_fcc, is_odd, double_at}
use spim_curses.Inst.Op.{Op}
use spim_curses.Inst.Fields.{Instruction, cond, ccfp, fs, ft}
use spim_curses.Machine.{M, ◌>>=◌, get, fail, on_cpu, odd_double}
use spim_curses.Run.Floating.Host.{Host, Operators, nan}

abbrev pub cond_un : ℕ
cond_un = 0x1

abbrev pub cond_eq : ℕ
cond_eq = 0x2

abbrev pub cond_lt : ℕ
cond_lt = 0x4

abbrev pub cond_in : ℕ
cond_in = 0x8

unfoldable pub set_fpu_cc : ℕ → ℕ → Bool → Bool → Bool → Cpu → Cpu
unfolding set_fcc
set_fpu_cc cond cc less equal unordered =
    set_fcc cc
      (has cond cond_lt && less || (has cond cond_eq && equal) || (has cond cond_un && unordered))

-- The body of the cases, once the two operands are read. `unordered` is whether one is no number.
unfoldable pub compare_op : Operators → Bool → ℕ → ℕ → Instruction → Cpu → Cpu
unfolding set_fpu_cc
compare_op ops unordered v1 v2 inst c =
    if unordered
    then if has (cond inst) cond_in
      then raise_exception exc_fpe c
      else set_fpu_cc (cond inst) (ccfp inst) false false true c
    else set_fpu_cc (cond inst) (ccfp inst) (ops.less v1 v2) (ops.equal v1 v2) false c

-- `FPR_D` as a value: an odd number ends the run.
unfoldable pub fpr_d : ℕ → M ℕ
fpr_d n = if is_odd n then fail odd_double else get (λ m. double_at n m.cpu)

module _ (host : Host) (inst : Instruction) where
  unfoldable pub compare_s : Cpu → Cpu
  unfolding compare_op
  compare_s c =
      let v1 = c.fgr (fs inst) in
      let v2 = c.fgr (ft inst) in
      compare_op host.single (nan host.double (host.d_of_s v1) || nan host.double (host.d_of_s v2))
        v1 v2 inst c

  unfoldable pub compare_d : M (Unit {0})
  unfolding compare_op fpr_d
  compare_d = do
    v1 ← fpr_d (fs inst)
    v2 ← fpr_d (ft inst)
    on_cpu (compare_op host.double (nan host.double v1 || nan host.double v2) v1 v2 inst)

  abbrev single_compare : Option (M (Unit {0}))
  single_compare = some (on_cpu compare_s)

  abbrev double_compare : Option (M (Unit {0}))
  double_compare = some compare_d

  unfoldable pub compare_case : Op → Option (M (Unit {0}))
  unfolding compare_s compare_d
  compare_case Op.c_f_s = single_compare
  compare_case Op.c_un_s = single_compare
  compare_case Op.c_eq_s = single_compare
  compare_case Op.c_ueq_s = single_compare
  compare_case Op.c_olt_s = single_compare
  compare_case Op.c_ole_s = single_compare
  compare_case Op.c_ult_s = single_compare
  compare_case Op.c_ule_s = single_compare
  compare_case Op.c_sf_s = single_compare
  compare_case Op.c_ngle_s = single_compare
  compare_case Op.c_seq_s = single_compare
  compare_case Op.c_ngl_s = single_compare
  compare_case Op.c_lt_s = single_compare
  compare_case Op.c_nge_s = single_compare
  compare_case Op.c_le_s = single_compare
  compare_case Op.c_ngt_s = single_compare
  compare_case Op.c_f_d = double_compare
  compare_case Op.c_un_d = double_compare
  compare_case Op.c_eq_d = double_compare
  compare_case Op.c_ueq_d = double_compare
  compare_case Op.c_olt_d = double_compare
  compare_case Op.c_ole_d = double_compare
  compare_case Op.c_ult_d = double_compare
  compare_case Op.c_ule_d = double_compare
  compare_case Op.c_sf_d = double_compare
  compare_case Op.c_ngle_d = double_compare
  compare_case Op.c_seq_d = double_compare
  compare_case Op.c_ngl_d = double_compare
  compare_case Op.c_lt_d = double_compare
  compare_case Op.c_nge_d = double_compare
  compare_case Op.c_le_d = double_compare
  compare_case Op.c_ngt_d = double_compare
  compare_case _ = none
