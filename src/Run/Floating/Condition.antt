-- ===== src/Run/Floating/Condition.antt =====
-- CPU/run.cpp: the branches on a condition code, and what a comparison makes of them.
use spim_curses.Base.{
  ℕ, ◌%◌, ◌≤◌, ◌≡◌, ◌∙◌, refl, arith, ap, Bool, true, false, ◌||◌, ◌&&◌, not, Option, none, some,
  ◌==◌, if◌then◌else◌, has, ==_refl,
}
use spim_curses.Cpu.Defs.{Cpu}
use spim_curses.Cpu.Exception.{raise_exception, exc_fpe}
use spim_curses.Cpu.Floating.{fcc, set_fcc, double_at}
use spim_curses.Cpu.Floating.Codes.{fcc-set_fcc}
use spim_curses.Inst.Op.{Op}
use spim_curses.Inst.Fields.{Instruction, cond, ccfp, cc, nd, tf, fs, ft}
use spim_curses.Machine.{Machine, done}
use spim_curses.Run.Branch.{Branch}
use spim_curses.Run.Floating.Host.{Host, Operators, nan}
use spim_curses.Run.Floating.Compare.{
  compare_op, compare_d, fpr_d, set_fpu_cc, cond_in, cond_lt, cond_eq, cond_un,
}

abbrev pub same_bit : Bool → ℕ → Bool
same_bit b n = (if b then 1 else 0) == n

abbrev on_code : Instruction → Option Branch
on_code inst = some (record {
  test = λ i c. same_bit (fcc (cc i) c) (tf i);
  link = false;
  nullify = not (nd inst == 0);
})

-- `Y_BC1F_OP` to `Y_BC1TL_OP`
unfoldable pub fp_branch : Op → Instruction → Option Branch
unfolding fcc
fp_branch Op.bc1f inst = on_code inst
fp_branch Op.bc1fl inst = on_code inst
fp_branch Op.bc1t inst = on_code inst
fp_branch Op.bc1tl inst = on_code inst
fp_branch _ inst = none

-- What the condition field asks of two values.
abbrev pub judged : Operators → Bool → ℕ → ℕ → ℕ → Bool
judged ops unordered v1 v2 cond =
    if unordered
    then has cond cond_un
    else has cond cond_lt && ops.less v1 v2 || (has cond cond_eq && ops.equal v1 v2)

-- The processor after a comparison that raises no exception: its condition code is the answer, the
-- other codes stay, and so does all else that instructions see.
pub record IsJudged (n : ℕ) (answer : Bool) (c c' : Cpu) : Type 0 where
  pub codes : (k : ℕ) → k ≤ 7 → fcc k c' ≡ (if n == k then answer else fcc k c)
  pub integers : c'.r ≡ c.r
  pub floats : c'.fgr ≡ c.fgr
  pub pc : c'.pc ≡ c.pc
  pub system : c'.cpr ≡ c.cpr

set_fcc-IsJudged : (n : ℕ) (v : Bool) (c : Cpu) → n ≤ 7 → IsJudged n v c (set_fcc n v c)
unfolding set_fcc
set_fcc-IsJudged n v c h = record {
  codes = λ k p. fcc-set_fcc n k v c h p;
  integers = refl;
  floats = refl;
  pc = refl;
  system = refl;
}

only_unordered : (a b u : Bool) → (a && false || (b && false) || (u && true)) ≡ u
only_unordered a b u = ground arith

only_ordered : (a b u : Bool) → (a || b || (u && false)) ≡ (a || b)
only_ordered a b u = ground arith

module _ (ops : Operators) (v1 v2 : ℕ) (inst : Instruction) (c : Cpu) where
  abbrev verdict : Bool → Bool
  verdict unordered = judged ops unordered v1 v2 (cond inst)

  compare_op-set_fcc :
      (unordered : Bool)
      → (unordered && has (cond inst) cond_in) ≡ false
      → compare_op ops unordered v1 v2 inst c ≡ set_fcc (ccfp inst) (verdict unordered) c
  unfolding compare_op set_fpu_cc
  compare_op-set_fcc true h = rw h (
      ap (λ b. set_fcc (ccfp inst) b c)
        (only_unordered (has (cond inst) cond_lt) (has (cond inst) cond_eq)
          (has (cond inst) cond_un)))
  compare_op-set_fcc false h =
      ap (λ b. set_fcc (ccfp inst) b c)
        (only_ordered (has (cond inst) cond_lt && ops.less v1 v2)
          (has (cond inst) cond_eq && ops.equal v1 v2) (has (cond inst) cond_un))

  compare_op-raises :
      has (cond inst) cond_in ≡ true → compare_op ops true v1 v2 inst c ≡ raise_exception exc_fpe c
  unfolding compare_op
  compare_op-raises h = rw h

module _ (host : Host) (inst : Instruction) (m : Machine) where
  abbrev left : ℕ
  left = double_at (fs inst) m.cpu

  abbrev right : ℕ
  right = double_at (ft inst) m.cpu

  abbrev pub is_unordered : Bool
  is_unordered = nan host.double left || nan host.double right

  abbrev pub answer_d : Bool
  answer_d = judged host.double is_unordered left right (cond inst)

  compare_d-even :
      fs inst % 2 ≡ 0
      → ft inst % 2 ≡ 0
      → compare_d host inst m
        ≡ done tt (record m { cpu = compare_op host.double is_unordered left right inst m.cpu })
  unfolding compare_d fpr_d
  compare_d-even p q = rw (p, q)

  asked :
      {c : Cpu} (b : Instruction)
      → ccfp inst ≤ 7
      → cc b ≡ ccfp inst
      → IsJudged (ccfp inst) answer_d m.cpu c
      → fcc (cc b) c ≡ answer_d
  asked {c} b h same judge =
      ap (λ k. fcc k c) same
      ∙ judge.codes (ccfp inst) h
      ∙ ap (λ t. if t then answer_d else fcc (ccfp inst) m.cpu) (==_refl (ccfp inst))

  -- A comparison of two doubles, at even register numbers, with one of the eight condition codes,
  -- of which none is signalling and unordered, ends with the code being the answer that the
  -- condition field asks for; the other codes, the registers, PC and coprocessor 0 are as they
  -- were, and the test of a later branch on the code holds just if the branch's flag is the
  -- answer.
  pub compare_d-IsJudged :
      (b : Instruction)
      → fs inst % 2 ≡ 0
      → ft inst % 2 ≡ 0
      → ccfp inst ≤ 7
      → cc b ≡ ccfp inst
      → (is_unordered && has (cond inst) cond_in) ≡ false
      → (c : Cpu) × (compare_d host inst m ≡ done tt (record m { cpu = c }))
        × IsJudged (ccfp inst) answer_d m.cpu c
        × (branch : Branch) × (fp_branch Op.bc1t b ≡ some branch)
        × (branch.test b c ≡ same_bit answer_d (tf b))
  unfolding fp_branch
  compare_d-IsJudged b p q h same quiet =
      let c = set_fcc (ccfp inst) answer_d m.cpu in
      let judge = set_fcc-IsJudged (ccfp inst) answer_d m.cpu h in
      (
        c,
        compare_d-even p q
            ∙ ap (λ x. done tt (record m { cpu = x }))
                (compare_op-set_fcc host.double left right inst m.cpu is_unordered quiet),
        judge,
        _,
        refl,
        ap (λ x. same_bit x (tf b)) (asked b h same judge),
      )
