-- ===== src/Run/Floating/DoubleWord.antt =====
-- CPU/run.cpp: `Y_SDC1_OP` and `Y_LDC1_OP` against each other.
use spim_curses.Base.{
  ℕ, ◌+◌, ◌*◌, ◌/◌, ◌%◌, ◌^◌, ◌<◌, ◌≡◌, refl, ◌∙◌, sym, ap, arith, false, IsWord, inl, inr, bit_and,
  add32, has,
}
use spim_curses.Base.Fields.{bit_and_low}
use spim_curses.Cpu.Defs.{Cpu, set_fgr}
use spim_curses.Cpu.Floating.{double_at}
use spim_curses.Inst.Fields.{Instruction, rt, ft}
use spim_curses.Machine.{Machine, done, bind}
use mathlib.Core.Path.{subst}
use spim_curses.Memory.Defs.{Memory}
use spim_curses.Memory.Layout.{IsLaidOut}
use spim_curses.Memory.Access.{read_mem_word, set_mem_word}
use spim_curses.Memory.Access.View.{byte_at, word_byte, mapped_of_byte_at}
use spim_curses.Memory.Access.RoundTrip.{Holds, set_mem-WritesTo, read_mem_word-Holds}
use spim_curses.Run.LoadStore.{address, load_inst_base}
use spim_curses.Run.Floating.Compare.{fpr_d}
use spim_curses.Run.Floating.Transfer.{ldc1_inst, sdc1_inst, load_single}

pub has_aligned : (a : ℕ) → a % 4 ≡ 0 → has a 0x3 ≡ false
has_aligned a h = ground (arith, bit_and_low 2 a)

pub bytes_of_word :
    (v : ℕ)
    → IsWord v
    → word_byte v 0 + word_byte v 1 * 2 ^ 8 + word_byte v 2 * 2 ^ 16 + word_byte v 3 * 2 ^ 24 ≡ v
bytes_of_word v h = omega arith

pub all_ones : (v : ℕ) → IsWord v → bit_and v 0xffff_ffff ≡ v
all_ones v h = omega (arith, bit_and_low 32 v)

-- A read of the word whose bytes memory holds.
pub read_word :
    (a v : ℕ) (m : Machine)
    → IsLaidOut m.mem
    → IsWord v
    → a % 4 ≡ 0
    → Holds 4 a (word_byte v) m.mem
    → read_mem_word a m ≡ done v m
read_word a v m l w h holds =
    read_mem_word-Holds a (word_byte v) m l h holds ∙ ap (λ x. done x m) (bytes_of_word v w)

-- Two words written one after the other.
write_words :
    (a v w : ℕ) (old : ℕ → ℕ) (m : Machine)
    → IsLaidOut m.mem
    → a % 4 ≡ 0
    → Holds 8 a old m.mem
    → (m1 : Memory) × (m2 : Memory) × (set_mem_word a v m ≡ done tt (record m { mem = m1 }))
      × (set_mem_word (a + 4) w (record m { mem = m1 }) ≡ done tt (record m { mem = m2 }))
      × IsLaidOut m2
      × Holds 4 a (word_byte v) m2
      × Holds 4 (a + 4) (word_byte w) m2
write_words a v w old m l h there =
    let mapped =
      mapped_of_byte_at m.mem a (old 0)
        (ap (byte_at m.mem) (omega arith) ∙ there 0 (omega arith)) in
    let (m1, writes, laid, written, same) = set_mem-WritesTo.0 a v m l h mapped in
    let next = written.old (a + 4) (inr (omega arith)) ∙ there 4 (omega arith) in
    let mapped' = mapped_of_byte_at m1 (a + 4) (old 4) next in
    let (m2, writes', laid', written', same') =
      set_mem-WritesTo.0 (a + 4) w (record m { mem = m1 }) laid (omega arith) mapped' in
    (
      m1,
      m2,
      writes,
      writes',
      laid',
      λ k p. written'.old (a + k) (inl (omega arith)) ∙ written.new k p,
      written'.new,
    )

-- Without delayed loads, a load into a floating-point register.
load_single-done :
    (n a v : ℕ) (m : Machine)
    → m.settings.delayed_loads ≡ false
    → IsWord v
    → read_mem_word a m ≡ done v m
    → load_single n a m ≡ done tt (record m { cpu = set_fgr n v m.cpu })
unfolding load_inst_base
load_single-done n a v m now w reads = rw (reads, now, all_ones v w) refl

abbrev low : ℕ → ℕ
low v = v % 2 ^ 32

abbrev high : ℕ → ℕ
high v = v / 2 ^ 32 % 2 ^ 32

-- `ldc1` of a double that memory holds.
ldc1_inst-Holds :
    (inst : Instruction) (v : ℕ) (m : Machine)
    → m.settings.delayed_loads ≡ false
    → IsLaidOut m.mem
    → address inst m % 4 ≡ 0
    → add32 (address inst m) 4 ≡ address inst m + 4
    → Holds 4 (address inst m) (word_byte (low v)) m.mem
    → Holds 4 (address inst m + 4) (word_byte (high v)) m.mem
    → ldc1_inst inst m
      ≡ done tt
          (record m { cpu = set_fgr (ft inst + 1) (high v) (set_fgr (ft inst) (low v) m.cpu) })
unfolding ldc1_inst
ldc1_inst-Holds inst v m now l al fits lows highs =
    let a = address inst m in
    let m1 = record m { cpu = set_fgr (ft inst) (low v) m.cpu } in
    let first =
      load_single-done (ft inst) a (low v) m now (omega arith)
        (read_word a (low v) m l (omega arith) al lows) in
    let second =
      load_single-done (ft inst + 1) (a + 4) (high v) m1 now (omega arith)
        (read_word (a + 4) (high v) m1 l (omega arith) (omega arith) highs) in
    rw (has_aligned a al) (
      ap (λ o. bind o (λ _. load_single (ft inst + 1) (add32 a 4))) first
      ∙ ap (λ t. load_single (ft inst + 1) t m1) fits
      ∙ second)

-- `sdc1` of a double with mapped bytes at an aligned address.
sdc1_inst-writes :
    (inst : Instruction) (old : ℕ → ℕ) (m : Machine)
    → rt inst % 2 ≡ 0
    → IsLaidOut m.mem
    → address inst m % 4 ≡ 0
    → add32 (address inst m) 4 ≡ address inst m + 4
    → Holds 8 (address inst m) old m.mem
    → (mem : Memory) × (sdc1_inst inst m ≡ done tt (record m { mem = mem }))
      × IsLaidOut mem
      × Holds 4 (address inst m) (word_byte (low (double_at (rt inst) m.cpu))) mem
      × Holds 4 (address inst m + 4) (word_byte (high (double_at (rt inst) m.cpu))) mem
unfolding sdc1_inst fpr_d
sdc1_inst-writes inst old m even l al fits there =
    let a = address inst m in
    let v = double_at (rt inst) m.cpu in
    let (m1, m2, first, second, laid, lows, highs) =
      write_words a (low v) (high v) old m l al there in
    (
      m2,
      rw (even, has_aligned a al)
          (ap (λ o. bind o (λ _. set_mem_word (add32 a 4) (high v))) first
            ∙ ap (λ t. set_mem_word t (high v) (record m { mem = m1 })) fits
            ∙ second),
      laid,
      lows,
      highs,
    )

double_of_words :
    (n v : ℕ) (c : Cpu)
    → v < 2 ^ 64
    → double_at n (set_fgr (n + 1) (high v) (set_fgr n (low v) c)) ≡ v
double_of_words n v c h = grind arith

-- Without delayed loads, a double of an even register that `sdc1` stores at an aligned address
-- whose eight bytes are mapped, in memory that is laid out, and that `ldc1` then loads from the
-- same address, is the double that the register held, the host's words being of 32 bits; the
-- integer registers and coprocessor 0 stay, and the load leaves the memory alone.
pub ldc1_inst-sdc1_inst :
    (inst inst' : Instruction) (old : ℕ → ℕ) (m : Machine)
    → m.settings.delayed_loads ≡ false
    → IsLaidOut m.mem
    → rt inst % 2 ≡ 0
    → double_at (rt inst) m.cpu < 2 ^ 64
    → address inst' m ≡ address inst m
    → address inst m % 4 ≡ 0
    → address inst m + 4 < 2 ^ 32
    → Holds 8 (address inst m) old m.mem
    → (m1 m2 : Machine) × (sdc1_inst inst m ≡ done tt m1)
      × (m1.cpu ≡ m.cpu)
      × (ldc1_inst inst' m1 ≡ done tt m2)
      × (double_at (ft inst') m2.cpu ≡ double_at (rt inst) m.cpu)
      × (m2.mem ≡ m1.mem)
      × (m2.cpu.r ≡ m.cpu.r)
      × (m2.cpu.cpr ≡ m.cpu.cpr)
ldc1_inst-sdc1_inst inst inst' old m now l even fits_64 same al fits there =
    let v = double_at (rt inst) m.cpu in
    let next : add32 (address inst m) 4 ≡ address inst m + 4 = omega arith in
    let (mem, stores, laid, lows, highs) = sdc1_inst-writes inst old m even l al next there in
    let m1 = record m { mem = mem } in
    (
      m1,
      record m1 { cpu = set_fgr (ft inst' + 1) (high v) (set_fgr (ft inst') (low v) m.cpu) },
      stores,
      refl,
      ldc1_inst-Holds inst' v m1 now laid (ap (λ t. t % 4) same ∙ al)
          (ap (λ t. add32 t 4) same ∙ next ∙ ap (λ t. t + 4) (sym same))
          (subst (λ t. Holds 4 t (word_byte (low v)) mem) (sym same) lows)
          (subst (λ t. Holds 4 (t + 4) (word_byte (high v)) mem) (sym same) highs),
      double_of_words (ft inst') v m.cpu fits_64,
      refl,
      refl,
      refl,
    )
