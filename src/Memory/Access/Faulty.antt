-- ===== src/Memory/Access/Faulty.antt =====
-- CPU/mem.cpp: reads and writes that end in an address exception.
use spim_curses.Base.{
  if◌then◌else◌, ℕ, ◌%◌, ◌<◌, ◌≡◌, ◌≢◌, arith, Bool, true, false, has, ◌==◌, ◌||◌, bit_or,
}
use spim_curses.Base.Fields.{bit_and_low}
use spim_curses.Cpu.Defs.{Cpu, bad_v_addr_reg, status, status_exl}
use spim_curses.Cpu.Exception.{raise_at, exc_ad_el, exc_ad_es, exc_dbe, exc_int}
use spim_curses.Cpu.Exception.Raise.{
  of_exception, IsRaised, raise_at-IsRaised, raise_at-status, raise_at-frame, raise_at-cpr,
}
use spim_curses.Machine.{Machine, Outcome, done}
use spim_curses.Memory.Defs.{Memory, mm_io_bot}
use spim_curses.Memory.Fault.{bad_mem_read, bad_mem_write, near_stack, in_text}
use spim_curses.Memory.Access.{read_mem_half, read_mem_word, set_mem_half, set_mem_word}
use spim_curses.Memory.Access.View.{is_mapped, aligned_word}

-- The processor after an exception about an address: the flag and coprocessor 0 are all that is
-- changed, and there BadVAddr, Status by EXL, Cause and EPC.
pub record IsFaulted (excode a : ℕ) (c c' : Cpu) : Type 0 where
  pub raised : IsRaised excode c c'
  pub address : c'.cpr bad_v_addr_reg ≡ a
  pub level : status c' ≡ bit_or (status c) status_exl
  pub same : c' ≡ record c { cpr = c'.cpr; exception_occurred = true }
  pub others :
      (n : ℕ) → c'.cpr n ≡ (if n == bad_v_addr_reg || of_exception n then c'.cpr n else c.cpr n)

raise_at-IsFaulted :
    (excode a : ℕ) (c : Cpu)
    → excode < 32
    → excode ≢ exc_int
    → IsFaulted excode a c (raise_at excode a c)
raise_at-IsFaulted excode a c h p =
    let (r, at) = raise_at-IsRaised excode a c h p in
    record {
      raised = r;
      address = at;
      level = raise_at-status excode a c p;
      same = raise_at-frame excode a c p;
      others = λ n. raise_at-cpr excode a c n p;
    }

-- The access gave `x` and an exception for the address; nothing else of the machine is changed,
-- besides the flag that a write sets.
abbrev pub FaultsWith {ℓ} : {A : Type ℓ} → ℕ → ℕ → A → Bool → Machine → Outcome A → Type ℓ
FaultsWith excode a x modified m o =
    (c : Cpu) × (o
      ≡ done x (record m { cpu = c; mem = record (m.mem) { data_modified = modified } }))
    × IsFaulted excode a m.cpu c

unaligned_word : (a : ℕ) → a % 4 ≢ 0 → has a 0x3 ≡ true
unaligned_word a h = ground (arith, bit_and_low 2 a)

unaligned_half : (a : ℕ) → a % 2 ≢ 0 → has a 0x1 ≡ true
unaligned_half a h = ground (arith, bit_and_low 1 a)

module _ (a : ℕ) (m : Machine) where
  -- A read and a write of a word at an address that is no multiple of four raise the address
  -- exceptions of loads and of stores, with the address in BadVAddr; the read gives 0. In the
  -- processor only the flag of exceptions and, in coprocessor 0, BadVAddr, Cause, EPC and Status,
  -- by EXL, change; nothing else of the machine does, besides the flag for modified data that a
  -- write sets.
  pub word-unaligned :
      (v : ℕ)
      → a % 4 ≢ 0
      → FaultsWith exc_ad_el a 0 m.mem.data_modified m (read_mem_word a m)
        × FaultsWith exc_ad_es a tt true m (set_mem_word a v m)
  unfolding read_mem_word bad_mem_read set_mem_word bad_mem_write
  word-unaligned v h =
      let r = raise_at-IsFaulted exc_ad_el a m.cpu (omega arith) (omega arith) in
      let s = raise_at-IsFaulted exc_ad_es a m.cpu (omega arith) (omega arith) in
      (
        (raise_at exc_ad_el a m.cpu, ground (arith, unaligned_word a h), r),
        (raise_at exc_ad_es a m.cpu, ground (arith, unaligned_word a h), s),
      )

  -- A read and a write of a half at an odd address raise the address exceptions of loads and of
  -- stores, with the address in BadVAddr; nothing but what these exceptions change is changed,
  -- besides the flag that a write sets.
  pub half-unaligned :
      (v : ℕ)
      → a % 2 ≢ 0
      → FaultsWith exc_ad_el a 0 m.mem.data_modified m (read_mem_half a m)
        × FaultsWith exc_ad_es a tt true m (set_mem_half a v m)
  unfolding read_mem_half bad_mem_read set_mem_half bad_mem_write
  half-unaligned v h =
      let r = raise_at-IsFaulted exc_ad_el a m.cpu (omega arith) (omega arith) in
      let s = raise_at-IsFaulted exc_ad_es a m.cpu (omega arith) (omega arith) in
      (
        (raise_at exc_ad_el a m.cpu, ground (arith, unaligned_half a h), r),
        (raise_at exc_ad_es a m.cpu, ground (arith, unaligned_half a h), s),
      )

-- No segment has the address, nor can one be made to have it.
pub record IsOutside (a : ℕ) (m : Memory) : Type 0 where
  pub unmapped : is_mapped m a ≡ false
  pub not_text : in_text m a ≡ false
  pub not_stack : near_stack m a ≡ false
  pub not_io : a < mm_io_bot

-- A read and a write of a word at an aligned address below the devices that no segment has, and
-- that is not near the stack, raise a data bus error with the address in BadVAddr; nothing
-- but what this exception changes is changed, besides the flag that a write sets.
pub word-IsOutside :
    (a v : ℕ) (m : Machine)
    → a % 4 ≡ 0
    → IsOutside a m.mem
    → FaultsWith exc_dbe a 0 m.mem.data_modified m (read_mem_word a m)
      × FaultsWith exc_dbe a tt true m (set_mem_word a v m)
unfolding read_mem_word bad_mem_read set_mem_word bad_mem_write
word-IsOutside a v m h out =
    let r = raise_at-IsFaulted exc_dbe a m.cpu (omega arith) (omega arith) in
    (
      (raise_at exc_dbe a m.cpu, ground (arith, aligned_word a h, out), r),
      (raise_at exc_dbe a m.cpu, ground (arith, aligned_word a h, out), r),
    )
