-- ===== src/Cpu/Exception/Raise.antt =====
-- CPU/run.cpp: `raise_exception`, and the return with `eret`.
use spim_curses.Base.{
  ℕ, ◌*◌, ◌/◌, ◌^◌, ◌<◌, ◌≡◌, ◌≢◌, ◌∙◌, ap, arith, true, if◌then◌else◌, Bool, ◌==◌, ◌||◌, bit_and,
  bit_or, sub32, has,
}
use spim_curses.Base.Fields.{bit_and_low, bit_and_high}
use spim_curses.Base.Masks.{
  bit_and_assoc, bit_and-bit_or, bit_and_absorb, bit_and_zero, bit_or_zero,
}
use spim_curses.Cpu.Defs.{
  Cpu, status, cause, epc, bad_v_addr_reg, status_exl, cause_bd, status_reg, cause_reg, epc_reg,
}
use spim_curses.Cpu.Exception.{
  raise_exception, raise_at, save_epc, mark_exception, round_down, interruptible, exc_int, ex_code,
}

-- The code field of a cause register whose code has been replaced.
replaced_field : (c e : ℕ) → e < 32 → bit_and (bit_or (bit_and c 0xffff_ff83) (e * 4)) 0x7c ≡ e * 4
replaced_field c e h =
    bit_and-bit_or (bit_and c 0xffff_ff83) (e * 4) 0x7c
    ∙ ap (λ t. bit_or t (bit_and (e * 4) 0x7c)) (bit_and_assoc c 0xffff_ff83 0x7c ∙ bit_and_zero c)
    ∙ bit_or_zero (bit_and (e * 4) 0x7c)
    ∙ omega (arith, bit_and_high 2 (e * 4) 31, bit_and_low 5 (e * 4 / 2 ^ 2))

-- What an exception leaves in coprocessor 0.
pub record IsRaised (excode : ℕ) (c c' : Cpu) : Type 0 where
  pub flagged : c'.exception_occurred ≡ true
  pub masked : has (status c') status_exl ≡ true
  pub code : ex_code c' ≡ excode
  pub return_to : epc c' ≡ (
      if has (status c) status_exl
      then epc c
      else round_down (if c.running_in_delay_slot then sub32 c.pc 4 else c.pc))
  pub registers : c'.r ≡ c.r
  pub at : c'.pc ≡ c.pc

-- An exception other than an interrupt sets the flag and EXL, puts its code into Cause, and
-- changes neither PC nor the integer registers; EPC becomes the PC rounded down, or that of the
-- branch in a delay slot, unless EXL was set, when EPC stays.
pub raise_exception-IsRaised :
    (excode : ℕ) (c : Cpu)
    → excode < 32
    → excode ≢ exc_int
    → IsRaised excode c (raise_exception excode c)
unfolding raise_exception save_epc mark_exception
raise_exception-IsRaised excode c h p = record {
  flagged = ground arith;
  masked = ground (arith, bit_and_absorb (status c) status_exl);
  code = ground (
    arith,
    replaced_field (cause c) excode h,
    replaced_field (bit_or (cause c) cause_bd) excode h,
  );
  return_to = ground arith;
  registers = ground arith;
  at = ground arith;
}

-- The exception with the address that it is about.
pub raise_at-IsRaised :
    (excode addr : ℕ) (c : Cpu)
    → excode < 32
    → excode ≢ exc_int
    → IsRaised excode c (raise_at excode addr c)
      × ((raise_at excode addr c).cpr bad_v_addr_reg ≡ addr)
unfolding raise_at
raise_at-IsRaised excode addr c h p =
    let r = raise_exception-IsRaised excode c h p in
    (
      record {
        flagged = r.flagged;
        masked = r.masked;
        code = r.code;
        return_to = r.return_to;
        registers = r.registers;
        at = r.at;
      },
      ground arith,
    )

-- The registers that an exception changes in coprocessor 0.
abbrev pub of_exception : ℕ → Bool
of_exception n = n == status_reg || n == cause_reg || n == epc_reg

pub raise_exception-frame :
    (excode : ℕ) (c : Cpu)
    → excode ≢ exc_int
    → raise_exception excode c
      ≡ record c { cpr = (raise_exception excode c).cpr; exception_occurred = true }
unfolding raise_exception mark_exception save_epc
raise_exception-frame excode c p = ground arith

pub raise_exception-cpr :
    (excode : ℕ) (c : Cpu) (n : ℕ)
    → excode ≢ exc_int
    → (raise_exception excode c).cpr n
      ≡ (if of_exception n then (raise_exception excode c).cpr n else c.cpr n)
unfolding raise_exception mark_exception save_epc
raise_exception-cpr excode c n p = ground arith

-- What the exception with an address changes: the flag and coprocessor 0, and there no register
-- but those of the exception.
pub raise_at-frame :
    (excode addr : ℕ) (c : Cpu)
    → excode ≢ exc_int
    → raise_at excode addr c
      ≡ record c { cpr = (raise_at excode addr c).cpr; exception_occurred = true }
unfolding raise_at raise_exception mark_exception save_epc
raise_at-frame excode addr c p = ground arith

pub raise_at-status :
    (excode addr : ℕ) (c : Cpu)
    → excode ≢ exc_int
    → status (raise_at excode addr c) ≡ bit_or (status c) status_exl
unfolding raise_at raise_exception mark_exception save_epc
raise_at-status excode addr c p = ground arith

pub raise_at-cpr :
    (excode addr : ℕ) (c : Cpu) (n : ℕ)
    → excode ≢ exc_int
    → (raise_at excode addr c).cpr n
      ≡ (if n == bad_v_addr_reg || of_exception n then (raise_at excode addr c).cpr n else c.cpr n)
unfolding raise_at raise_exception mark_exception save_epc
raise_at-cpr excode addr c n p = ground arith

-- A second exception before the return, neither of the two an interrupt, keeps the first one's EPC
-- and puts its own code into Cause.
pub raise_exception-nested :
    (first second : ℕ) (c : Cpu)
    → first < 32
    → first ≢ exc_int
    → second < 32
    → second ≢ exc_int
    → (epc (raise_exception second (raise_exception first c)) ≡ epc (raise_exception first c))
      × (ex_code (raise_exception second (raise_exception first c)) ≡ second)
raise_exception-nested first second c h p h' p' =
    let r = raise_exception-IsRaised first c h p in
    let s = raise_exception-IsRaised second (raise_exception first c) h' p' in
    (ground (arith, s.return_to, r.masked), s.code)

-- An interrupt is taken just when interrupts are on.
pub raise_exception-interrupt :
    (c : Cpu)
    → raise_exception exc_int c
      ≡ (if interruptible c then mark_exception exc_int (save_epc c) else c)
unfolding raise_exception
raise_exception-interrupt c = ground arith
