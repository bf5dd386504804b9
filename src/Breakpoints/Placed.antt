-- ===== src/Breakpoints/Placed.antt =====
-- CPU/spim-utils.cpp: what the list of breakpoints says of the text segments.
use spim_curses.Base.{
  ℕ, ◌≡◌, refl, sym, ◌∙◌, ap, arith, Bool, true, false, ◌==◌, ==_iff, contradiction, if◌then◌else◌,
  Option, none, some, List, [], ◌∷◌,
}
use spim_curses.Breakpoints.{Bkpt, is_break, is_null}
use spim_curses.Breakpoints.Slots.{is_text, slot_at, put_slot, slot_at-put_slot}
use spim_curses.Memory.Defs.{Memory, Slot, break_inst}

-- The instruction that is on record for an address.
abbrev pub recorded : List Bkpt → ℕ → Option Slot
recorded [] a = none
recorded (b ∷ bkpts) a = let rest = recorded bkpts a in if b.addr == a then some b.inst else rest

-- An instruction of the program.
abbrev pub IsCode : Slot → Type 0
IsCode s = (is_break s ≡ false) × (is_null s ≡ false)

-- The text as the program has it: what is on record stands in for a breakpoint.
abbrev pub program_at : List Bkpt → Memory → ℕ → Slot
program_at bkpts m a = elim (recorded bkpts a) [ none ↦ slot_at m a | some s ↦ s ]

-- A breakpoint stands at each address on record, each of which is on record once.
abbrev pub IsPlaced : List Bkpt → Memory → Type 0
IsPlaced [] m = Unit
IsPlaced (b ∷ bkpts) m =
    (is_text m b.addr ≡ true)
    × (slot_at m b.addr ≡ break_inst)
    × IsCode b.inst
    × (recorded bkpts b.addr ≡ none)
    × IsPlaced bkpts m

-- The two memories have their text at the same addresses, and the same text but at one of them.
pub record DiffersAt (a : ℕ) (s : Slot) (m m' : Memory) : Type 0 where
  pub text : (x : ℕ) → is_text m' x ≡ is_text m x
  pub slots : (x : ℕ) → is_text m x ≡ true → slot_at m' x ≡ (if a == x then s else slot_at m x)

pub put_slot-DiffersAt :
    (a : ℕ) (s : Slot) (m : Memory) → is_text m a ≡ true → DiffersAt a s m (put_slot a s m)
unfolding put_slot
put_slot-DiffersAt a s m h = record {
  text = λ x. refl;
  slots = λ x k. slot_at-put_slot a x s m h k;
}

pub ==_sym : (a b : ℕ) → (a == b) ≡ (b == a)
==_sym a b = ground arith

-- What is on record elsewhere stays placed.
pub IsPlaced-DiffersAt :
    (bkpts : List Bkpt) (a : ℕ) (s : Slot) (m m' : Memory)
    → DiffersAt a s m m'
    → recorded bkpts a ≡ none
    → IsPlaced bkpts m
    → IsPlaced bkpts m'
IsPlaced-DiffersAt [] a s m m' d free p = tt
IsPlaced-DiffersAt (b ∷ bkpts) a s m m' d free (is, stands, code, once, rest) = (
  d.text b.addr ∙ is,
  d.slots b.addr is
      ∙ ap (λ t. if t then s else slot_at m b.addr) (==_sym a b.addr ∙ elsewhere (b.addr == a) free)
      ∙ stands,
  code,
  once,
  IsPlaced-DiffersAt bkpts a s m m' d (next (b.addr == a) free) rest,
)
  where
    elsewhere : (t : Bool) → (if t then some b.inst else recorded bkpts a) ≡ none → t ≡ false
    elsewhere false h = refl
    elsewhere true h = ground (arith, h)

    next :
        (t : Bool) → (if t then some b.inst else recorded bkpts a) ≡ none → recorded bkpts a ≡ none
    next false h = h
    next true h = ground (arith, h)

-- An address whose slot is no breakpoint is not on record.
pub IsPlaced-unrecorded :
    (bkpts : List Bkpt) (a : ℕ) (m : Memory)
    → IsPlaced bkpts m
    → is_break (slot_at m a) ≡ false
    → recorded bkpts a ≡ none
IsPlaced-unrecorded [] a m p h = refl
IsPlaced-unrecorded (b ∷ bkpts) a m (is, stands, code, once, rest) h =
    other (b.addr == a) refl ∙ IsPlaced-unrecorded bkpts a m rest h
  where
    other :
        (t : Bool)
        → (b.addr == a) ≡ t
        → (if t then some b.inst else recorded bkpts a) ≡ recorded bkpts a
    other false e = refl
    other true e = absurd (
        contradiction
          (sym h ∙ ap is_break (ap (slot_at m) (sym (((==_iff b.addr a).0) e)) ∙ stands)))

-- How the program's text is looked up.
module _ (bkpts : List Bkpt) (a : ℕ) where
  pub program_at-cons :
      (b : Bkpt) (m : Memory)
      → program_at (b ∷ bkpts) m a ≡ (if b.addr == a then b.inst else program_at bkpts m a)
  program_at-cons b m = choose (b.addr == a)
    where
      choose :
          (t : Bool)
          → (elim (if t then some b.inst else recorded bkpts a) [ none ↦ slot_at m a | some s ↦ s ])
            ≡ (if t then b.inst else program_at bkpts m a)
      choose true = refl
      choose false = refl

  pub program_at-none : (m : Memory) → recorded bkpts a ≡ none → program_at bkpts m a ≡ slot_at m a
  program_at-none m h = ap (λ o. elim o as (λ x. Slot) [ none ↦ slot_at m a | some s ↦ s ]) h

  pub program_at-same :
      (bkpts' : List Bkpt) (m m' : Memory)
      → recorded bkpts' a ≡ recorded bkpts a
      → slot_at m' a ≡ slot_at m a
      → program_at bkpts' m' a ≡ program_at bkpts m a
  program_at-same bkpts' m m' h k =
      ap (λ o. elim o as (λ x. Slot) [ none ↦ slot_at m' a | some s ↦ s ]) h
      ∙ ap (λ t. elim (recorded bkpts a) as (λ x. Slot) [ none ↦ t | some s ↦ s ]) k
