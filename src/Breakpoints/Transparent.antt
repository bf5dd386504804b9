-- ===== src/Breakpoints/Transparent.antt =====
-- CPU/spim-utils.cpp: `add_breakpoint` and `delete_breakpoint` leave the program as it is.
use spim_curses.Base.{
  ℕ, ◌≡◌, refl, sym, ◌∙◌, ap, Bool, true, false, ◌==◌, ==_refl, if◌then◌else◌, none, some, List, [],
  ◌∷◌, Bool-cases, ==_iff, inl, inr,
}
use spim_curses.Breakpoints.{Bkpt, set_breakpoint, add_breakpoint, delete_breakpoint, no_exception}
use spim_curses.Breakpoints.Slots.{
  is_text, slot_at, put_slot, read_mem_inst-slot_at, set_mem_inst-put_slot,
}
use spim_curses.Breakpoints.Placed.{
  recorded, IsCode, program_at, IsPlaced, DiffersAt, put_slot-DiffersAt, IsPlaced-DiffersAt,
  IsPlaced-unrecorded, ==_sym, program_at-cons, program_at-none, program_at-same,
}
use spim_curses.Machine.{Machine, done}
use spim_curses.Memory.Defs.{Slot, break_inst}

abbrev with_breakpoint : ℕ → Slot → Machine → Machine
with_breakpoint addr old m = record m {
  cpu = no_exception m.cpu;
  mem = put_slot addr break_inst m.mem;
}

set_breakpoint-code :
    (addr : ℕ) (m : Machine)
    → is_text m.mem addr ≡ true
    → IsCode (slot_at m.mem addr)
    → set_breakpoint addr m
      ≡ done (slot_at m.mem addr) (with_breakpoint addr (slot_at m.mem addr) m)
unfolding set_breakpoint
set_breakpoint-code addr m text (no_break, here) =
    let m0 = record m { cpu = no_exception m.cpu } in
    rw (read_mem_inst-slot_at addr m0 text, no_break, set_mem_inst-put_slot addr break_inst m0 text)
      refl

-- Setting a breakpoint at an address of a text segment that holds an instruction of the program
-- succeeds: the instruction goes on record, a breakpoint stands at each address on record, each of
-- which is on record once, if it did so before, and the program, the text with what is on record
-- in place of the breakpoints, is the same at every address.
pub add_breakpoint-transparent :
    (addr : ℕ) (bkpts : List Bkpt) (m : Machine)
    → IsPlaced bkpts m.mem
    → is_text m.mem addr ≡ true
    → IsCode (slot_at m.mem addr)
    → (m' : Machine) × (add_breakpoint addr bkpts m
        ≡ done (record { addr = addr; inst = slot_at m.mem addr } ∷ bkpts) m')
      × IsPlaced (record { addr = addr; inst = slot_at m.mem addr } ∷ bkpts) m'.mem
      × ((a : ℕ)
          → is_text m.mem a ≡ true
          → program_at (record { addr = addr; inst = slot_at m.mem addr } ∷ bkpts) m'.mem a
            ≡ program_at bkpts m.mem a)
unfolding add_breakpoint
add_breakpoint-transparent addr bkpts m p text (no_break, here) =
    let old = slot_at m.mem addr in
    let m' = with_breakpoint addr old m in
    let d = put_slot-DiffersAt addr break_inst m.mem text in
    let free = IsPlaced-unrecorded bkpts addr m.mem p no_break in
    (
      m',
      rw (set_breakpoint-code addr m text (no_break, here), here) refl,
      (
        d.text addr ∙ text,
        d.slots addr text ∙ ap (λ t. if t then break_inst else old) (==_refl addr),
        (no_break, here),
        free,
        IsPlaced-DiffersAt bkpts addr break_inst m.mem m'.mem d free p,
      ),
      λ a h.
          program_at-cons bkpts a (record { addr = addr; inst = old }) m'.mem
          ∙ same a h (addr == a) refl,
    )
  where
    same :
        (a : ℕ)
        → is_text m.mem a ≡ true
        → (t : Bool) → (addr == a) ≡ t
        → (if t then slot_at m.mem addr else program_at bkpts (put_slot addr break_inst m.mem) a)
          ≡ program_at bkpts m.mem a
    same a h true e =
        let here' = ((==_iff addr a).0) e in
        ap (slot_at m.mem) here'
        ∙ sym (
            program_at-none bkpts a m.mem
              (ap (recorded bkpts) (sym here') ∙ IsPlaced-unrecorded bkpts addr m.mem p no_break))
    same a h false e = program_at-same bkpts a bkpts m.mem (put_slot addr break_inst m.mem) refl (
        (put_slot-DiffersAt addr break_inst m.mem text).slots a h
        ∙ ap (λ t. if t then break_inst else slot_at m.mem a) e)

-- What a deletion leaves.
pub record IsDeleted (addr : ℕ) (bkpts bkpts' : List Bkpt) (m m' : Machine) : Type 0 where
  pub cpu : m'.cpu ≡ m.cpu
  pub records : (a : ℕ) → recorded bkpts' a ≡ (if addr == a then none else recorded bkpts a)
  pub placed_still : IsPlaced bkpts' m'.mem
  pub text : (a : ℕ) → is_text m'.mem a ≡ is_text m.mem a
  pub slots :
      (a : ℕ)
      → is_text m.mem a ≡ true
      → slot_at m'.mem a ≡ (if addr == a then program_at bkpts m.mem addr else slot_at m.mem a)

if_same : {A : Type 0} (t : Bool) (x : A) → (if t then x else x) ≡ x
if_same true x = refl
if_same false x = refl

if_again :
    {A : Type 0} (t : Bool) (x y : A) → (if t then x else if t then x else y) ≡ (if t then x else y)
if_again true x y = refl
if_again false x y = refl

if_hidden :
    {A : Type 0} (t u : Bool) (x y z : A)
    → u ≡ t
    → (if t then x else y) ≡ (if t then x else if u then z else y)
if_hidden true u x y z h = refl
if_hidden false u x y z h = sym (ap (λ b. if b then z else y) h)

if_swap :
    {A : Type 0} (t u : Bool) (x y z : A)
    → ((t ≡ true) → u ≡ false)
    → (if u then z else if t then x else y) ≡ (if t then x else if u then z else y)
if_swap false u x y z h = refl
if_swap true u x y z h = ap (λ b. if b then z else x) (h refl)

chosen_here :
    (addr a : ℕ) (f : ℕ → Slot) (t : Bool) → (addr == a) ≡ t → (if t then f addr else f a) ≡ f a
chosen_here addr a f true e = ap f (((==_iff addr a).0) e)
chosen_here addr a f false e = refl

delete_none : (addr : ℕ) (m : Machine) → IsDeleted addr [] [] m m
delete_none addr m = record {
  cpu = refl;
  records = λ a. sym (if_same (addr == a) none);
  placed_still = tt;
  text = λ a. refl;
  slots = λ a h. sym (chosen_here addr a (slot_at m.mem) (addr == a) refl);
}

-- The first record is of the address.
delete_first :
    (addr : ℕ) (b : Bkpt) (bkpts bkpts' : List Bkpt) (m m' : Machine)
    → (b.addr == addr) ≡ true
    → is_text m.mem addr ≡ true
    → recorded bkpts addr ≡ none
    → IsDeleted addr bkpts bkpts' (record m { mem = put_slot addr b.inst m.mem }) m'
    → IsDeleted addr (b ∷ bkpts) bkpts' m m'
delete_first addr b bkpts bkpts' m m' here text once d = record {
  cpu = d.cpu;
  records = λ a.
      d.records a
      ∙ if_hidden (addr == a) (b.addr == a) none (recorded bkpts a) (some b.inst)
          (ap (λ x. x == a) ((==_iff b.addr addr).0 here));
  placed_still = d.placed_still;
  text = λ a. d.text a ∙ differs.text a;
  slots = λ a h.
      d.slots a (differs.text a ∙ h)
      ∙ ap (λ s. if addr == a then s else slot_at (put_slot addr b.inst m.mem) a) restored
      ∙ ap (λ s. if addr == a then b.inst else s) (differs.slots a h)
      ∙ if_again (addr == a) b.inst (slot_at m.mem a)
      ∙ ap (λ s. if addr == a then s else slot_at m.mem a) (sym on_record);
}
  where
    differs : DiffersAt addr b.inst m.mem (put_slot addr b.inst m.mem)
    differs = put_slot-DiffersAt addr b.inst m.mem text

    restored : program_at bkpts (put_slot addr b.inst m.mem) addr ≡ b.inst
    restored =
        program_at-none bkpts addr (put_slot addr b.inst m.mem) once
        ∙ differs.slots addr text
        ∙ ap (λ t. if t then b.inst else slot_at m.mem addr) (==_refl addr)

    on_record : program_at (b ∷ bkpts) m.mem addr ≡ b.inst
    on_record =
        program_at-cons bkpts addr b m.mem
        ∙ ap (λ t. if t then b.inst else program_at bkpts m.mem addr) here

-- The first record is of another address.
delete_later :
    (addr : ℕ) (b : Bkpt) (bkpts bkpts' : List Bkpt) (m m' : Machine)
    → (b.addr == addr) ≡ false
    → IsPlaced (b ∷ bkpts) m.mem
    → IsDeleted addr bkpts bkpts' m m'
    → IsDeleted addr (b ∷ bkpts) (b ∷ bkpts') m m'
delete_later addr b bkpts bkpts' m m' away (is, stands, code, once, rest) d = record {
  cpu = d.cpu;
  records = λ a.
      ap (λ o. if b.addr == a then some b.inst else o) (d.records a)
      ∙ if_swap (addr == a) (b.addr == a) none (recorded bkpts a) (some b.inst)
          (λ e. ap (λ x. b.addr == x) (sym ((==_iff addr a).0 e)) ∙ away);
  placed_still = (
    d.text b.addr ∙ is,
    d.slots b.addr is
        ∙ ap (λ t. if t then program_at bkpts m.mem addr else slot_at m.mem b.addr) apart
        ∙ stands,
    code,
    d.records b.addr ∙ ap (λ t. if t then none else recorded bkpts b.addr) apart ∙ once,
    d.placed_still,
  );
  text = d.text;
  slots = λ a h.
      d.slots a h
      ∙ ap (λ s. if addr == a then s else slot_at m.mem a)
          (sym (
            program_at-cons bkpts addr b m.mem
            ∙ ap (λ t. if t then b.inst else program_at bkpts m.mem addr) away));
}
  where
    apart : (addr == b.addr) ≡ false
    apart = ==_sym addr b.addr ∙ away

delete_breakpoint-IsDeleted :
    (addr : ℕ) (bkpts : List Bkpt) (m : Machine)
    → IsPlaced bkpts m.mem
    → is_text m.mem addr ≡ true
    → (bkpts' : List Bkpt) × (m' : Machine) × (delete_breakpoint addr bkpts m ≡ done bkpts' m')
      × IsDeleted addr bkpts bkpts' m m'
unfolding delete_breakpoint
delete_breakpoint-IsDeleted addr [] m p text = ([], m, refl, delete_none addr m)
delete_breakpoint-IsDeleted addr (b ∷ bkpts) m p text = elim (Bool-cases (b.addr == addr)) [
  | inl here ↦
      (let m1 = record m { mem = put_slot addr b.inst m.mem } in
        let d = put_slot-DiffersAt addr b.inst m.mem text in
        let free = ap (recorded bkpts) (sym ((==_iff b.addr addr).0 here)) ∙ p.3 in
        let still = IsPlaced-DiffersAt bkpts addr b.inst m.mem m1.mem d free p.4 in
        let (rest, m', runs, deleted) =
          delete_breakpoint-IsDeleted addr bkpts m1 still (d.text addr ∙ text) in
        (
          rest,
          m',
          rw (here, set_mem_inst-put_slot addr b.inst m text) runs,
          delete_first addr b bkpts rest m m' here text free deleted,
        ))
  | inr away ↦
      (let (rest, m', runs, deleted) = delete_breakpoint-IsDeleted addr bkpts m p.4 text in
        (b ∷ rest, m', rw (away, runs) refl, delete_later addr b bkpts rest m m' away p deleted))
]

-- Where a breakpoint stands at each address on record, each of which is on record once, deleting
-- at an address of a text segment succeeds and leaves that so: the address is no longer on record,
-- the processor is as it was, and the program, the text with what is on record in place of the
-- breakpoints, is the same at every address.
pub delete_breakpoint-transparent :
    (addr : ℕ) (bkpts : List Bkpt) (m : Machine)
    → IsPlaced bkpts m.mem
    → is_text m.mem addr ≡ true
    → (bkpts' : List Bkpt) × (m' : Machine) × (delete_breakpoint addr bkpts m ≡ done bkpts' m')
      × IsPlaced bkpts' m'.mem
      × (recorded bkpts' addr ≡ none)
      × (m'.cpu ≡ m.cpu)
      × ((a : ℕ) → is_text m.mem a ≡ true → program_at bkpts' m'.mem a ≡ program_at bkpts m.mem a)
delete_breakpoint-transparent addr bkpts m p text =
    let (rest, m', runs, d) = delete_breakpoint-IsDeleted addr bkpts m p text in
    (
      rest,
      m',
      runs,
      d.placed_still,
      d.records addr ∙ ap (λ t. if t then none else recorded bkpts addr) (==_refl addr),
      d.cpu,
      λ a h. same rest m' d a h (addr == a) refl,
    )
  where
    same :
        (rest : List Bkpt) (m' : Machine) (d : IsDeleted addr bkpts rest m m') (a : ℕ)
        → is_text m.mem a ≡ true
        → (t : Bool) → (addr == a) ≡ t
        → program_at rest m'.mem a ≡ program_at bkpts m.mem a
    same rest m' d a h true e =
        program_at-none rest a m'.mem
          (d.records a ∙ ap (λ t. if t then none else recorded bkpts a) e)
        ∙ d.slots a h
        ∙ ap (λ t. if t then program_at bkpts m.mem addr else slot_at m.mem a) e
        ∙ ap (program_at bkpts m.mem) ((==_iff addr a).0 e)
    same rest m' d a h false e =
        program_at-same bkpts a rest m.mem m'.mem
          (d.records a ∙ ap (λ t. if t then none else recorded bkpts a) e)
          (d.slots a h ∙ ap (λ t. if t then program_at bkpts m.mem addr else slot_at m.mem a) e)
