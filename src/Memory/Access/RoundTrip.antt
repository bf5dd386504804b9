-- ===== src/Memory/Access/RoundTrip.antt =====
-- CPU/mem.cpp: reads and writes of mapped addresses against the flat memory, and reads after
-- writes.
use spim_curses.Base.{
  ℕ, ◌+◌, ◌*◌, ◌/◌, ◌%◌, ◌^◌, ◌<◌, ◌≡◌, refl, ◌∙◌, ap, arith, true, IsWord, some, inl, inr,
}
use spim_curses.Base.{sext8, sext16}
use spim_curses.Machine.{Machine, Outcome, done}
use spim_curses.Memory.Defs.{Bytes, Memory, get8, get16, get32, put8, put16, put32}
use spim_curses.Memory.Layout.{IsLaidOut, SameBounds}
use spim_curses.Memory.Access.{
  read_mem_byte, read_mem_half, read_mem_word, set_mem_byte, set_mem_half, set_mem_word,
}
use spim_curses.Memory.Access.View.{
  byte_at, is_mapped, locate, byte_at-locate, locate-aligned, mapped_of_byte_at, aligned_word,
  aligned_half, aligned_byte, stored, word_byte, put32-Writes, put16-Writes, put8-Writes, IsWritten,
  IsAligned, stored-IsWritten,
}

-- The layout is a matter of the bounds, which writes leave alone.
IsLaidOut-stored :
    (element : Bytes → ℕ → Bytes) (a : ℕ) (m : Memory)
    → IsLaidOut m
    → IsLaidOut (stored element a m)
unfolding stored
IsLaidOut-stored element a m l = ground arith

SameBounds-stored :
    (element : Bytes → ℕ → Bytes) (a : ℕ) (m : Memory) → SameBounds m (stored element a m)
unfolding stored
SameBounds-stored element a m = record {
  top = ground arith;
  stack = ground arith;
  limit = ground arith;
}

-- A write of `n` bytes succeeds, changes nothing but the memory, and there just those bytes
-- of the flat memory; the segments stay laid out.
abbrev pub WritesTo : ℕ → (ℕ → ℕ → Machine → Outcome (Unit {0})) → Type 0
WritesTo n write =
    (a v : ℕ) (m : Machine)
    → IsLaidOut m.mem
    → a % n ≡ 0
    → is_mapped m.mem a ≡ true
    → (mem : Memory) × (write a v m ≡ done tt (record m { mem = mem }))
      × IsLaidOut mem
      × IsWritten n a v m.mem mem
      × SameBounds m.mem mem

-- `set_mem_word`, `set_mem_half` and `set_mem_byte` at a mapped and aligned address.
pub set_mem-WritesTo : WritesTo 4 set_mem_word × WritesTo 2 set_mem_half × WritesTo 1 set_mem_byte
unfolding set_mem_word set_mem_half set_mem_byte stored
set_mem-WritesTo = (
  λ a v m l h mapped. (
    stored (λ seg o. put32 seg (o / 4 * 4) v) a m.mem,
    ground (arith, aligned_word a h),
    IsLaidOut-stored (λ seg o. put32 seg (o / 4 * 4) v) a m.mem l,
    stored-IsWritten 4 a v (put32-Writes v) l (inr (inr refl), h) mapped,
    SameBounds-stored (λ seg o. put32 seg (o / 4 * 4) v) a m.mem,
  ),
  λ a v m l h mapped. (
    stored (λ seg o. put16 seg (o / 2 * 2) v) a m.mem,
    ground (arith, aligned_half a h),
    IsLaidOut-stored (λ seg o. put16 seg (o / 2 * 2) v) a m.mem l,
    stored-IsWritten 2 a v (put16-Writes v) l (inr (inl refl), h) mapped,
    SameBounds-stored (λ seg o. put16 seg (o / 2 * 2) v) a m.mem,
  ),
  λ a v m l h mapped. (
    stored (λ seg o. put8 seg o v) a m.mem,
    ground (arith, aligned_byte a),
    IsLaidOut-stored (λ seg o. put8 seg o v) a m.mem l,
    stored-IsWritten 1 a v (put8-Writes v) l (inl refl, h) mapped,
    SameBounds-stored (λ seg o. put8 seg o v) a m.mem,
  ),
)

-- `some (b k)` is the byte at `a + k`, for each `k` below `n`.
abbrev pub Holds : ℕ → ℕ → (ℕ → ℕ) → Memory → Type 0
Holds n a b m = (k : ℕ) → k < n → byte_at m (a + k) ≡ some (b k)

-- At a mapped and aligned address the reads look into the segment that `locate` gives.
module _ (a : ℕ) (m : Machine) (mapped : is_mapped m.mem a ≡ true) where
  abbrev seg : Bytes
  seg = (locate m.mem a).0

  abbrev offset : ℕ
  offset = (locate m.mem a).1

  read_mem_word-locate : a % 4 ≡ 0 → read_mem_word a m ≡ done (get32 seg (offset / 4 * 4)) m
  unfolding read_mem_word locate
  read_mem_word-locate h = ground (arith, aligned_word a h)

  read_mem_half-locate :
      a % 2 ≡ 0 → read_mem_half a m ≡ done (sext16 (get16 seg (offset / 2 * 2))) m
  unfolding read_mem_half locate
  read_mem_half-locate h = ground (arith, aligned_half a h)

  read_mem_byte-locate : read_mem_byte a m ≡ done (sext8 (get8 seg offset)) m
  unfolding read_mem_byte locate
  read_mem_byte-locate = ground (arith, aligned_byte a)

module _ (a : ℕ) (b : ℕ → ℕ) (m : Machine) (l : IsLaidOut m.mem) where
  mapped_of_Holds : (n : ℕ) → 0 < n → Holds n a b m.mem → is_mapped m.mem a ≡ true
  mapped_of_Holds n p holds =
      mapped_of_byte_at m.mem a (b 0) (ap (byte_at m.mem) (omega arith) ∙ holds 0 p)

  same_byte :
      (n : ℕ) (al : IsAligned n a) (mapped : is_mapped m.mem a ≡ true)
      → Holds n a b m.mem
      → (k : ℕ) → k < n
      → (locate m.mem a).0 ((locate m.mem a).1 + k) ≡ b k
  same_byte n al mapped holds k p = cc (byte_at-locate n a m.mem l al mapped k p, holds k p)

  -- A word is read from its four bytes, the first the least significant.
  pub read_mem_word-Holds :
      a % 4 ≡ 0
      → Holds 4 a b m.mem
      → read_mem_word a m ≡ done (b 0 + b 1 * 2 ^ 8 + b 2 * 2 ^ 16 + b 3 * 2 ^ 24) m
  read_mem_word-Holds h holds =
      let mapped = mapped_of_Holds 4 (omega arith) holds in
      let al : IsAligned 4 a = (inr (inr refl), h) in
      ground (
        arith,
        read_mem_word-locate a m mapped h,
        locate-aligned 4 a m.mem l al mapped,
        same_byte 4 al mapped holds 0,
        same_byte 4 al mapped holds 1,
        same_byte 4 al mapped holds 2,
        same_byte 4 al mapped holds 3,
      )

  -- A half is read from its two bytes, and its sign extended.
  pub read_mem_half-Holds :
      a % 2 ≡ 0 → Holds 2 a b m.mem → read_mem_half a m ≡ done (sext16 (b 0 + b 1 * 2 ^ 8)) m
  read_mem_half-Holds h holds =
      let mapped = mapped_of_Holds 2 (omega arith) holds in
      let al : IsAligned 2 a = (inr (inl refl), h) in
      let low = same_byte 2 al mapped holds 0 (omega arith) in
      let high = same_byte 2 al mapped holds 1 (omega arith) in
      let even = locate-aligned 2 a m.mem l al mapped in
      read_mem_half-locate a m mapped h
      ∙ ap (λ v. done (sext16 v) m) {x = get16 (locate m.mem a).0 ((locate m.mem a).1 / 2 * 2)}
          {y = b 0 + b 1 * 2 ^ 8} (ground arith)

  -- A byte is read with its sign extended.
  pub read_mem_byte-Holds : Holds 1 a b m.mem → read_mem_byte a m ≡ done (sext8 (b 0)) m
  read_mem_byte-Holds holds =
      let mapped = mapped_of_Holds 1 (omega arith) holds in
      let al : IsAligned 1 a = (inl refl, omega arith) in
      let only = same_byte 1 al mapped holds 0 (omega arith) in
      read_mem_byte-locate a m mapped
      ∙ ap (λ v. done (sext8 v) m) {x = (locate m.mem a).0 (locate m.mem a).1} {y = b 0}
          (ground arith)

word_bytes :
    (v : ℕ)
    → IsWord v
    → word_byte v 0 + word_byte v 1 * 2 ^ 8 + word_byte v 2 * 2 ^ 16 + word_byte v 3 * 2 ^ 24 ≡ v
word_bytes v h = omega arith

half_bytes : (v : ℕ) → word_byte v 0 + word_byte v 1 * 2 ^ 8 ≡ v % 2 ^ 16
half_bytes v = omega arith

-- The machine after the write that `set_mem-WritesTo` describes.
module _ (a v : ℕ) (m : Machine) (l : IsLaidOut m.mem) where
  -- Where the segments are laid out, a word written at a mapped address that is a multiple of four
  -- succeeds: the four bytes there become those of the word, no other byte of the data, stack and
  -- kernel data changes, nothing but the memory changes, the segments stay laid out, and a read
  -- gives the word back.
  pub read_mem_word-set_mem_word :
      IsWord v
      → a % 4 ≡ 0
      → is_mapped m.mem a ≡ true
      → (mem : Memory) × (set_mem_word a v m ≡ done tt (record m { mem = mem }))
        × IsLaidOut mem
        × IsWritten 4 a v m.mem mem
        × (read_mem_word a (record m { mem = mem }) ≡ done v (record m { mem = mem }))
  read_mem_word-set_mem_word word h mapped =
      let (mem, writes, laid, written, same) = set_mem-WritesTo.0 a v m l h mapped in
      let m' = record m { mem = mem } in
      (
        mem,
        writes,
        laid,
        written,
        read_mem_word-Holds a (word_byte v) m' laid h written.new
            ∙ ap (λ w. done w m') (word_bytes v word),
      )

  -- Where the segments are laid out, a half written at a mapped even address succeeds: the two
  -- bytes there become the low ones of the value, no other byte changes, nor does anything but the
  -- memory, the segments stay laid out, and a read gives the low half back with its sign extended.
  pub read_mem_half-set_mem_half :
      a % 2 ≡ 0
      → is_mapped m.mem a ≡ true
      → (mem : Memory) × (set_mem_half a v m ≡ done tt (record m { mem = mem }))
        × IsLaidOut mem
        × IsWritten 2 a v m.mem mem
        × (read_mem_half a (record m { mem = mem })
            ≡ done (sext16 (v % 2 ^ 16)) (record m { mem = mem }))
  read_mem_half-set_mem_half h mapped =
      let (mem, writes, laid, written, same) = set_mem-WritesTo.1 a v m l h mapped in
      let m' = record m { mem = mem } in
      (
        mem,
        writes,
        laid,
        written,
        read_mem_half-Holds a (word_byte v) m' laid h written.new
            ∙ ap (λ w. done (sext16 w) m') (half_bytes v),
      )

  -- Where the segments are laid out, a byte written at a mapped address succeeds: the byte there
  -- becomes the low one of the value, no other byte changes, nor does anything but the memory, the
  -- segments stay laid out, and a read gives the low byte back with its sign extended.
  pub read_mem_byte-set_mem_byte :
      is_mapped m.mem a ≡ true
      → (mem : Memory) × (set_mem_byte a v m ≡ done tt (record m { mem = mem }))
        × IsLaidOut mem
        × IsWritten 1 a v m.mem mem
        × (read_mem_byte a (record m { mem = mem })
            ≡ done (sext8 (v % 2 ^ 8)) (record m { mem = mem }))
  read_mem_byte-set_mem_byte mapped =
      let (mem, writes, laid, written, same) = set_mem-WritesTo.2 a v m l (omega arith) mapped in
      let m' = record m { mem = mem } in
      (mem, writes, laid, written, read_mem_byte-Holds a (word_byte v) m' laid written.new)
