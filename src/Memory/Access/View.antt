-- ===== src/Memory/Access/View.antt =====
-- CPU/mem.cpp: the reads and writes of mapped addresses, on one flat little-endian memory.
use spim_curses.Base.{
  ℕ, zero, suc, ◌+◌, ◌-◌, ◌*◌, ◌/◌, ◌%◌, ◌^◌, ◌≤◌, ◌<◌, ◌≡◌, arith, Bool, true, ◌||◌, if◌then◌else◌,
  Option, none, some, ◌⊎◌,
}
use spim_curses.Base.Fields.{bit_and_low}
use spim_curses.Memory.Defs.{Bytes, Memory, data_bot, stack_top, k_data_bot, put8, put16, put32}
use spim_curses.Memory.Layout.{IsLaidOut}
use spim_curses.Memory.Access.{in_data, in_stack, in_k_data, aligned}

-- The byte at an address of the data, stack or kernel data segment.
unfoldable pub byte_at : Memory → ℕ → Option ℕ
byte_at m a =
    if in_data m a
    then some (m.data_seg (a - data_bot))
    else if in_stack m a
    then some (m.stack_seg (a - m.stack_bot))
    else if in_k_data m a
    then some (m.k_data_seg (a - k_data_bot))
    else none

-- The address has a byte.
abbrev pub is_mapped : Memory → ℕ → Bool
is_mapped m a = in_data m a || (in_stack m a || in_k_data m a)

pub aligned_word : (a : ℕ) → a % 4 ≡ 0 → aligned a 0x3 ≡ true
aligned_word a h = ground (arith, bit_and_low 2 a)

pub aligned_half : (a : ℕ) → a % 2 ≡ 0 → aligned a 0x1 ≡ true
aligned_half a h = ground (arith, bit_and_low 1 a)

pub aligned_byte : (a : ℕ) → aligned a 0x0 ≡ true
aligned_byte a = ground (arith, bit_and_low 0 a)

-- What a write of `element` makes of the memory, if the address is mapped.
unfoldable pub stored : (Bytes → ℕ → Bytes) → ℕ → Memory → Memory
stored element a m =
    if in_data m a
    then record m { data_seg = element m.data_seg (a - data_bot); data_modified = true }
    else if in_stack m a
    then record m { stack_seg = element m.stack_seg (a - m.stack_bot); data_modified = true }
    else record m { k_data_seg = element m.k_data_seg (a - k_data_bot); data_modified = true }

-- The byte of weight `2 ^ (8 * k)`.
abbrev pub word_byte : ℕ → ℕ → ℕ
word_byte v zero = v % 2 ^ 8
word_byte v (suc k) = word_byte (v / 2 ^ 8) k

-- `element` writes the `n` low bytes of `v` at an offset, and nothing else.
pub record Writes (element : Bytes → ℕ → Bytes) (n v : ℕ) : Type 0 where
  pub inside : (seg : Bytes) (o k : ℕ) → o % n ≡ 0 → k < n → element seg o (o + k) ≡ word_byte v k
  pub outside :
      (seg : Bytes) (o i : ℕ) → o % n ≡ 0 → (i < o) ⊎ (o + n ≤ i) → element seg o i ≡ seg i

put32-inside :
    (v : ℕ) (seg : Bytes) (o k : ℕ)
    → o % 4 ≡ 0
    → k < 4
    → put32 seg (o / 4 * 4) v (o + k) ≡ word_byte v k
put32-inside v seg o zero h p = ground arith
put32-inside v seg o (suc zero) h p = ground arith
put32-inside v seg o (suc (suc zero)) h p = ground arith
put32-inside v seg o (suc (suc (suc zero))) h p = ground arith
put32-inside v seg o (suc (suc (suc (suc k)))) h p = absurd (omega arith)

put16-inside :
    (v : ℕ) (seg : Bytes) (o k : ℕ)
    → o % 2 ≡ 0
    → k < 2
    → put16 seg (o / 2 * 2) v (o + k) ≡ word_byte v k
put16-inside v seg o zero h p = ground arith
put16-inside v seg o (suc zero) h p = ground arith
put16-inside v seg o (suc (suc k)) h p = absurd (omega arith)

put8-inside :
    (v : ℕ) (seg : Bytes) (o k : ℕ) → o % 1 ≡ 0 → k < 1 → put8 seg o v (o + k) ≡ word_byte v k
put8-inside v seg o zero h p = ground arith
put8-inside v seg o (suc k) h p = absurd (omega arith)

pub put32-Writes : (v : ℕ) → Writes (λ seg o. put32 seg (o / 4 * 4) v) 4 v
put32-Writes v = record { inside = put32-inside v; outside = λ seg o i h p. ground arith }

pub put16-Writes : (v : ℕ) → Writes (λ seg o. put16 seg (o / 2 * 2) v) 2 v
put16-Writes v = record { inside = put16-inside v; outside = λ seg o i h p. ground arith }

pub put8-Writes : (v : ℕ) → Writes (λ seg o. put8 seg o v) 1 v
put8-Writes v = record { inside = put8-inside v; outside = λ seg o i h p. ground arith }

-- The flat memory after a write of `n` bytes at `a`.
pub record IsWritten (n a v : ℕ) (m m' : Memory) : Type 0 where
  pub new : (k : ℕ) → k < n → byte_at m' (a + k) ≡ some (word_byte v k)
  pub old : (b : ℕ) → (b < a) ⊎ (a + n ≤ b) → byte_at m' b ≡ byte_at m b

-- The sizes of an access, and an address that is aligned for it.
abbrev pub IsAligned : ℕ → ℕ → Type 0
IsAligned n a = ((n ≡ 1) ⊎ (n ≡ 2) ⊎ (n ≡ 4)) × (a % n ≡ 0)

below_top : (top a n k : ℕ) → IsAligned n a → top % 4 ≡ 0 → a < top → k < n → a + k < top
below_top top a n k al t h p = ground arith

offset_aligned : (bot a n : ℕ) → IsAligned n a → bot % 4 ≡ 0 → bot ≤ a → (a - bot) % n ≡ 0
offset_aligned bot a n al t h = ground arith

module _ {element : Bytes → ℕ → Bytes} (n a v : ℕ) {m : Memory} (w : Writes element n v)
    (l : IsLaidOut m) (al : IsAligned n a) (mapped : is_mapped m a ≡ true) where
  stored-new : (k : ℕ) → k < n → byte_at (stored element a m) (a + k) ≡ some (word_byte v k)
  unfolding byte_at stored
  stored-new k h = ground (
    arith,
    below_top m.data_top a n k,
    below_top stack_top a n k,
    below_top m.k_data_top a n k,
    offset_aligned data_bot a n,
    offset_aligned m.stack_bot a n,
    offset_aligned k_data_bot a n,
    w.inside m.data_seg (a - data_bot) k,
    w.inside m.stack_seg (a - m.stack_bot) k,
    w.inside m.k_data_seg (a - k_data_bot) k,
  )

  stored-old : (b : ℕ) → (b < a) ⊎ (a + n ≤ b) → byte_at (stored element a m) b ≡ byte_at m b
  unfolding byte_at stored
  stored-old b h = ground (
    arith,
    offset_aligned data_bot a n,
    offset_aligned m.stack_bot a n,
    offset_aligned k_data_bot a n,
    w.outside m.data_seg (a - data_bot) (b - data_bot),
    w.outside m.stack_seg (a - m.stack_bot) (b - m.stack_bot),
    w.outside m.k_data_seg (a - k_data_bot) (b - k_data_bot),
  )

  pub stored-IsWritten : IsWritten n a v m (stored element a m)
  stored-IsWritten = record { new = stored-new; old = stored-old }

-- The segment of a mapped address and the offset there.
unfoldable pub locate : Memory → ℕ → Bytes × ℕ
locate m a =
    if in_data m a
    then (m.data_seg, a - data_bot)
    else if in_stack m a
    then (m.stack_seg, a - m.stack_bot)
    else (m.k_data_seg, a - k_data_bot)

module _ (n a : ℕ) (m : Memory) (l : IsLaidOut m) (al : IsAligned n a)
    (mapped : is_mapped m a ≡ true) where
  pub byte_at-locate :
      (k : ℕ) → k < n → byte_at m (a + k) ≡ some ((locate m a).0 ((locate m a).1 + k))
  unfolding byte_at locate
  byte_at-locate k h =
      ground
        (arith, below_top m.data_top a n k, below_top stack_top a n k, below_top m.k_data_top a n k)

  pub locate-aligned : (locate m a).1 % n ≡ 0
  unfolding locate
  locate-aligned = ground (
    arith,
    offset_aligned data_bot a n,
    offset_aligned m.stack_bot a n,
    offset_aligned k_data_bot a n,
  )

-- An address with a byte is mapped.
pub mapped_of_byte_at : (m : Memory) (a b : ℕ) → byte_at m a ≡ some b → is_mapped m a ≡ true
unfolding byte_at
mapped_of_byte_at m a b h = ground arith
