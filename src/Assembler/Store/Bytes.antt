-- ===== src/Assembler/Store/Bytes.antt =====
-- CPU/data.cpp: bytes, halves and words that are stored at any alignment.
use spim_curses.Base.{
  ℕ, ◌/◌, ◌%◌, ◌^◌, ◌≡◌, refl, sym, ◌∙◌, ap, arith, Bool, true, false, if◌then◌else◌, bit_and, asr,
  IsWord, has, List, [], ◌∷◌, inl, inr, Bool-cases,
}
use spim_curses.Base.{◌++◌}
use mathlib.Core.Path.{subst, ap₂}
use spim_curses.Base.Fields.{bit_and_low}
use spim_curses.Memory.Access.{set_mem_byte, set_mem_half, set_mem_word}
use spim_curses.Memory.Access.RoundTrip.{set_mem-WritesTo}
use spim_curses.Assembler.State.{Assembler, A, Result, bind, ◌>>◌}
use spim_curses.Assembler.Data.{data_pc}
use spim_curses.Assembler.Data.Counter.{IsInside, HasRoom}
use spim_curses.Assembler.Store.{store_with, store_byte, store_half, store_word}
use spim_curses.Assembler.Store.Stored.{
  Stores, IsStored, IsStored-append, HasRoom-less, low_bytes, store_with-Stores,
}

-- One store after another.
pub Stores-append :
    (xs ys : List ℕ) (s : Assembler) (c d : A (Unit {0}))
    → Stores xs s (c s)
    → ((s' : Assembler) → IsStored xs s s' → Stores ys s' (d s'))
    → Stores (xs ++ ys) s ((c >> d) s)
Stores-append xs ys s c d (s', runs, p) next =
    let (s'', runs', q) = next s' p in
    (s'', ap (λ r. bind r (λ u. d)) runs ∙ runs', IsStored-append xs ys s s' s'' p q)

pub store_byte-Stores :
    (v : ℕ) (s : Assembler) → IsInside s → HasRoom 1 s → Stores (low_bytes 1 v) s (store_byte v s)
unfolding store_byte
store_byte-Stores v s i r =
    store_with-Stores 1 v set_mem_byte s set_mem-WritesTo.2 (omega arith) i r (omega arith)

-- The low and the high byte of a half.
half_bytes :
    (v : ℕ)
    → IsWord v
    → low_bytes 1 (bit_and v 0xff) ++ low_bytes 1 (bit_and (asr v 8) 0xff) ≡ low_bytes 2 v
half_bytes v h =
    ap₂ (λ a b. a ∷ b ∷ []) (omega (arith, bit_and_low 8 v))
      (ground (arith, bit_and_low 8 (asr v 8)))

-- The four bytes of a word.
word_bytes :
    (v : ℕ)
    → IsWord v
    → low_bytes 2 (bit_and v 0xffff) ++ low_bytes 2 (bit_and (asr v 16) 0xffff) ≡ low_bytes 4 v
word_bytes v h =
    let low : bit_and v 0xffff ≡ v % 2 ^ 16 = bit_and_low 16 v in
    let high : bit_and (asr v 16) 0xffff ≡ v / 2 ^ 16 = ground (arith, bit_and_low 16 (asr v 16)) in
    ap₂ (λ xs ys. xs ++ ys) (ap₂ (λ a b. a ∷ b ∷ []) (omega (arith, low)) (omega (arith, low)))
      (ap₂ (λ a b. a ∷ b ∷ []) (omega (arith, high)) (omega (arith, high)))

-- Which branch is taken, by the alignment of the program's counter.
by_counter :
    (mask : ℕ) (b : Bool) (x y : A (Unit {0})) (s : Assembler)
    → s.data_in_kernel ≡ false
    → has s.next_data_pc mask ≡ b
    → (if has (data_pc s) mask then x else y) s ≡ (if b then x else y) s
by_counter mask b x y s u h =
    ap (λ k. (if has (if k then s.next_k_data_pc else s.next_data_pc) mask then x else y) s) u
    ∙ ap (λ c. (if c then x else y) s) h

Stores-eq :
    (xs ys : List ℕ) (s : Assembler) (r r' : Result (Unit {0}))
    → xs ≡ ys
    → r ≡ r'
    → Stores xs s r'
    → Stores ys s r
Stores-eq xs ys s r r' e e' p = subst (λ zs. Stores zs s r) e (subst (Stores xs s) (sym e') p)

-- A half goes to any address.
pub store_half-Stores :
    (v : ℕ) (s : Assembler)
    → IsWord v
    → IsInside s
    → HasRoom 2 s
    → Stores (low_bytes 2 v) s (store_half v s)
unfolding store_half
store_half-Stores v s w i r = elim (Bool-cases (has s.next_data_pc 0x1)) [
  | inl odd ↦
      Stores-eq (low_bytes 1 low ++ low_bytes 1 high) (low_bytes 2 v) s (store_half v s)
        ((store_byte low >> store_byte high) s) (half_bytes v w)
        (by_counter 0x1 true (store_byte low >> store_byte high) (store_with set_mem_half 2 v) s
          i.user odd)
        (Stores-append (low_bytes 1 low) (low_bytes 1 high) s (store_byte low) (store_byte high)
          (store_byte-Stores low s i (HasRoom-less 1 2 s (omega arith) r))
          (λ s' p. store_byte-Stores high s' p.inside (p.room 1 r)))
  | inr even ↦
      Stores-eq (low_bytes 2 v) (low_bytes 2 v) s (store_half v s) (store_with set_mem_half 2 v s)
        refl
        (by_counter 0x1 false (store_byte low >> store_byte high) (store_with set_mem_half 2 v) s
          i.user even)
        (store_with-Stores 2 v set_mem_half s set_mem-WritesTo.1 (omega arith) i r
          (ground (arith, even, bit_and_low 1 s.next_data_pc)))
]
  where
    low : ℕ
    low = bit_and v 0xff

    high : ℕ
    high = bit_and (asr v 8) 0xff

-- `store_word` at any alignment of the counter, inside the program's data segment, which can grow
-- by a chunk past the word: it succeeds, the four bytes from the counter on are those of the word,
-- the least significant first, every other mapped byte stays, the counter has moved by four and is
-- inside the segment, and the symbols are as they were.
pub store_word-Stores :
    (v : ℕ) (s : Assembler)
    → IsWord v
    → IsInside s
    → HasRoom 4 s
    → Stores (low_bytes 4 v) s (store_word v s)
unfolding store_word
store_word-Stores v s w i r = elim (Bool-cases (has s.next_data_pc 0x3)) [
  | inl odd ↦
      Stores-eq (low_bytes 2 low ++ low_bytes 2 high) (low_bytes 4 v) s (store_word v s)
        ((store_half low >> store_half high) s) (word_bytes v w)
        (by_counter 0x3 true (store_half low >> store_half high) (store_with set_mem_word 4 v) s
          i.user odd)
        (Stores-append (low_bytes 2 low) (low_bytes 2 high) s (store_half low) (store_half high)
          (store_half-Stores low s (omega (arith, bit_and_low 16 v)) i
            (HasRoom-less 2 4 s (omega arith) r))
          (λ s' p.
            store_half-Stores high s' (omega (arith, bit_and_low 16 (asr v 16))) p.inside
              (p.room 2 r)))
  | inr even ↦
      Stores-eq (low_bytes 4 v) (low_bytes 4 v) s (store_word v s) (store_with set_mem_word 4 v s)
        refl
        (by_counter 0x3 false (store_half low >> store_half high) (store_with set_mem_word 4 v) s
          i.user even)
        (store_with-Stores 4 v set_mem_word s set_mem-WritesTo.0 (omega arith) i r
          (ground (arith, even, bit_and_low 2 s.next_data_pc)))
]
  where
    low : ℕ
    low = bit_and v 0xffff

    high : ℕ
    high = bit_and (asr v 16) 0xffff
