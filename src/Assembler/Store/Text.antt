-- ===== src/Assembler/Store/Text.antt =====
-- CPU/data.cpp: strings and runs of zero bytes.
use spim_curses.Base.{
  ℕ, zero, suc, ◌+◌, ◌%◌, ◌^◌, ◌≡◌, refl, arith, Bool, true, false, if◌then◌else◌, List, [], ◌∷◌,
}
use spim_curses.Base.{◌++◌, length}
use spim_curses.Assembler.State.{Assembler, skip}
use spim_curses.Assembler.Data.Counter.{IsInside, HasRoom}
use spim_curses.Assembler.Store.{store_byte, store_bytes, store_string, store_zeros}
use spim_curses.Assembler.Store.Stored.{Stores, IsStored, HasRoom-less, low_bytes}
use spim_curses.Assembler.Store.Bytes.{Stores-append, store_byte-Stores}

-- Characters as bytes.
abbrev pub chars : List ℕ → List ℕ
chars [] = []
chars (c ∷ string) = c % 2 ^ 8 ∷ chars string

length-chars : (string : List ℕ) → length (chars string) ≡ length string
length-chars [] = refl
length-chars (c ∷ string) = omega (arith, length-chars string)

abbrev pub zeros : ℕ → List ℕ
zeros zero = []
zeros (suc n) = 0 ∷ zeros n

skip-Stores : (s : Assembler) → IsInside s → Stores [] s (skip s)
skip-Stores s i = (
  s,
  refl,
  record {
    counter = omega arith;
    inside = i;
    holds = tt;
    keeps = λ x b out h. h;
    symbols = refl;
    room = λ n r. HasRoom-less n (0 + n) s (omega arith) r;
  },
)

store_bytes-Stores :
    (string : List ℕ) (s : Assembler)
    → IsInside s
    → HasRoom (length string) s
    → Stores (chars string) s (store_bytes string s)
unfolding store_bytes
store_bytes-Stores [] s i r = skip-Stores s i
store_bytes-Stores (c ∷ string) s i r =
    Stores-append (low_bytes 1 c) (chars string) s (store_byte c) (store_bytes string)
      (store_byte-Stores c s i (HasRoom-less 1 (length (c ∷ string)) s (omega arith) r))
      (λ s' p. store_bytes-Stores string s' p.inside (
        p.room (length string)
          (HasRoom-less (1 + length string) (length (c ∷ string)) s (omega arith) r)))

-- The zero byte at the end.
abbrev pub terminated : List ℕ → Bool → List ℕ
terminated string null_terminate = chars string ++ (if null_terminate then 0 ∷ [] else [])

-- `store_string`, inside the program's data segment, which can grow by a chunk past the string: it
-- succeeds, and the bytes from the counter on are those of the characters, followed by a zero byte
-- if that is asked for; every other mapped byte stays, the counter has moved past them and is
-- inside the segment, and the symbols are as they were.
pub store_string-Stores :
    (string : List ℕ) (null_terminate : Bool) (s : Assembler)
    → IsInside s
    → HasRoom (length string + 1) s
    → Stores (terminated string null_terminate) s (store_string string null_terminate s)
unfolding store_string
store_string-Stores string null_terminate s i r =
    Stores-append (chars string) (if null_terminate then 0 ∷ [] else []) s (store_bytes string)
      (if null_terminate then store_byte 0 else skip)
      (store_bytes-Stores string s i
        (HasRoom-less (length string) (length string + 1) s (omega arith) r))
      (λ s' p. last null_terminate s' p)
  where
    last :
        (b : Bool) (s' : Assembler)
        → IsStored (chars string) s s'
        → Stores (if b then 0 ∷ [] else []) s' ((if b then store_byte 0 else skip) s')
    last true s' p = store_byte-Stores 0 s' p.inside (
        p.room 1 (
          HasRoom-less (length (chars string) + 1) (length string + 1) s
            (omega (arith, length-chars string)) r))
    last false s' p = skip-Stores s' p.inside

pub store_zeros-Stores :
    (size : ℕ) (s : Assembler)
    → IsInside s
    → HasRoom size s
    → Stores (zeros size) s (store_zeros size s)
unfolding store_zeros
store_zeros-Stores zero s i r = skip-Stores s i
store_zeros-Stores (suc size) s i r =
    Stores-append (low_bytes 1 0) (zeros size) s (store_byte 0) (store_zeros size)
      (store_byte-Stores 0 s i (HasRoom-less 1 (suc size) s (omega arith) r))
      (λ s' p.
        store_zeros-Stores size s' p.inside
          (p.room size (HasRoom-less (1 + size) (suc size) s (omega arith) r)))
