-- ===== src/Assembler/Store/Stored.antt =====
-- CPU/data.cpp: bytes that are stored at the counter of the data segment, one after another.
use spim_curses.Base.{
  ℕ, zero, suc, ◌+◌, ◌/◌, ◌%◌, ◌^◌, ◌≤◌, ◌<◌, ◌≡◌, refl, ◌∙◌, ap, arith, true, false, if◌then◌else◌,
  some, List, [], ◌∷◌, ◌⊎◌, inl,
}
use spim_curses.Base.{length, length-append}
use spim_curses.Base.{◌++◌}
use mathlib.Core.Path.{subst}
use spim_curses.Machine.{M}
use spim_curses.Memory.Defs.{Memory}
use spim_curses.Memory.Access.View.{byte_at, is_mapped, word_byte}
use spim_curses.Memory.Access.RoundTrip.{WritesTo}
use spim_curses.Memory.Layout.{SameBounds}
use spim_curses.Assembler.State.{Assembler, ok, Result, bind, lifted}
use spim_curses.Assembler.Data.{increment_data_pc, data_chunk}
use spim_curses.Assembler.Data.Counter.{IsInside, HasRoom, increment_data_pc-IsIncremented}
use spim_curses.Assembler.Store.{store_with}

-- The bytes from an address on.
abbrev pub HoldsAt : Memory → ℕ → List ℕ → Type 0
HoldsAt m a [] = Unit
HoldsAt m a (b ∷ bytes) = (byte_at m a ≡ some b) × HoldsAt m (a + 1) bytes

-- The bytes outside of a range that were mapped stay.
abbrev pub Keeps : ℕ → ℕ → Memory → Memory → Type 0
Keeps a n m m' = (x b : ℕ) → (x < a) ⊎ (a + n ≤ x) → byte_at m x ≡ some b → byte_at m' x ≡ some b

-- The bytes stand at the counter, which has moved past them; nothing else has changed.
pub record IsStored (bytes : List ℕ) (s s' : Assembler) : Type 0 where
  pub counter : s'.next_data_pc ≡ s.next_data_pc + length bytes
  pub inside : IsInside s'
  pub holds : HoldsAt s'.machine.mem s.next_data_pc bytes
  pub keeps : Keeps s.next_data_pc (length bytes) s.machine.mem s'.machine.mem
  pub symbols : s'.symbols ≡ s.symbols
  pub room : (n : ℕ) → HasRoom (length bytes + n) s → HasRoom n s'

-- A run that stores the bytes.
abbrev pub Stores : List ℕ → Assembler → Result (Unit {0}) → Type 0
Stores bytes s r = (s' : Assembler) × (r ≡ ok tt s') × IsStored bytes s s'

HoldsAt-Keeps :
    (xs : List ℕ) (m m' : Memory) (a b n : ℕ)
    → a + length xs ≤ b
    → Keeps b n m m'
    → HoldsAt m a xs
    → HoldsAt m' a xs
HoldsAt-Keeps [] m m' a b n h k holds = tt
HoldsAt-Keeps (x ∷ xs) m m' a b n h k holds = (
  k a x (inl (omega (arith, h))) holds.0,
  HoldsAt-Keeps xs m m' (a + 1) b n (omega (arith, h)) k holds.1,
)

HoldsAt-append :
    (xs ys : List ℕ) (m : Memory) (a : ℕ)
    → HoldsAt m a xs
    → HoldsAt m (a + length xs) ys
    → HoldsAt m a (xs ++ ys)
HoldsAt-append [] ys m a h k = subst (λ c. HoldsAt m c ys) (omega arith) k
HoldsAt-append (x ∷ xs) ys m a h k =
    (h.0, HoldsAt-append xs ys m (a + 1) h.1 (subst (λ c. HoldsAt m c ys) (omega arith) k))

HasRoom-eq : (m n : ℕ) (s : Assembler) → m ≡ n → HasRoom m s → HasRoom n s
HasRoom-eq m n s e r = subst (λ k. HasRoom k s) e r

pub HasRoom-less : (m n : ℕ) (s : Assembler) → m ≤ n → HasRoom n s → HasRoom m s
HasRoom-less m n s h r = record {
  limit = r.limit;
  room = omega (arith, h, r.room);
  within = omega (arith, h, r.within);
}

pub IsStored-append :
    (xs ys : List ℕ) (s s' s'' : Assembler)
    → IsStored xs s s'
    → IsStored ys s' s''
    → IsStored (xs ++ ys) s s''
IsStored-append xs ys s s' s'' p q = record {
  counter = omega (arith, p.counter, q.counter, length-append xs ys);
  inside = q.inside;
  holds =
      HoldsAt-append xs ys s''.machine.mem s.next_data_pc
        (HoldsAt-Keeps xs s'.machine.mem s''.machine.mem s.next_data_pc s'.next_data_pc (length ys)
          (omega (arith, p.counter)) q.keeps p.holds)
        (subst (λ c. HoldsAt s''.machine.mem c ys) p.counter q.holds);
  keeps = λ x b out h.
      q.keeps x b (ground (arith, out, p.counter, length-append xs ys))
        (p.keeps x b (ground (arith, out, length-append xs ys)) h);
  symbols = q.symbols ∙ p.symbols;
  room = λ n r. q.room n (
      p.room (length ys + n) (
        HasRoom-eq (length (xs ++ ys) + n) (length xs + (length ys + n)) s
          (omega (arith, length-append xs ys)) r));
}

-- The `n` low bytes of a value, the least significant first.
abbrev pub low_bytes : ℕ → ℕ → List ℕ
low_bytes zero v = []
low_bytes (suc n) v = v % 2 ^ 8 ∷ low_bytes n (v / 2 ^ 8)

pub length-low_bytes : (n v : ℕ) → length (low_bytes n v) ≡ n
length-low_bytes zero v = refl
length-low_bytes (suc n) v = omega (arith, length-low_bytes n (v / 2 ^ 8))

HoldsAt-low_bytes :
    (n a v : ℕ) (m : Memory)
    → ((k : ℕ) → k < n → byte_at m (a + k) ≡ some (word_byte v k))
    → HoldsAt m a (low_bytes n v)
HoldsAt-low_bytes zero a v m h = tt
HoldsAt-low_bytes (suc n) a v m h = (
  ap (byte_at m) (omega arith) ∙ h 0 (omega arith),
  HoldsAt-low_bytes n (a + 1) (v / 2 ^ 8) m
      (λ k p. ap (byte_at m) (omega arith) ∙ h (suc k) (omega (arith, p))),
)

HoldsAt-kept :
    (xs : List ℕ) (m m' : Memory) (a : ℕ)
    → ((x b : ℕ) → byte_at m x ≡ some b → byte_at m' x ≡ some b)
    → HoldsAt m a xs
    → HoldsAt m' a xs
HoldsAt-kept xs m m' a k h =
    HoldsAt-Keeps xs m m' a (a + length xs) 0 (omega arith) (λ x b out p. k x b p) h

HasRoom-SameBounds :
    (s : Assembler) (mem : Memory)
    → SameBounds s.machine.mem mem
    → (k : ℕ) → HasRoom k s
    → HasRoom k (record s { machine = record (s.machine) { mem = mem } })
HasRoom-SameBounds s mem same k r = record {
  limit = omega (arith, r.limit, same.limit);
  room = omega (arith, r.room, same.stack);
  within = omega (arith, r.within, same.limit);
}

mapped_at_counter : (s : Assembler) → IsInside s → is_mapped s.machine.mem s.next_data_pc ≡ true
mapped_at_counter s i = ground (arith, i.above, i.below)

store_with-user :
    (n v : ℕ) (write : ℕ → ℕ → M (Unit {0})) (s : Assembler)
    → s.data_in_kernel ≡ false
    → store_with write n v s
      ≡ bind (lifted (write s.next_data_pc v s.machine) s) (λ u. increment_data_pc n)
unfolding store_with
store_with-user n v write s h =
    ap
      (λ b.
        bind (lifted (write (if b then s.next_k_data_pc else s.next_data_pc) v s.machine) s)
          (λ u. increment_data_pc n))
      h

-- One write at an aligned counter, and the increment.
pub store_with-Stores :
    (n v : ℕ) (write : ℕ → ℕ → M (Unit {0})) (s : Assembler)
    → WritesTo n write
    → n < data_chunk
    → IsInside s
    → HasRoom n s
    → s.next_data_pc % n ≡ 0
    → Stores (low_bytes n v) s (store_with write n v s)
store_with-Stores n v write s writes small i r h =
    let (mem, runs, laid, written, same) =
      writes s.next_data_pc v s.machine i.layout h (mapped_at_counter s i) in
    let s1 : Assembler = record s { machine = record (s.machine) { mem = mem } } in
    let i1 : IsInside s1 = record {
      layout = laid;
      user = i.user;
      above = i.above;
      below = omega (arith, i.below, same.top);
    } in
    let r1 : (k : ℕ) → HasRoom k s → HasRoom k s1 = HasRoom-SameBounds s mem same in
    let (s2, runs', inc) = increment_data_pc-IsIncremented n s1 i1 (r1 n r) small in
    let len : length (low_bytes n v) ≡ n = length-low_bytes n v in
    (
      s2,
      store_with-user n v write s i.user
          ∙ ap (λ o. bind (lifted o s) (λ u. increment_data_pc n)) runs
          ∙ runs',
      record {
        counter = inc.counter ∙ omega (arith, len);
        inside = inc.inside;
        holds =
            HoldsAt-kept (low_bytes n v) mem s2.machine.mem s.next_data_pc inc.bytes
              (HoldsAt-low_bytes n s.next_data_pc v mem written.new);
        keeps = λ x b out p. inc.bytes x b (written.old x (rw⁻¹ len out) ∙ p);
        symbols = inc.symbols;
        room = λ k p.
            inc.room k (
              r1 (n + k)
                (HasRoom-eq (length (low_bytes n v) + k) (n + k) s (omega (arith, len)) p));
      },
    )
