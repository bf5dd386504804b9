-- ===== src/Assembler/Data/Counter.antt =====
-- CPU/data.cpp: the counter of the data segment stays inside the segment, which grows for it.
use spim_curses.Base.{
  ℕ, ◌+◌, ◌-◌, ◌/◌, ◌^◌, ◌≤◌, ◌<◌, ◌≡◌, refl, arith, false, leb, add32, sub32, some, inl, inr,
  Bool-cases,
}
use spim_curses.Base.Fields.{bit_and_high, bit_and_low}
use spim_curses.Memory.Defs.{Memory, data_bot}
use spim_curses.Memory.Layout.{IsLaidOut}
use spim_curses.Memory.Access.View.{byte_at, mapped_of_byte_at}
use spim_curses.Memory.Growth.Data.{IsGrown, whole_words, expand_data-IsGrown}
use spim_curses.Assembler.State.{Assembler, ok}
use spim_curses.Assembler.Data.{increment_data_pc, data_chunk, round_chunk}

-- The counter points into the program's data segment.
pub record IsInside (s : Assembler) : Type 0 where
  pub layout : IsLaidOut s.machine.mem
  pub user : s.data_in_kernel ≡ false
  pub above : data_bot ≤ s.next_data_pc
  pub below : s.next_data_pc < s.machine.mem.data_top

-- The counter can move on by `n`, and the segment grow by a chunk from there.
pub record HasRoom (n : ℕ) (s : Assembler) : Type 0 where
  pub limit : s.machine.mem.data_size_limit < 2 ^ 31
  pub room : s.next_data_pc + n + data_chunk ≤ s.machine.mem.stack_bot
  pub within : s.next_data_pc + n - data_bot + data_chunk ≤ s.machine.mem.data_size_limit

round_chunk-eq : (n : ℕ) → 0 < n → n ≤ data_chunk → round_chunk n ≡ data_chunk
round_chunk-eq n h p = omega (
  arith,
  bit_and_high 16 (add32 n (data_chunk - 1)) 0xffff,
  bit_and_low 16 (add32 n (data_chunk - 1) / 2 ^ 16),
)

-- Bytes that were mapped are not among the new ones.
kept :
    (n : ℕ) (m m' : Memory)
    → IsLaidOut m
    → m.data_top + whole_words n ≤ m.stack_bot
    → IsGrown n m m'
    → (a b : ℕ) → byte_at m a ≡ some b
    → byte_at m' a ≡ some b
kept n m m' l room g a b p = ground (arith, g.bytes a, mapped_of_byte_at m a b p, p)

-- The counter after an increment, and the bytes.
pub record IsIncremented (delta : ℕ) (s s' : Assembler) : Type 0 where
  pub counter : s'.next_data_pc ≡ s.next_data_pc + delta
  pub inside : IsInside s'
  pub bytes : (a b : ℕ) → byte_at s.machine.mem a ≡ some b → byte_at s'.machine.mem a ≡ some b
  pub symbols : s'.symbols ≡ s.symbols
  pub room : (n : ℕ) → HasRoom (delta + n) s → HasRoom n s'

-- Where the counter points into the program's data segment and moves by less than 64K, and the
-- segment can grow by 64K from there, `increment_data_pc` succeeds: the counter does not wrap, it
-- points into the segment again, which stays laid out, every mapped byte stays, and what room
-- there was past the step is left.
pub increment_data_pc-IsIncremented :
    (delta : ℕ) (s : Assembler)
    → IsInside s
    → HasRoom delta s
    → delta < data_chunk
    → (s' : Assembler) × (increment_data_pc delta s ≡ ok tt s') × IsIncremented delta s s'
unfolding increment_data_pc
increment_data_pc-IsIncremented delta s i c h = elim (Bool-cases (leb top pc)) [
  | inr inside ↦ (
    record s { next_data_pc = pc },
    ground (arith, inside, i.user),
    record {
      counter = counter;
      inside = record {
        layout = i.layout;
        user = i.user;
        above = omega (arith, i.above, counter);
        below = ground (arith, inside);
      };
      bytes = λ a b p. p;
      symbols = refl;
      room = λ n r. record {
        limit = r.limit;
        room = omega (arith, r.room, counter);
        within = omega (arith, r.within, counter);
      };
    },
  )
  | inl past ↦
      let reached : top ≤ pc = ground (arith, past) in
      let below : top + data_chunk ≤ s.machine.mem.stack_bot =
        omega (arith, reached, counter, c.room) in
      let (mem, runs, grown) =
        expand_data-IsGrown data_chunk s.machine i.layout (omega arith) c.limit below
          (omega (arith, reached, counter, c.within, i.above, i.below)) in
      let first : 0 < add32 (sub32 pc top) 1 = omega (arith, reached, h, i.below, counter) in
      let last : add32 (sub32 pc top) 1 ≤ data_chunk =
        omega (arith, reached, h, i.below, counter) in
      (
        record s { next_data_pc = pc; machine = record (s.machine) { mem = mem } },
        rw (i.user, past, round_chunk-eq (add32 (sub32 pc top) 1) first last, runs) refl,
        record {
          counter = counter;
          inside = record {
            layout = grown.layout;
            user = i.user;
            above = omega (arith, i.above, counter);
            below = rw grown.top (omega (arith, h, i.below, counter));
          };
          bytes = kept data_chunk s.machine.mem mem i.layout below grown;
          symbols = refl;
          room = λ n r. record {
            limit = rw grown.limit r.limit;
            room = rw grown.stack (omega (arith, r.room, counter));
            within = rw grown.limit (omega (arith, r.within, counter));
          };
        },
      )
]
  where
    top : ℕ
    top = s.machine.mem.data_top

    pc : ℕ
    pc = add32 s.next_data_pc delta

    counter : pc ≡ s.next_data_pc + delta
    counter = omega (arith, i.below, h, i.layout.data_below_stack, i.layout.stack_below_top)
