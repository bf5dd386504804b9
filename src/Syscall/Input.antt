-- ===== src/Syscall/Input.antt =====
-- CPU/syscall.cpp: the call that reads a string, and the bounds of its buffer.
use spim_curses.Base.{
  ℕ, zero, suc, ◌+◌, ◌-◌, ◌%◌, ◌^◌, ◌≤◌, ◌<◌, ◌≡◌, ◌≢◌, refl, ◌∙◌, ap, arith, true, ◌==◌,
  if◌then◌else◌, Option, none, some, List, [], ◌∷◌, ◌++◌, ◌⊎◌, inl, inr, length, length-append,
  update, update_ne, update_self, is_negative,
}
use spim_curses.Machine.{Machine, M, ◌>>=◌, ◌>>◌, done, bind}
use spim_curses.Memory.Defs.{Bytes, Memory, data_bot}
use spim_curses.Memory.Access.View.{byte_at}
use spim_curses.Memory.Layout.{IsLaidOut}
use spim_curses.Assembler.Store.Stored.{HoldsAt}
use spim_curses.Assembler.Store.Text.{chars}
use spim_curses.Syscall.{
  read_string, do_syscall, call_of, syscall_case, read_string_call, go_on, reg_v0, reg_a0, reg_a1,
  register, mark_data,
}
use spim_curses.Syscall.Dispatch.{do_syscall-some}
use spim_curses.Syscall.Console.{read_line, read_input, room_of}
use spim_curses.Syscall.Pointer.{
  Pointer, data_segment, mem_reference, put_bytes, store_bytes_at, store_bytes_at-fitting,
}
use spim_curses.Syscall.Strings.{mem_reference-data}
use spim_curses.Syscall.System.{Outside}

length-read_line : (room : ℕ) (typed : List (Option ℕ)) → length (read_line room typed).0 ≤ room
unfolding read_line
length-read_line zero typed = omega arith
length-read_line (suc room) [] = omega arith
length-read_line (suc room) (none ∷ typed) = omega arith
length-read_line (suc room) (some b ∷ typed) = ground (arith, length-read_line room typed)

put_bytes-outside :
    (bs : List ℕ) (o i : ℕ) (seg : Bytes)
    → (i < o) ⊎ (o + length bs ≤ i)
    → put_bytes bs o seg i ≡ seg i
put_bytes-outside [] o i seg h = refl
put_bytes-outside (b ∷ bs) o i seg h =
    put_bytes-outside bs (o + 1) i (update seg o (b % 2 ^ 8)) (further h)
    ∙ update_ne seg o (b % 2 ^ 8) i (apart h)
  where
    further : (i < o) ⊎ (o + length (b ∷ bs) ≤ i) → (i < o + 1) ⊎ (o + 1 + length bs ≤ i)
    further (inl p) = inl (omega arith)
    further (inr p) = inr (omega arith)

    apart : (i < o) ⊎ (o + length (b ∷ bs) ≤ i) → o ≢ i
    apart (inl p) e = omega arith
    apart (inr p) e = omega arith

-- The bytes that `read_input` stores.
abbrev pub received : ℕ → Machine → List ℕ
received str_size m =
    (read_line (room_of str_size) m.console.typed).0
    ++ (if is_negative str_size then [] else if str_size == 0 then [] else 0 ∷ [])

length-received : (n : ℕ) (m : Machine) → n < 2 ^ 31 → length (received n m) ≤ n
length-received n m h = ground (
  arith,
  length-append (read_line (room_of n) m.console.typed).0
      (if is_negative n then [] else if n == 0 then [] else 0 ∷ []),
  length-read_line (room_of n) m.console.typed,
)

abbrev filled : List ℕ → ℕ → Memory → Memory
filled bs o m = record m { data_seg = put_bytes bs o m.data_seg; data_modified = true }

filled-outside :
    (bs : List ℕ) (a x : ℕ) (m : Memory)
    → data_bot ≤ a
    → (x < a) ⊎ (a + length bs ≤ x)
    → byte_at (filled bs (a - data_bot) m) x ≡ byte_at m x
unfolding byte_at
filled-outside bs a x m above h =
    ground (arith, put_bytes-outside bs (a - data_bot) (x - data_bot) m.data_seg)

-- A memory with another data segment.
abbrev with_data : Bytes → Memory → Memory
with_data seg m = record m { data_seg = seg; data_modified = true }

byte_at-with_data :
    (seg : Bytes) (o a : ℕ) (m : Memory)
    → a ≡ data_bot + o
    → a < m.data_top
    → byte_at (with_data seg m) a ≡ some (seg o)
unfolding byte_at
byte_at-with_data seg o a m h below =
    ground (arith, ap (λ t. some (seg t)) {x = a - data_bot} {y = o} (omega arith))

put_bytes-HoldsAt :
    (bs : List ℕ) (seg : Bytes) (o a : ℕ) (m : Memory)
    → a ≡ data_bot + o
    → a + length bs ≤ m.data_top
    → HoldsAt (with_data (put_bytes bs o seg) m) a (chars bs)
put_bytes-HoldsAt [] seg o a m h below = tt
put_bytes-HoldsAt (b ∷ bs) seg o a m h below =
    let seg' = update seg o (b % 2 ^ 8) in
    (
      byte_at-with_data (put_bytes bs (o + 1) seg') o a m h (omega arith)
          ∙ ap some (
              put_bytes-outside bs (o + 1) o seg' (inl (omega arith))
              ∙ update_self seg o (b % 2 ^ 8)),
      put_bytes-HoldsAt bs seg' (o + 1) (a + 1) m (omega arith) (omega arith),
    )

abbrev taken : ℕ → Machine → Machine
taken n m = record m {
  console = record (m.console) { typed = (read_line (room_of n) m.console.typed).1 };
}

-- The system call that reads a string into a buffer that begins and ends in the program's data
-- segment, of a size that is no negative `int`, in memory that is laid out, succeeds whatever is
-- typed: the bytes that `read_input` stores stand, as low bytes, from the start of the buffer on,
-- no register changes, nor does a byte of the data, stack and kernel data outside of the buffer.
pub do_syscall-read_string :
    (env : Outside) (a n : ℕ) (m : Machine)
    → m.cpu.r reg_v0 ≡ 8
    → m.cpu.r reg_a0 ≡ a
    → m.cpu.r reg_a1 ≡ n
    → n < 2 ^ 31
    → IsLaidOut m.mem
    → data_bot ≤ a
    → a < m.mem.data_top
    → a + n ≤ m.mem.data_top
    → (m' : Machine) × (do_syscall env m ≡ done true m')
      × (m'.cpu ≡ m.cpu)
      × HoldsAt m'.mem a (chars (received n m))
      × ((x : ℕ) → (x < a) ⊎ (a + n ≤ x) → byte_at m'.mem x ≡ byte_at m.mem x)
unfolding call_of syscall_case read_string_call read_input
do_syscall-read_string env a n m v0 a0 a1 small l above below fits =
    let bs = received n m in
    let m' = record (taken n m) { mem = filled bs (a - data_bot) m.mem } in
    (
      m',
      do_syscall-some env m read_string (ap call_of v0)
          ∙ ap (λ t. go_on (λ k. bind (mem_reference t k) rest) m) a0
          ∙ ap (λ o. go_on (λ k. bind o rest) m) (mem_reference-data a m l above below)
          ∙ ap
              (λ t.
                go_on
                  (λ k.
                    bind (store_bytes_at env (received t m) buffer (taken t m)) (λ _. mark_data))
                  m)
              a1
          ∙ ap (λ o. go_on (λ k. bind o (λ _. mark_data)) m)
              (store_bytes_at-fitting env bs (a - data_bot) (taken n m)
                (omega (arith, length-received n m small))),
      refl,
      put_bytes-HoldsAt bs m.mem.data_seg (a - data_bot) a m.mem (omega arith)
          (omega (arith, length-received n m small)),
      λ x h. filled-outside bs a x m.mem above (within x h),
    )
  where
    buffer : Pointer
    buffer = record { segment = data_segment; offset = a - data_bot }

    rest : Pointer → M (Unit {0})
    rest p = do size ← register reg_a1; str ← read_input size; store_bytes_at env str p; mark_data

    within : (x : ℕ) → (x < a) ⊎ (a + n ≤ x) → (x < a) ⊎ (a + length (received n m) ≤ x)
    within x (inl p) = inl p
    within x (inr p) = inr (omega (arith, length-received n m small))
