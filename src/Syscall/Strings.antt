-- ===== src/Syscall/Strings.antt =====
-- CPU/syscall.cpp: the calls on strings.
use spim_curses.Base.{
  ℕ, zero, suc, ◌+◌, ◌-◌, ◌%◌, ◌^◌, ◌≤◌, ◌<◌, ◌≡◌, ◌≢◌, refl, ◌∙◌, ap, arith, true, ◌==◌, ==_false,
  if◌then◌else◌, some, List, [], ◌∷◌, ◌++◌, length,
}
use spim_curses.Machine.{Machine, M, ◌>>=◌, get, done, bind}
use spim_curses.Syscall.Dispatch.{do_syscall-some}
use spim_curses.Memory.Defs.{Memory, data_bot}
use spim_curses.Memory.Access.View.{byte_at}
use spim_curses.Memory.Layout.{IsLaidOut}
use spim_curses.Assembler.State.{Assembler, ok}
use spim_curses.Assembler.Data.Counter.{IsInside, HasRoom}
use spim_curses.Assembler.Store.{store_string}
use spim_curses.Assembler.Store.Stored.{HoldsAt}
use spim_curses.Assembler.Store.Text.{chars, store_string-Stores}
use spim_curses.Syscall.{
  print_string, do_syscall, call_of, syscall_case, print_string_call, go_on, reg_v0, reg_a0,
}
use spim_curses.Syscall.Console.{push_text, write_output}
use spim_curses.Syscall.Pointer.{Pointer, data_segment, mem_reference, c_string, string_at}
use spim_curses.Syscall.System.{Outside}

-- No character is the zero byte.
abbrev pub IsText : List ℕ → Type 0
IsText [] = Unit
IsText (c ∷ string) = (c % 2 ^ 8 ≢ 0) × IsText string

in_data_byte :
    (m : Memory) (a b : ℕ)
    → data_bot ≤ a
    → a < m.data_top
    → byte_at m a ≡ some b
    → m.data_seg (a - data_bot) ≡ b
unfolding byte_at
in_data_byte m a b above below h = ground arith

c_string-HoldsAt :
    (string : List ℕ) (n a : ℕ) (m : Memory)
    → length string < n
    → data_bot ≤ a
    → a + length string < m.data_top
    → IsText string
    → HoldsAt m a (chars string ++ (0 ∷ []))
    → c_string n m.data_seg (a - data_bot) ≡ chars string
c_string-HoldsAt string zero a m room above below text holds = absurd (omega arith)
c_string-HoldsAt [] (suc n) a m room above below text holds =
    rw (in_data_byte m a 0 above (omega arith) holds.0) refl
c_string-HoldsAt (c ∷ string) (suc n) a m room above below text holds =
    let here = in_data_byte m a (c % 2 ^ 8) above (omega arith) holds.0 in
    let next =
      c_string-HoldsAt string n (a + 1) m (omega arith) (omega arith) (omega arith) text.1
        holds.1 in
    ap (λ b. if b == 0 then [] else b ∷ c_string n m.data_seg (a - data_bot + 1)) here
    ∙ ap (λ b. if b then [] else c % 2 ^ 8 ∷ c_string n m.data_seg (a - data_bot + 1))
        (==_false (c % 2 ^ 8) 0 text.0)
    ∙ ap (λ o. c % 2 ^ 8 ∷ c_string n m.data_seg o) {x = a - data_bot + 1} {y = a + 1 - data_bot}
        (omega arith)
    ∙ ap (λ rest. c % 2 ^ 8 ∷ rest) next

pub mem_reference-data :
    (a : ℕ) (m : Machine)
    → IsLaidOut m.mem
    → data_bot ≤ a
    → a < m.mem.data_top
    → mem_reference a m ≡ done (record { segment = data_segment; offset = a - data_bot }) m
unfolding mem_reference
mem_reference-data a m l above below = ground arith

abbrev pub printed : List ℕ → Machine → Machine
printed text m = record m {
  console = record (m.console) { output = push_text text m.console.output };
}

-- The call at an address of the data segment where the text stands.
do_syscall-print :
    (env : Outside) (string : List ℕ) (a : ℕ) (m : Machine)
    → m.cpu.r reg_v0 ≡ 4
    → m.cpu.r reg_a0 ≡ a
    → IsLaidOut m.mem
    → data_bot ≤ a
    → a + length string < m.mem.data_top
    → IsText string
    → HoldsAt m.mem a (chars string ++ (0 ∷ []))
    → do_syscall env m ≡ done true (printed (chars string) m)
unfolding call_of syscall_case print_string_call
do_syscall-print env string a m v0 a0 l above below text holds =
    do_syscall-some env m print_string (ap call_of v0)
    ∙ ap (λ t. go_on (λ k. bind (mem_reference t k) rest) m) a0
    ∙ ap (λ o. go_on (λ k. bind o rest) m) (mem_reference-data a m l above (omega arith))
    ∙ ap (λ t. done true (printed t m))
        (c_string-HoldsAt string (m.mem.data_top - data_bot - (a - data_bot)) a m.mem (omega arith)
          above below text holds)
  where
    rest : Pointer → M (Unit {0})
    rest p = do text' ← get (λ s. string_at env p s.mem); write_output text'

length-terminated : (string : List ℕ) → length (chars string ++ (0 ∷ [])) ≡ length string + 1
length-terminated [] = refl
length-terminated (c ∷ string) = omega (arith, length-terminated string)

-- What the assembler stores as a string with a zero byte at its end, inside the program's data
-- segment, which can grow by a chunk past the string, is what the system call that prints a string
-- puts on the console, when its argument is the address where the string was stored, no character
-- is a zero byte, and the memory is what the assembler left.
pub do_syscall-store_string :
    (env : Outside) (string : List ℕ) (s : Assembler) (m : Machine)
    → IsText string
    → IsInside s
    → HasRoom (length string + 1) s
    → m.cpu.r reg_v0 ≡ 4
    → m.cpu.r reg_a0 ≡ s.next_data_pc
    → (s' : Assembler) × (store_string string true s ≡ ok tt s')
      × (do_syscall env (record m { mem = s'.machine.mem })
          ≡ done true (printed (chars string) (record m { mem = s'.machine.mem })))
do_syscall-store_string env string s m text i r v0 a0 =
    let (s', stores, p) = store_string-Stores string true s i r in
    let end = p.inside in
    (
      s',
      stores,
      do_syscall-print env string s.next_data_pc (record m { mem = s'.machine.mem }) v0 a0
          end.layout i.above (omega (arith, end.below, p.counter, length-terminated string)) text
          p.holds,
    )
