-- ===== src/Startup/Stack.antt =====
-- CPU/spim-utils.cpp `copy_str_to_stack`: the bytes that it leaves on the stack.
use spim_curses.Base.{
  ℕ, ◌+◌, ◌-◌, ◌≤◌, ◌<◌, ◌≡◌, refl, ◌∙◌, ap, arith, true, List, [], ◌∷◌, ◌++◌, ◌⊎◌, inl, inr,
  length, add32, sub32,
}
use mathlib.Core.Path.{subst}
use spim_curses.Assembler.Store.Stored.{HoldsAt}
use spim_curses.Assembler.Store.Text.{chars}
use spim_curses.Cpu.Defs.{set_r}
use spim_curses.Machine.{Machine, done, bind}
use spim_curses.Memory.Access.View.{byte_at, is_mapped}
use spim_curses.Memory.Access.RoundTrip.{set_mem-WritesTo}
use spim_curses.Memory.Defs.{Memory, stack_top}
use spim_curses.Memory.Layout.{IsLaidOut}
use spim_curses.Startup.{reg_sp, set_sp, push_byte, push_bytes, copy_str_to_stack}

in_stack-mapped : (a : ℕ) (m : Memory) → m.stack_bot ≤ a → a < stack_top → is_mapped m a ≡ true
in_stack-mapped a m h k = ground arith

-- The machine once `n` bytes have been pushed, the last of them at `$sp`.
pub record IsPushed (s : List ℕ) (m m' : Machine) : Type 0 where
  pub pointer : m'.cpu.r reg_sp ≡ m.cpu.r reg_sp - length s
  pub holds : HoldsAt m'.mem (m.cpu.r reg_sp - length s + 1) (chars s)
  pub others :
      (x : ℕ)
      → (x < m.cpu.r reg_sp - length s + 1) ⊎ (m.cpu.r reg_sp < x)
      → byte_at m'.mem x ≡ byte_at m.mem x
  pub layout : IsLaidOut m'.mem
  pub stack : m'.mem.stack_bot ≡ m.mem.stack_bot

push_byte-IsPushed :
    (c : ℕ) (m : Machine)
    → IsLaidOut m.mem
    → m.mem.stack_bot < m.cpu.r reg_sp
    → m.cpu.r reg_sp < stack_top
    → (m' : Machine) × (push_byte c m ≡ done tt m') × IsPushed (c ∷ []) m m'
unfolding push_byte
push_byte-IsPushed c m l above below =
    let sp = m.cpu.r reg_sp in
    let mapped = in_stack-mapped sp m.mem (omega arith) below in
    let (mem, writes, laid, written, same) = set_mem-WritesTo.2 sp c m l (omega arith) mapped in
    (
      record m { mem = mem; cpu = set_r reg_sp (sub32 sp 1) m.cpu },
      ap (λ o. bind o (λ _. set_sp (sub32 sp 1))) writes,
      record {
        pointer = omega arith;
        holds = (ap (byte_at mem) (omega arith) ∙ written.new 0 (omega arith), tt);
        others = λ x h. written.old x (beside x h);
        layout = laid;
        stack = same.stack;
      },
    )
  where
    beside :
        (x : ℕ)
        → (x < m.cpu.r reg_sp - 1 + 1) ⊎ (m.cpu.r reg_sp < x)
        → (x < m.cpu.r reg_sp) ⊎ (m.cpu.r reg_sp + 1 ≤ x)
    beside x (inl p) = inl (omega (arith, above))
    beside x (inr p) = inr (omega arith)

HoldsAt-same :
    (xs : List ℕ) (a : ℕ) (m m' : Memory)
    → ((x : ℕ) → a ≤ x → byte_at m' x ≡ byte_at m x)
    → HoldsAt m a xs
    → HoldsAt m' a xs
HoldsAt-same [] a m m' same h = tt
HoldsAt-same (x ∷ xs) a m m' same h =
    (same a (omega arith) ∙ h.0, HoldsAt-same xs (a + 1) m m' (λ y p. same y (omega arith)) h.1)

push_bytes-IsPushed :
    (s : List ℕ) (m : Machine)
    → IsLaidOut m.mem
    → m.mem.stack_bot + length s ≤ m.cpu.r reg_sp
    → m.cpu.r reg_sp < stack_top
    → (m' : Machine) × (push_bytes s m ≡ done tt m') × IsPushed s m m'
unfolding push_bytes
push_bytes-IsPushed [] m l room below = (
  m,
  refl,
  record { pointer = omega arith; holds = tt; others = λ x h. refl; layout = l; stack = refl },
)
push_bytes-IsPushed (c ∷ s) m l room below =
    let sp = m.cpu.r reg_sp in
    let (m1, first, p) = push_bytes-IsPushed s m l (omega arith) below in
    let (m2, last, q) =
      push_byte-IsPushed c m1 p.layout (omega (arith, p.stack, p.pointer, room))
        (omega (arith, p.pointer, below)) in
    (
      m2,
      ap (λ o. bind o (λ _. push_byte c)) first ∙ last,
      record {
        pointer = omega (arith, q.pointer, p.pointer);
        holds = (
          ap (byte_at m2.mem) (omega (arith, p.pointer)) ∙ q.holds.0,
          subst (λ t. HoldsAt m2.mem t (chars s)) (omega (arith, room))
              (HoldsAt-same (chars s) (sp - length s + 1) m1.mem m2.mem
                (λ x h. q.others x (inr (omega (arith, p.pointer)))) p.holds),
        );
        others = λ x h. q.others x (below_both x m1 p h) ∙ p.others x (widened x h);
        layout = q.layout;
        stack = q.stack ∙ p.stack;
      },
    )
  where
    widened :
        (x : ℕ)
        → (x < m.cpu.r reg_sp - length (c ∷ s) + 1) ⊎ (m.cpu.r reg_sp < x)
        → (x < m.cpu.r reg_sp - length s + 1) ⊎ (m.cpu.r reg_sp < x)
    widened x (inl h) = inl (omega (arith, h, room))
    widened x (inr h) = inr h

    below_both :
        (x : ℕ) (m1 : Machine)
        → IsPushed s m m1
        → (x < m.cpu.r reg_sp - length (c ∷ s) + 1) ⊎ (m.cpu.r reg_sp < x)
        → (x < m1.cpu.r reg_sp - 1 + 1) ⊎ (m1.cpu.r reg_sp < x)
    below_both x m1 p (inl h) = inl (omega (arith, h, p.pointer, room))
    below_both x m1 p (inr h) = inr (omega (arith, h, p.pointer, room))

length-ended : (s : List ℕ) → length (s ++ (0 ∷ [])) ≡ length s + 1
length-ended [] = refl
length-ended (c ∷ s) = omega (arith, length-ended s)

-- A string copied to the stack, where there is room above the stack's bottom, in memory that is
-- laid out, stands with its zero byte at the address that is given, as low bytes; the stack
-- pointer is one below it, all other bytes are as they were, and the segments stay laid out.
pub copy_str_to_stack-IsPushed :
    (s : List ℕ) (m : Machine)
    → IsLaidOut m.mem
    → m.mem.stack_bot + length s < m.cpu.r reg_sp
    → m.cpu.r reg_sp < stack_top
    → (m' : Machine) × (copy_str_to_stack s m ≡ done (m.cpu.r reg_sp - length s) m')
      × IsPushed (s ++ (0 ∷ [])) m m'
unfolding copy_str_to_stack
copy_str_to_stack-IsPushed s m l room below =
    let (m', pushes, p) =
      push_bytes-IsPushed (s ++ (0 ∷ [])) m l (omega (arith, length-ended s, room)) below in
    (
      m',
      ap (λ o. bind o (λ _. λ k. done (add32 (k.cpu.r reg_sp) 1) k)) pushes
          ∙ ap (λ t. done t m') (omega (arith, p.pointer, length-ended s, room, below)),
      p,
    )
