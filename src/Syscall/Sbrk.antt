-- ===== src/Syscall/Sbrk.antt =====
-- CPU/syscall.cpp: the call that asks for data.
use spim_curses.Base.{ℕ, ◌+◌, ◌-◌, ◌^◌, ◌≤◌, ◌<◌, ◌≡◌, ◌∙◌, ap, true}
use spim_curses.Cpu.Defs.{set_r}
use spim_curses.Machine.{Machine, M, ◌>>◌, done, bind}
use spim_curses.Memory.Defs.{Memory, data_bot}
use spim_curses.Memory.Layout.{IsLaidOut}
use spim_curses.Memory.Access.View.{byte_at}
use spim_curses.Memory.Segments.{expand_data}
use spim_curses.Memory.Growth.Data.{IsGrown, IsRequest, whole_words, expand_data-IsGrown}
use spim_curses.Syscall.Dispatch.{do_syscall-some}
use spim_curses.Syscall.{
  sbrk, do_syscall, call_of, syscall_case, sbrk_call, give, mark_data, go_on, reg_v0, reg_a0,
}
use spim_curses.Syscall.System.{Outside}

abbrev pub marked : Memory → Memory
marked mem = record mem { data_modified = true }

IsGrown-marked : (n : ℕ) (m m' : Memory) → IsGrown n m m' → IsGrown n m (marked m')
unfolding byte_at
IsGrown-marked n m m' g =
    let l = g.layout in
    record {
      top = g.top;
      layout = record {
        data_above = l.data_above;
        data_below_stack = l.data_below_stack;
        stack_below_top = l.stack_below_top;
        k_data_above = l.k_data_above;
        k_data_below_io = l.k_data_below_io;
        text_below_data = l.text_below_data;
        data_words = l.data_words;
        stack_words = l.stack_words;
        k_data_words = l.k_data_words;
      };
      stack = g.stack;
      limit = g.limit;
      bytes = g.bytes;
    }

-- The system call for more data, of a size that is within the limit and leaves the stack alone,
-- gives the old top of the data, where the new bytes begin, which are zero; the top rises by the
-- size in whole words, every byte that was mapped stays, and no register but the result's changes.
pub do_syscall-sbrk :
    (env : Outside) (n : ℕ) (m : Machine)
    → m.cpu.r reg_v0 ≡ 9
    → m.cpu.r reg_a0 ≡ n
    → IsLaidOut m.mem
    → IsRequest n
    → m.mem.data_size_limit < 2 ^ 31
    → m.mem.data_top + whole_words n ≤ m.mem.stack_bot
    → m.mem.data_top - data_bot + whole_words n ≤ m.mem.data_size_limit
    → (mem : Memory) × (do_syscall env m
        ≡ done true (record m { mem = mem; cpu = set_r reg_v0 m.mem.data_top m.cpu }))
      × IsGrown n m.mem mem
unfolding call_of syscall_case sbrk_call
do_syscall-sbrk env n m v0 a0 l req lim below within =
    let (mem, grows, g) = expand_data-IsGrown n m l req lim below within in
    (
      marked mem,
      do_syscall-some env m sbrk (ap call_of v0)
          ∙ ap (λ t. go_on (λ k. bind (expand_data t k) rest) m) a0
          ∙ ap (λ o. go_on (λ k. bind o rest) m) grows,
      IsGrown-marked n m.mem mem g,
    )
  where
    rest : Unit {0} → M (Unit {0})
    rest _ = do give m.mem.data_top; mark_data
