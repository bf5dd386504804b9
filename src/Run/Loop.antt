-- ===== src/Run/Loop.antt =====
-- CPU/run.cpp: `run_spim`.
pub mod Pacing
use spim_curses.Base.{
  ℕ, zero, suc, ◌-◌, min, Bool, true, false, ◌&&◌, not, Option, none, some, if◌then◌else◌, add32,
}
use spim_curses.Cpu.Defs.{Cpu}
use spim_curses.Cpu.Exception.{raise_exception, handle_exception, interrupt_pending, exc_int}
use spim_curses.Machine.{
  Machine, Settings, Outcome, M, ◌>>=◌, ◌>>◌, get, skip, pure, on_cpu, too_deep,
}
use spim_curses.Memory.Io.{check_memory_mapped_io}
use spim_curses.Run.Step.{step}
use spim_curses.Syscall.System.{Outside}

abbrev pub io_interval : ℕ
io_interval = 100

-- Memory-mapped IO is simulated.
abbrev pub with_io : Settings → Bool
with_io s = not s.bare_machine && s.mapped_io

-- `return`, or go on.
abbrev pub or_leave : M Bool → Option Bool → M Bool
or_leave k none = k
or_leave k (some b) = pure b

-- The inner loop, for `n` rounds.
unfoldable pub run_steps : M (Option Bool) → ℕ → M (Option Bool)
run_steps round zero = pure none
run_steps round (suc n) = do r ← round; elim r [ some b ↦ pure (some b) | none ↦ run_steps round n ]

-- The head of a round of the outer loop: devices, and a pending interrupt.
unfoldable pub between_steps : M (Unit {0})
between_steps = do
  io ← get (λ m. with_io m.settings)
  if io then check_memory_mapped_io else skip
  pending ← get (λ m. interrupt_pending m.cpu)
  if pending then (do on_cpu (raise_exception exc_int); on_cpu handle_exception) else skip
  λ m. pure tt (record m { force_break = false })

-- The outer loop. Each of its rounds takes at least one step off, so `steps_to_run` rounds are
-- enough.
unfoldable pub run_chunks : M (Option Bool) → ℕ → ℕ → ℕ → M Bool
run_chunks round zero next_step steps_to_run = pure true
run_chunks round (suc fuel) next_step zero = pure true
run_chunks round (suc fuel) next_step (suc left) = do
  between_steps
  let step_size = min next_step (suc left)
  r ← run_steps round step_size
  or_leave (run_chunks round fuel next_step (suc left - step_size)) r

-- `depth` bounds how deep delay slots may be nested: the instruction in the slot of a branch may
-- itself be a branch that is taken. Its `display` flag only prints.
unfoldable pub run_spim : Outside → ℕ → ℕ → ℕ → M Bool
unfolding run_steps run_chunks
run_spim env zero initial_pc steps_to_run m = too_deep
run_spim env (suc depth) initial_pc steps_to_run m =
    let run_slot : M Bool = λ m'. run_spim env depth (add32 m'.cpu.pc 4) 1 m' in
    let next_step = if with_io m.settings then io_interval else steps_to_run in
    run_chunks (step env run_slot) steps_to_run next_step steps_to_run
      (record m { cpu = record (m.cpu) { pc = initial_pc } })
