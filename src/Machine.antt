-- ===== src/Machine.antt =====
-- The whole state of the simulator, and the monad of its routines.
use spim_curses.Base.{ℕ, Bool, Option, List}
use spim_curses.Cpu.Defs.{Cpu, Dest}
use spim_curses.Memory.Defs.{Memory, Devices}

-- The flags of CPU/spim.h that are set from the command line.
pub record Settings : Type 0 where
  pub bare_machine : Bool
  pub delayed_branches : Bool
  pub delayed_loads : Bool
  pub mapped_io : Bool

-- A call of the operating system's files, and what it will do: its result, and the bytes that a
-- `read` stores.
pub data FileCall : Type 0 where
  call_open : List ℕ → ℕ → ℕ → FileCall
  call_read : ℕ → ℕ → FileCall
  call_write : ℕ → List ℕ → FileCall
  call_close : ℕ → FileCall

pub record Answer : Type 0 where
  pub result : ℕ
  pub stored : List ℕ

-- The console. `input` has what each poll of `console_input_available` will find, `none` for no
-- character yet; `output` is what `put_console_char` was given, latest first.
pub record Console : Type 0 where
  pub input : List (Option ℕ)
  pub output : List ℕ
  pub ticks : List Bool  -- whether the timer has expired, at each time that it is read
  pub typed : List (Option ℕ)  -- what each `read` of a byte from the console gives; `none`: no byte
  pub answers : List Answer
  pub calls : List FileCall  -- latest first

-- The two slots for the result of a load that is delayed: the register and the value.
pub record Loads : Type 0 where
  pub slot1 : Option (Dest × ℕ)
  pub slot2 : Option (Dest × ℕ)

pub record Machine : Type 0 where
  pub cpu : Cpu
  pub mem : Memory
  pub devices : Devices
  pub console : Console
  pub loads : Loads
  pub settings : Settings
  pub label_addr : ℕ → ℕ  -- `addr` of the label with a number
  pub force_break : Bool
  pub spim_return_value : ℕ

-- Why `run_error` was called. It jumps back to the top level: nothing of the routine that called
-- it is done afterwards, and what was done before stays.
pub data RunError : Type 0 where
  stack_limit data_limit k_data_limit : RunError
  out_of_bounds bad_mask bad_io_read bad_io_write : RunError
  non_instruction undefined_symbol unknown_syscall text_limit k_text_limit odd_double : RunError

-- `fatal_error` ends the program. `too_deep`: branches in delay slots of branches are nested past
-- the bound that the model was given.
pub data Outcome {ℓ} (A : Type ℓ) : Type ℓ where
  done : A → Machine → Outcome A
  run_error : RunError → Machine → Outcome A
  fatal_error : Outcome A
  too_deep : Outcome A

abbrev pub M {ℓ} : Type ℓ → Type ℓ
M A = Machine → Outcome A

abbrev pub bind {ℓ κ} : {A : Type ℓ} {B : Type κ} → Outcome A → (A → M B) → Outcome B
bind (done a m) f = f a m
bind (run_error e m) f = run_error e m
bind fatal_error f = fatal_error
bind too_deep f = too_deep

infixl 5 ◌>>=◌ ◌>>◌
abbrev pub ◌>>=◌ {ℓ κ} : {A : Type ℓ} {B : Type κ} → M A → (A → M B) → M B
◌>>=◌ c f m = bind (c m) f

abbrev pub ◌>>◌ {ℓ} : {B : Type ℓ} → M (Unit {0}) → M B → M B
◌>>◌ c k m = bind (c m) (λ _. k)

abbrev pub pure {ℓ} : {A : Type ℓ} → A → M A
pure a m = done a m

abbrev pub skip : M (Unit {0})
skip m = done tt m

abbrev pub fail {ℓ} : {A : Type ℓ} → RunError → M A
fail e m = run_error e m

abbrev pub get {ℓ} : {A : Type ℓ} → (Machine → A) → M A
get f m = done (f m) m

abbrev pub on_cpu : (Cpu → Cpu) → M (Unit {0})
on_cpu f m = done tt (record m { cpu = f m.cpu })

abbrev pub on_mem : (Memory → Memory) → M (Unit {0})
on_mem f m = done tt (record m { mem = f m.mem })

abbrev pub on_console : (Console → Console) → M (Unit {0})
on_console f m = done tt (record m { console = f m.console })

abbrev pub on_devices : (Devices → Devices) → M (Unit {0})
on_devices f m = done tt (record m { devices = f m.devices })

-- The machine that a routine leaves.
abbrev pub left_by {ℓ} : {A : Type ℓ} → Machine → Outcome A → Machine
left_by m (done x m') = m'
left_by m _ = m
