-- ===== src/Assembler/State.antt =====
-- The state that CPU/data.cpp, CPU/inst.cpp, CPU/sym-tbl.cpp and the parser's rules share.
use spim_curses.Base.{ℕ, Bool, Option, List}
use spim_curses.Machine.{Machine, Outcome, RunError, M}
use spim_curses.Symbols.Defs.{Symbols}

-- The two text and the two data segments have a location counter each, for the program and the
-- kernel.
pub record Assembler : Type 0 where
  pub machine : Machine
  pub symbols : Symbols
  pub next_data_pc : ℕ
  pub next_k_data_pc : ℕ
  pub data_in_kernel : Bool
  pub next_gp_item_addr : ℕ
  pub gp_midpoint : ℕ
  pub auto_alignment : Bool
  pub next_text_pc : ℕ
  pub next_k_text_pc : ℕ
  pub text_in_kernel : Bool
  pub data_dir : Bool
  pub text_dir : Bool
  pub this_line_labels : List ℕ
  pub serial : ℕ  -- how many instructions have been allocated
  pub owner : ℕ → Option ℕ  -- the number of the instruction that was stored last at an address

-- `endless`: a loop has not ended, or calls are nested, past the bound that the model was given.
pub data Result {ℓ} (A : Type ℓ) : Type ℓ where
  ok : A → Assembler → Result A
  stopped : RunError → Assembler → Result A
  aborted : Result A
  endless : Result A

abbrev pub A {ℓ} : Type ℓ → Type ℓ
A X = Assembler → Result X

abbrev pub bind {ℓ κ} : {X : Type ℓ} {Y : Type κ} → Result X → (X → A Y) → Result Y
bind (ok x s) f = f x s
bind (stopped e s) f = stopped e s
bind aborted f = aborted
bind endless f = endless

infixl 5 ◌>>=◌ ◌>>◌
abbrev pub ◌>>=◌ {ℓ κ} : {X : Type ℓ} {Y : Type κ} → A X → (X → A Y) → A Y
◌>>=◌ c f s = bind (c s) f

abbrev pub ◌>>◌ {ℓ} : {Y : Type ℓ} → A (Unit {0}) → A Y → A Y
◌>>◌ c k s = bind (c s) (λ _. k)

abbrev pub pure {ℓ} : {X : Type ℓ} → X → A X
pure x s = ok x s

abbrev pub skip : A (Unit {0})
skip s = ok tt s

abbrev pub get {ℓ} : {X : Type ℓ} → (Assembler → X) → A X
get f s = ok (f s) s

abbrev pub modify : (Assembler → Assembler) → A (Unit {0})
modify f s = ok tt (f s)

abbrev pub lifted {ℓ} : {X : Type ℓ} → Outcome X → Assembler → Result X
lifted (Outcome.done x m) s = ok x (record s { machine = m })
lifted (Outcome.run_error e m) s = stopped e (record s { machine = m })
lifted Outcome.fatal_error s = aborted
lifted Outcome.too_deep s = endless

-- A routine of the simulator.
abbrev pub machine_op {ℓ} : {X : Type ℓ} → M X → A X
machine_op c s = lifted (c s.machine) s

-- A routine of the symbol table that gives a label.
abbrev pub symbol_op : (Symbols → ℕ × Symbols) → A ℕ
symbol_op f s = ok ((f s.symbols).0) (record s { symbols = (f s.symbols).1 })
