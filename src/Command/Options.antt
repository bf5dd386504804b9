-- ===== src/Command/Options.antt =====
-- spim/spim.cpp `main`: the options of the command line.
use spim_curses.Base.{
  ℕ, Bool, true, false, ◌&&◌, ◌||◌, not, ◌==◌, if◌then◌else◌, Option, none, some, List, [], ◌∷◌,
}
use spim_curses.Command.{codes}
use spim_curses.Symbols.Defs.{Name, streq}

-- What the options set. `exception_file_name` is `none` for the default.
pub record Options : Type 0 where
  pub bare_machine : Bool
  pub delayed_branches : Bool
  pub delayed_loads : Bool
  pub accept_pseudo_insts : Bool
  pub quiet : Bool
  pub assemble : Bool
  pub load_exception_handler : Bool
  pub exception_file_name : Option Name
  pub mapped_io : Bool
  pub initial_text_size : ℕ
  pub initial_data_size : ℕ
  pub initial_data_limit : ℕ
  pub initial_stack_size : ℕ
  pub initial_stack_limit : ℕ
  pub initial_k_text_size : ℕ
  pub initial_k_data_size : ℕ
  pub initial_k_data_limit : ℕ
  pub dump_user_segments : Bool
  pub dump_all_segments : Bool
  pub print_usage_msg : Bool

-- `streq (argv [i], long) || streq (argv [i], short)`
abbrev is : Name → Name → Name → Bool
is arg long short = streq arg long || streq arg short

-- The options without a value, but for those behind the files.
unfoldable pub flag_option : Name → Options → Option Options
flag_option arg o =
    if is arg (codes "-asm") (codes "-a")
    then some (record o { bare_machine = false; delayed_branches = false; delayed_loads = false })
    else if is arg (codes "-bare") (codes "-b")
    then some (record o {
      bare_machine = true;
      delayed_branches = true;
      delayed_loads = true;
      quiet = true;
    })
    else if is arg (codes "-delayed_branches") (codes "-db")
    then some (record o { delayed_branches = true })
    else if is arg (codes "-delayed_loads") (codes "-dl")
    then some (record o { delayed_loads = true })
    else if is arg (codes "-exception") (codes "-e")
    then some (record o { load_exception_handler = true })
    else if is arg (codes "-noexception") (codes "-ne")
    then some (record o { load_exception_handler = false })
    else if is arg (codes "-mapped_io") (codes "-mio")
    then some (record o { mapped_io = true })
    else if is arg (codes "-nomapped_io") (codes "-nmio")
    then some (record o { mapped_io = false })
    else if is arg (codes "-pseudo") (codes "-p")
    then some (record o { accept_pseudo_insts = true })
    else if is arg (codes "-nopseudo") (codes "-np")
    then some (record o { accept_pseudo_insts = false })
    else if is arg (codes "-quiet") (codes "-q")
    then some (record o { quiet = true })
    else if is arg (codes "-noquiet") (codes "-nq")
    then some (record o { quiet = false })
    else if is arg (codes "-trap") (codes "-t")
    then some (record o { load_exception_handler = true })
    else if is arg (codes "-notrap") (codes "-nt")
    then some (record o { load_exception_handler = false })
    else none

-- The options whose value is the argument behind; `atoi` is that of the C library.
unfoldable pub value_option : (Name → ℕ) → Name → Name → Options → Option Options
value_option atoi arg value o =
    if is arg (codes "-exception_file") (codes "-ef")
    then some (record o { exception_file_name = some value; load_exception_handler = true })
    else if is arg (codes "-trap_file") (codes "-tf")
    then some (record o { exception_file_name = some value; load_exception_handler = true })
    else if is arg (codes "-stext") (codes "-st")
    then some (record o { initial_text_size = atoi value })
    else if is arg (codes "-sdata") (codes "-sd")
    then some (record o { initial_data_size = atoi value })
    else if is arg (codes "-ldata") (codes "-ld")
    then some (record o { initial_data_limit = atoi value })
    else if is arg (codes "-sstack") (codes "-ss")
    then some (record o { initial_stack_size = atoi value })
    else if is arg (codes "-lstack") (codes "-ls")
    then some (record o { initial_stack_limit = atoi value })
    else if is arg (codes "-sktext") (codes "-skt")
    then some (record o { initial_k_text_size = atoi value })
    else if is arg (codes "-skdata") (codes "-skd")
    then some (record o { initial_k_data_size = atoi value })
    else if is arg (codes "-lkdata") (codes "-lkd")
    then some (record o { initial_k_data_limit = atoi value })
    else none

-- The options that stand behind the files in the chain, and what is no option.
unfoldable pub last_option : Name → Options → Options
last_option arg o =
    if streq arg (codes "-assemble")
    then record o { assemble = true }
    else if streq arg (codes "-dump")
    then record o { dump_user_segments = true }
    else if streq arg (codes "-full_dump")
    then record o { dump_all_segments = true }
    else record o { print_usage_msg = true }

abbrev starts_with_dash : Name → Bool
starts_with_dash [] = false
starts_with_dash (c ∷ name) = c == 45

-- `-file` or `-f` with something behind it, or no option at all: all that follows is the program's.
abbrev pub is_file : Name → Bool → Bool
is_file arg behind = (is arg (codes "-file") (codes "-f") && behind) || not (starts_with_dash arg)

-- How the loop ends: without a file, or with `argv [i + 1]`, which is `none` for the NULL at the
-- end, and the arguments of the program. `broken`: a value is read from that NULL.
pub data Parsed : Type 0 where
  no_file : Options → Parsed
  with_file : Option Name → List Name → Options → Parsed
  broken : Parsed

-- What an option with no value, or else one with a value, makes of the options, or what else is done.
abbrev pub choose :
    (Options → Parsed) → (Options → Parsed) → Parsed → Option Options → Option Options → Parsed
choose flag value otherwise (some o) v = flag o
choose flag value otherwise none (some o) = value o
choose flag value otherwise none none = otherwise

unfoldable pub parse_options : (Name → ℕ) → List Name → Options → Parsed
unfolding flag_option value_option last_option
parse_options atoi [] o = no_file o
parse_options atoi (arg ∷ []) o =
    choose no_file (λ o'. broken)
      (if is_file arg false then with_file none [] o else no_file (last_option arg o))
      (flag_option arg o) (value_option atoi arg [] o)
parse_options atoi (arg ∷ (next ∷ rest)) o =
    choose (parse_options atoi (next ∷ rest)) (parse_options atoi rest)
      (if is_file arg true
        then with_file (some next) (next ∷ rest) o
        else parse_options atoi (next ∷ rest) (last_option arg o))
      (flag_option arg o) (value_option atoi arg next o)
