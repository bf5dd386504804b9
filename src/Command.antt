-- ===== src/Command.antt =====
-- spim/spim.cpp: the words of a command and the options of the command line.
pub mod Prefix
pub mod Reached
pub mod Options
use Prim.Native.Char.{Char, code}
use Prim.Native.String.{String}
use spim_curses.Base.{
  ℕ, zero, suc, ◌-◌, Bool, true, false, not, ◌&&◌, ◌==◌, if◌then◌else◌, Option, none, some, List,
  [], ◌∷◌,
}
use spim_curses.Symbols.Defs.{Name, Symbols, label_is_defined}

-- The characters of a text of the source.
abbrev pub codes : String → List ℕ
codes String.[] = []
codes (String.◌∷◌ c s) = code c ∷ codes s

-- `str_prefix`. The count of characters that are still wanted stops at 0, where the source's goes
-- below.
unfoldable pub str_prefix : Name → Name → ℕ → Bool
str_prefix [] s2 min_match = min_match == 0
str_prefix (c ∷ s1) [] min_match = false
str_prefix (c ∷ s1) (d ∷ s2) min_match =
    let rest = str_prefix s1 s2 (min_match - 1) in if c == d then rest else false

-- What the scanner makes of the input: `Y_NL`, `Y_ID`, `Y_INT`, `Y_STR`, or another token.
pub data Token : Type 0 where
  newline : Token
  ident : Name → Token
  int : ℕ → Token
  str : Name → Token
  other : Token

-- What the scanner's rule for words reads. `check_keyword` is the look-up in the table of the
-- assembler's keywords, whose rows are not modelled: the token of a keyword, or 0.
pub record Scanner : Type 0 where
  pub check_keyword : Name → Bool → ℕ
  pub bare_machine : Bool
  pub accept_pseudo_insts : Bool
  pub only_id : Bool
  pub symbols : Symbols

-- A word is returned as a keyword.
abbrev pub is_keyword : Scanner → Name → Bool
is_keyword s name =
    not s.only_id && not (s.check_keyword name (not s.bare_machine && s.accept_pseudo_insts) == 0)

abbrev pub label_token : Name → Symbols → Option ℕ → Token
label_token name s none = ident name
label_token name s (some l) = if (s.label l).const_flag then int (s.label l).addr else ident name

-- The rule for `[a-zA-Z_\.][a-zA-Z0-9_\.]*`, besides its messages.
unfoldable pub scan_word : Scanner → Name → Token
unfolding label_is_defined
scan_word s name =
    if is_keyword s name
    then other
    else label_token name s.symbols (label_is_defined name s.symbols)

-- `..._CMD`
pub data Command : Type 0 where
  unknown exit read run step print print_sym print_all_regs reinitialize asm redo nop help : Command
  continue set_bkpt delete_bkpt list_bkpt dump_native_text dump_text : Command

-- The first of the words that a name abbreviates.
abbrev pub Abbreviation : Type 0
Abbreviation = Name × ℕ × Command

abbrev pub abbreviations : List Abbreviation
abbreviations =
    (codes "exit", 2, exit)
    ∷ (codes "quit", 2, exit)
    ∷ (codes "print", 1, print)
    ∷ (codes "print_symbols", 7, print_sym)
    ∷ (codes "print_all_regs", 7, print_all_regs)
    ∷ (codes "run", 2, run)
    ∷ (codes "read", 2, read)
    ∷ (codes "load", 2, read)
    ∷ (codes "reinitialize", 6, reinitialize)
    ∷ (codes "step", 1, step)
    ∷ (codes "help", 1, help)
    ∷ (codes "continue", 1, continue)
    ∷ (codes "breakpoint", 2, set_bkpt)
    ∷ (codes "delete", 1, delete_bkpt)
    ∷ (codes "list", 2, list_bkpt)
    ∷ (codes "dumpnative", 5, dump_native_text)
    ∷ (codes "dump", 4, dump_text)
    ∷ []

abbrev pub first_char_command : Name → Command
first_char_command [] = unknown
first_char_command (c ∷ name) = if c == 63 then help else if c == 46 then asm else unknown

unfoldable pub command_in : List Abbreviation → Name → Command
unfolding str_prefix
command_in [] name = first_char_command name
command_in ((word, min_match, command) ∷ rest) name =
    let later = command_in rest name in if str_prefix name word min_match then command else later

-- A reader of tokens; at the end of the input the simulator exits, which is `none`.
abbrev pub Reader {ℓ} : Type ℓ → Type ℓ
Reader A = List Token → Option (A × List Token)

unfoldable pub read_assembly_command : Reader Command
unfolding command_in
read_assembly_command [] = none
read_assembly_command (newline ∷ tokens) = some (redo, tokens)
read_assembly_command (ident name ∷ tokens) = some (command_in abbreviations name, tokens)
read_assembly_command (_ ∷ tokens) = some (unknown, tokens)

unfoldable pub flush_to_newline : Reader (Unit {0})
flush_to_newline [] = none
flush_to_newline (newline ∷ tokens) = some (tt, tokens)
flush_to_newline (_ ∷ tokens) = flush_to_newline tokens

abbrev then_give {ℓ} : {A : Type ℓ} → A → Option (Unit {0} × List Token) → Option (A × List Token)
then_give v none = none
then_give v (some (_, tokens)) = some (v, tokens)

unfoldable pub get_opt_int : Reader ℕ
unfolding flush_to_newline
get_opt_int [] = none
get_opt_int (int n ∷ tokens) = then_give n (flush_to_newline tokens)
get_opt_int (newline ∷ tokens) = some (0, tokens)
get_opt_int (_ ∷ tokens) = then_give 0 (flush_to_newline tokens)
