-- ===== src/Command/Reached.antt =====
-- spim/spim.cpp `read_assembly_command`: each abbreviation reaches its command.
use spim_curses.Base.{
  ℕ, zero, suc, ◌≤◌, max, ◌≡◌, refl, sym, ◌∙◌, ap, arith, Bool, true, false, ◌||◌, ◌&&◌, ◌==◌, ltb,
  ltb→lt, if◌then◌else◌, Option, none, some, List, [], ◌∷◌, ◌++◌, length, get_elem?, Bool-cases,
  inl, inr,
}
use spim_curses.Command.{
  Command, Token, ident, int, other, label_token, Scanner, is_keyword, scan_word, Abbreviation,
  abbreviations, str_prefix, command_in, read_assembly_command,
}
use spim_curses.Command.Prefix.{IsAbbreviation, str_prefix-exact}
use spim_curses.Symbols.Defs.{Name, Symbols, label_is_defined}

-- How many characters two words have in common at their front.
abbrev common : Name → Name → ℕ
common [] w = 0
common (c ∷ v) [] = 0
common (c ∷ v) (d ∷ w) = let rest = common v w in if c == d then suc rest else 0

common-append : (name r s : Name) → length name ≤ common (name ++ r) (name ++ s)
common-append [] r s = omega arith
common-append (c ∷ name) r s = ground (arith, common-append name r s)

-- No abbreviation of one word is one of the others.
abbrev apart : Name → ℕ → List Abbreviation → Bool
apart v k [] = true
apart v k ((w, n, command) ∷ rest) = ltb (common w v) (max n k) && apart v k rest

abbrev clear : List Abbreviation → Bool
clear [] = true
clear ((v, k, command) ∷ rest) = apart v k rest && clear rest

not_shared :
    (name v w : Name) (k n : ℕ)
    → ltb (common w v) (max n k) ≡ true
    → IsAbbreviation name w n
    → str_prefix name v k ≡ true
    → ⊥
not_shared name v w k n h (r, joined, long) taken =
    let (s, joined', long') = (str_prefix-exact name v k).0 taken in
    omega (
      arith,
      common-append name r s,
      ap (λ x. common x (name ++ s)) joined,
      ap (common w) joined',
      ltb→lt (common w v) (max n k) h,
      long,
      long',
    )

abbrev entry : Option Abbreviation → Abbreviation
entry none = ([], 0, Command.unknown)
entry (some e) = e

and_left : (a b : Bool) → (a && b) ≡ true → a ≡ true
and_left a b h = ground (arith, h)

and_right : (a b : Bool) → (a && b) ≡ true → b ≡ true
and_right a b h = ground (arith, h)

apart-at :
    (v : Name) (k : ℕ) (table : List Abbreviation) (i : ℕ) (w : Name) (n : ℕ) (command : Command)
    → apart v k table ≡ true
    → get_elem? table i ≡ some (w, n, command)
    → ltb (common w v) (max n k) ≡ true
apart-at v k [] i w n command h found = ground (arith, found)
apart-at v k ((w', n', c') ∷ rest) zero w n command h found =
    ap (λ e. ltb (common e.0 v) (max e.1 k)) (sym (ap entry found))
    ∙ and_left (ltb (common w' v) (max n' k)) (apart v k rest) h
apart-at v k ((w', n', c') ∷ rest) (suc i) w n command h found =
    apart-at v k rest i w n command (and_right (ltb (common w' v) (max n' k)) (apart v k rest) h)
      found

reached_in :
    (table : List Abbreviation) (i : ℕ) (w : Name) (n : ℕ) (command : Command) (name : Name)
    → clear table ≡ true
    → get_elem? table i ≡ some (w, n, command)
    → IsAbbreviation name w n
    → command_in table name ≡ command
unfolding command_in
reached_in [] i w n command name h found short = ground (arith, found)
reached_in ((v, k, c) ∷ rest) zero w n command name h found short =
    ap (λ b. if b then c else command_in rest name)
      (ap (λ e. str_prefix name e.0 e.1) (ap entry found) ∙ (str_prefix-exact name w n).1 short)
    ∙ ap (λ e. e.2) (ap entry found)
reached_in ((v, k, c) ∷ rest) (suc i) w n command name h found short =
    elim (Bool-cases (str_prefix name v k)) [
      | inl taken ↦ absurd (
          not_shared name v w k n
            (apart-at v k rest i w n command (and_left (apart v k rest) (clear rest) h) found) short
            taken)
      | inr free ↦
          ap (λ b. if b then c else command_in rest name) free
          ∙ reached_in rest i w n command name (and_right (apart v k rest) (clear rest) h) found
              short
    ]

abbrev constant_label : Symbols → Option ℕ → Bool
constant_label s none = false
constant_label s (some l) = (s.label l).const_flag

-- The word is the name of a label that is a constant.
abbrev pub is_constant : Scanner → Name → Bool
is_constant s name = constant_label s.symbols (label_is_defined name s.symbols)

read_int_or_ident :
    (flag : Bool) (addr : ℕ) (name : Name) (tokens : List Token)
    → read_assembly_command ((if flag then int addr else ident name) ∷ tokens)
      ≡ some (if flag then Command.unknown else command_in abbreviations name, tokens)
unfolding read_assembly_command
read_int_or_ident true addr name tokens = refl
read_int_or_ident false addr name tokens = refl

read_word :
    (keyword : Bool) (s : Symbols) (found : Option ℕ) (name : Name) (tokens : List Token)
    → read_assembly_command ((if keyword then other else label_token name s found) ∷ tokens)
      ≡ some (
        if keyword || constant_label s found
            then Command.unknown
            else command_in abbreviations name,
        tokens,
      )
unfolding read_assembly_command
read_word true s found name tokens = refl
read_word false s none name tokens = refl
read_word false s (some l) name tokens =
    read_int_or_ident (s.label l).const_flag (s.label l).addr name tokens

read_scanned :
    (s : Scanner) (name : Name) (tokens : List Token)
    → read_assembly_command (scan_word s name ∷ tokens)
      ≡ some (
        if is_keyword s name || is_constant s name
            then Command.unknown
            else command_in abbreviations name,
        tokens,
      )
unfolding scan_word
read_scanned s name tokens =
    read_word (is_keyword s name) s.symbols (label_is_defined name s.symbols) name tokens

-- A typed word that abbreviates a word of the table of commands, with as many characters as the
-- table wants of it, or more, is read as the command of that word, whatever other words begin
-- alike, unless the scanner takes it as a keyword of the assembler or as the name of a constant:
-- then it is the unknown command. The input goes on behind it.
pub read_assembly_command-reached :
    (s : Scanner) (i : ℕ) (w : Name) (n : ℕ) (command : Command) (name : Name) (tokens : List Token)
    → get_elem? abbreviations i ≡ some (w, n, command)
    → IsAbbreviation name w n
    → read_assembly_command (scan_word s name ∷ tokens)
      ≡ some (if is_keyword s name || is_constant s name then Command.unknown else command, tokens)
read_assembly_command-reached s i w n command name tokens found short =
    read_scanned s name tokens
    ∙ ap
        (λ c. some (if is_keyword s name || is_constant s name then Command.unknown else c, tokens))
        (reached_in abbreviations i w n command name refl found short)
