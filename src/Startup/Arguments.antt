-- ===== src/Startup/Arguments.antt =====
-- CPU/spim-utils.cpp `initialize_stack`: the words of a command line.
use spim_curses.Base.{
  ℕ, zero, suc, ◌-◌, ◌≤◌, ◌<◌, ◌≡◌, refl, ◌∙◌, ap, arith, true, false, ◌==◌, ==_false,
  if◌then◌else◌, List, [], ◌∷◌, ◌++◌, length, length-append,
}
use spim_curses.Startup.{is_blank, skip_blanks, take_word, after_word, max_args, split_args}

-- A word, and what stands between words.
abbrev pub IsWordText : List ℕ → Type 0
IsWordText [] = Unit
IsWordText (c ∷ word) = (is_blank c ≡ false) × IsWordText word

abbrev pub AreBlanks : List ℕ → Type 0
AreBlanks [] = Unit
AreBlanks (c ∷ blanks) = (is_blank c ≡ true) × AreBlanks blanks

-- A word of the command line, and the blanks in front of it.
pub record Spaced : Type 0 where
  pub blanks : List ℕ
  pub first : ℕ
  pub more : List ℕ

abbrev pub word : Spaced → List ℕ
word w = w.first ∷ w.more

abbrev pub words : List Spaced → List (List ℕ)
words [] = []
words (w ∷ ws) = word w ∷ words ws

abbrev pub AreSpaced : List Spaced → Type 0
AreSpaced [] = Unit
AreSpaced (w ∷ ws) = AreBlanks w.blanks × IsWordText (word w) × AreSpaced ws

-- The command line: a space after each word but the last.
abbrev pub line : List Spaced → List ℕ
line [] = []
line (w ∷ []) = w.blanks ++ (word w ++ [])
line (w ∷ (v ∷ ws)) = w.blanks ++ (word w ++ (32 ∷ line (v ∷ ws)))

take_word-append : (w rest : List ℕ) → IsWordText w → take_word (w ++ (32 ∷ rest)) ≡ (w, 32 ∷ rest)
take_word-append [] rest h = refl
take_word-append (c ∷ w) rest h = rw (h.0, take_word-append w rest h.1) refl

take_word-whole : (w : List ℕ) → IsWordText w → take_word (w ++ []) ≡ (w, [])
take_word-whole [] h = refl
take_word-whole (c ∷ w) h = rw (h.0, take_word-whole w h.1) refl

skip_blanks-append :
    (blanks rest : List ℕ) (c : ℕ)
    → AreBlanks blanks
    → is_blank c ≡ false
    → skip_blanks (blanks ++ (c ∷ rest)) ≡ c ∷ rest
skip_blanks-append [] rest c h k = rw k refl
skip_blanks-append (b ∷ blanks) rest c h k = rw h.0 (skip_blanks-append blanks rest c h.1 k)

split_args-step :
    (fuel room : ℕ) (s : List ℕ) (c : ℕ) (w rest : List ℕ)
    → take_word (skip_blanks s) ≡ (c ∷ w, rest)
    → split_args (suc fuel) room s
      ≡ (c ∷ w) ∷ (if room == 1 then [] else split_args fuel (room - 1) (after_word rest))
unfolding split_args
split_args-step fuel room [] c w rest h = ground (arith, h)
split_args-step fuel room (d ∷ s) c w rest h =
    rw (split_args, h)
      (ap (λ p. (c ∷ w) ∷ (if room == 1 then [] else split_args fuel (room - 1) (after_word p.1)))
        h)

split_args-none : (fuel room : ℕ) → split_args fuel room [] ≡ []
unfolding split_args
split_args-none zero room = refl
split_args-none (suc fuel) room = refl

split_args-line :
    (ws : List Spaced) (fuel room : ℕ)
    → AreSpaced ws
    → length ws < fuel
    → length ws ≤ room
    → split_args fuel room (line ws) ≡ words ws
unfolding split_args
split_args-line ws zero room h enough fits = absurd (omega arith)
split_args-line [] (suc fuel) room h enough fits = refl
split_args-line (w ∷ []) (suc fuel) room h enough fits =
    split_args-step fuel room (line (w ∷ [])) w.first w.more [] (
      ap take_word (skip_blanks-append w.blanks (w.more ++ []) w.first h.0 h.1.0)
      ∙ take_word-whole (word w) h.1)
    ∙ ap (λ rest. word w ∷ rest) (ground (arith, split_args-none fuel (room - 1)))
split_args-line (w ∷ (v ∷ ws)) (suc fuel) room h enough fits =
    split_args-step fuel room (line (w ∷ (v ∷ ws))) w.first w.more (32 ∷ line (v ∷ ws)) (
      ap take_word (skip_blanks-append w.blanks (w.more ++ (32 ∷ line (v ∷ ws))) w.first h.0 h.1.0)
      ∙ take_word-append (word w) (line (v ∷ ws)) h.1)
    ∙ ap (λ b. word w ∷ (if b then [] else split_args fuel (room - 1) (line (v ∷ ws))))
        (==_false room 1 (λ e. omega arith))
    ∙ ap (λ rest. word w ∷ rest)
        (split_args-line (v ∷ ws) fuel (room - 1) h.2 (omega arith) (omega arith))

length-line : (ws : List Spaced) → length ws ≤ length (line ws)
length-line [] = omega arith
length-line (w ∷ []) = omega (arith, length-append w.blanks (word w ++ []))
length-line (w ∷ (v ∷ ws)) = omega (
  arith,
  length-append w.blanks (word w ++ (32 ∷ line (v ∷ ws))),
  length-append w.more (32 ∷ line (v ∷ ws)),
  length-line (v ∷ ws),
)

-- The command line that has at most 10000 words, with any blanks before each, a space behind each
-- but the last, and no blank in a word, is split into just these words, for as many rounds as it
-- has characters, and one more.
pub split_args-words :
    (ws : List Spaced)
    → AreSpaced ws
    → length ws ≤ max_args
    → split_args (suc (length (line ws))) max_args (line ws) ≡ words ws
split_args-words ws h few =
    split_args-line ws (suc (length (line ws))) max_args h (omega (arith, length-line ws)) few
