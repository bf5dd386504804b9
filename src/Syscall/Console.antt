-- ===== src/Syscall/Console.antt =====
-- spim/spim.cpp `read_input` and `write_output` as the system calls use them: the bytes that pass.
use spim_curses.Base.{
  ℕ, zero, suc, ◌-◌, Option, none, some, List, [], ◌∷◌, ◌++◌, ◌==◌, if◌then◌else◌, is_negative,
}
use spim_curses.Machine.{M, pure, on_console}

abbrev pub newline : ℕ
newline = 10

-- The loop of `read_input`, with room for so many bytes: the bytes that it stores, and what is left
-- of the input.
unfoldable pub read_line : ℕ → List (Option ℕ) → List ℕ × List (Option ℕ)
read_line zero typed = ([], typed)
read_line (suc room) [] = ([], [])
read_line (suc room) (none ∷ typed) = ([], typed)
read_line (suc room) (some b ∷ typed) =
    let rest = read_line room typed in
    if b == newline then (b ∷ [], typed) else (b ∷ rest.0, rest.1)

-- The room that the loop leaves for the zero byte.
abbrev pub room_of : ℕ → ℕ
room_of str_size = if is_negative str_size then 0 else str_size - 1

-- `read_input`: the bytes that it stores, the zero byte included.
unfoldable pub read_input : ℕ → M (List ℕ)
unfolding read_line
read_input str_size m =
    let line = read_line (room_of str_size) m.console.typed in
    let ending = if is_negative str_size then [] else if str_size == 0 then [] else 0 ∷ [] in
    pure (line.0 ++ ending) (record m { console = record (m.console) { typed = line.1 } })

abbrev pub push_text : List ℕ → List ℕ → List ℕ
push_text [] output = output
push_text (b ∷ bs) output = push_text bs (b ∷ output)

-- `write_output (console_out, ...)` of a text that is formatted.
abbrev pub write_output : List ℕ → M (Unit {0})
write_output text = on_console (λ c. record c { output = push_text text c.output })
