-- ===== src/Symbols/Locals.antt =====
-- CPU/sym-tbl.cpp: the list of local labels and `flush_local_labels`.
use spim_curses.Base.{
  ℕ, zero, suc, ◌≤◌, ◌≡◌, refl, ap, arith, Bool, false, ◌||◌, if◌then◌else◌, Option, none, some,
  List, [], ◌∷◌,
}
use spim_curses.Base.{length}
use spim_curses.Symbols.Defs.{
  Name, Label, Symbols, streq, label_is_defined, flush_label, flush_loop, flush_local_labels,
}
use spim_curses.Symbols.View.{IsTable}
use spim_curses.Symbols.Unlink.{flush_label-IsFlushed}

-- The list that starts at a pointer, by the links of the labels.
abbrev pub Linked : (ℕ → Label) → Option ℕ → List ℕ → Type 0
Linked label head [] = head ≡ none
Linked label head (l ∷ rest) = (head ≡ some l) × Linked label ((label l).next_local) rest

-- A label of the list has the name.
abbrev pub some_named : (ℕ → Label) → List ℕ → Name → Bool
some_named label [] n = false
some_named label (l ∷ rest) n = streq ((label l).name) n || some_named label rest n

-- The table once the labels of a list are out of it, and the list is empty.
pub record IsFlush (names : List ℕ) (s s' : Symbols) : Type 0 where
  pub table : IsTable s'
  pub view :
      (n : Name)
      → label_is_defined n s' ≡ (if some_named s.label names n then none else label_is_defined n s)
  pub empty : s'.local_labels ≡ none

flush_loop-IsFlush :
    (fuel : ℕ) (names : List ℕ) (head : Option ℕ) (s : Symbols)
    → IsTable s
    → Linked s.label head names
    → length names ≤ fuel
    → (s' : Symbols) × (flush_loop fuel head s ≡ some s') × IsFlush names s s'
unfolding flush_loop label_is_defined
flush_loop-IsFlush fuel [] none s t linked enough = (
  record s { local_labels = none },
  refl,
  record {
    table = record { below = t.below; distinct = t.distinct };
    view = λ n. refl;
    empty = refl;
  },
)
flush_loop-IsFlush fuel [] (some l) s t linked enough = absurd (ground (arith, linked))
flush_loop-IsFlush fuel (l ∷ rest) none s t linked enough = absurd (ground (arith, linked))
flush_loop-IsFlush zero (l ∷ rest) (some x) s t linked enough = absurd (omega arith)
flush_loop-IsFlush (suc fuel) (l ∷ rest) (some x) s t linked enough =
    let e : x ≡ l = ground (arith, linked.0) in
    let f = flush_label-IsFlushed x s t in
    let next : Linked (flush_label x s).label ((s.label x).next_local) rest =
      rw f.labels (rw e linked.1) in
    let (s', runs, flush) =
      flush_loop-IsFlush fuel rest ((s.label x).next_local) (flush_label x s) f.table next
        (omega arith) in
    (
      s',
      runs,
      record {
        table = flush.table;
        view = λ n. ground (
          arith,
          e,
          flush.view n,
          f.view n,
          ap (λ y. streq ((s.label y).name) n) e,
          ap (λ y. some_named y rest n) f.labels,
        );
        empty = flush.empty;
      },
    )

-- For a well-formed table whose list of local labels ends, fuel of its length lets
-- `flush_local_labels` end: the names of the labels in the list are no longer defined, each other
-- name maps to what it mapped to, the list is empty, and the table is well-formed.
pub flush_local_labels-IsFlush :
    (fuel : ℕ) (names : List ℕ) (s : Symbols)
    → IsTable s
    → Linked s.label s.local_labels names
    → length names ≤ fuel
    → (s' : Symbols) × (flush_local_labels fuel s ≡ some s') × IsFlush names s s'
unfolding flush_local_labels
flush_local_labels-IsFlush fuel names s t linked enough =
    flush_loop-IsFlush fuel names s.local_labels s t linked enough
