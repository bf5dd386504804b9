-- ===== src/Symbols/Unlink.antt =====
-- CPU/sym-tbl.cpp: taking a label out of the hash table.
use spim_curses.Base.{
  ℕ, ◌≡◌, refl, ap, arith, ◌==◌, if◌then◌else◌, Option, none, some, List, [], ◌∷◌, update, inl, inr,
  Bool-cases,
}
use spim_curses.Symbols.Defs.{
  Name, Label, Symbols, streq, hash, find_label, get_hash, label_is_defined, unlink, flush_label,
}
use spim_curses.Symbols.View.{streq_iff, AllBelow, Distinct, IsTable}

find_label_named :
    (label : ℕ → Label) (name : Name) (chain : List ℕ) (l : ℕ)
    → find_label label name chain ≡ some l
    → (label l).name ≡ name
unfolding find_label
find_label_named label name [] l h = ground (arith, h)
find_label_named label name (x ∷ chain) l h =
    ground (arith, h, streq_iff ((label x).name) name, find_label_named label name chain l)

-- Out of a chain of distinct labels goes just the entry that was found there.
find_label-unlink :
    (label : ℕ → Label) (chain : List ℕ) (name n : Name) (l : ℕ)
    → Distinct label chain
    → find_label label name chain ≡ some l
    → find_label label n (unlink l chain)
      ≡ (if streq name n then none else find_label label n chain)
unfolding find_label unlink
find_label-unlink label [] name n l d h = ground (arith, h)
find_label-unlink label (x ∷ chain) name n l d h = ground (
  arith,
  h,
  d,
  streq_iff ((label x).name) name,
  streq_iff ((label x).name) n,
  streq_iff name n,
  ap (λ m. find_label label m chain) {x = (label x).name} {y = n},
  ap (λ m. find_label label m chain) {x = (label x).name} {y = name},
  ap (λ m. (label m).name) {x = x} {y = l},
  find_label_named label name chain l,
  find_label-unlink label chain name n l d.1,
)

unlink-AllBelow : (n l : ℕ) (chain : List ℕ) → AllBelow n chain → AllBelow n (unlink l chain)
unfolding unlink
unlink-AllBelow n l [] b = tt
unlink-AllBelow n l (x ∷ chain) b = elim (Bool-cases (x == l)) [
  | inl h ↦ rw h b.1
  | inr h ↦ rw h (b.0, unlink-AllBelow n l chain b.1)
]

find_label-none-unlink :
    (label : ℕ → Label) (chain : List ℕ) (n : Name) (l : ℕ)
    → find_label label n chain ≡ none
    → find_label label n (unlink l chain) ≡ none
unfolding find_label unlink
find_label-none-unlink label [] n l h = refl
find_label-none-unlink label (x ∷ chain) n l h =
    ground (arith, h, find_label-none-unlink label chain n l)

unlink-Distinct :
    (label : ℕ → Label) (l : ℕ) (chain : List ℕ)
    → Distinct label chain
    → Distinct label (unlink l chain)
unfolding unlink
unlink-Distinct label l [] d = tt
unlink-Distinct label l (x ∷ chain) d = elim (Bool-cases (x == l)) [
  | inl h ↦ rw h d.1
  | inr h ↦
      rw h (
        find_label-none-unlink label chain ((label x).name) l d.0,
        unlink-Distinct label l chain d.1,
      )
]

-- The table without an entry that was found.
abbrev without : Name → ℕ → Symbols → Symbols
without name entry s = record s {
  table = update s.table (hash name) (unlink entry (s.table (hash name)));
}

module _ (name : Name) (entry : ℕ) (s : Symbols) (t : IsTable s)
    (found : get_hash name s ≡ some entry) where
  without-view :
      (n : Name) → get_hash n (without name entry s) ≡ (if streq name n then none else get_hash n s)
  unfolding get_hash
  without-view n = ground (
    arith,
    found,
    streq_iff name n,
    ap hash {x = name} {y = n},
    find_label-unlink s.label (s.table (hash name)) name n entry (t.distinct (hash name)),
  )

  without-IsTable : IsTable (without name entry s)
  without-IsTable = record { below = below; distinct = distinct }
    where
      below : (k : ℕ) → AllBelow s.allocated ((without name entry s).table k)
      below k = elim (Bool-cases (hash name == k)) [
        | inl h ↦
            rw h (unlink-AllBelow s.allocated entry (s.table (hash name)) (t.below (hash name)))
        | inr h ↦ rw h (t.below k)
      ]

      distinct : (k : ℕ) → Distinct s.label ((without name entry s).table k)
      distinct k = elim (Bool-cases (hash name == k)) [
        | inl h ↦
            rw h (unlink-Distinct s.label entry (s.table (hash name)) (t.distinct (hash name)))
        | inr h ↦ rw h (t.distinct k)
      ]

-- A round of the flush takes the label's name out of the table.
pub record IsFlushed (name : Name) (s s' : Symbols) : Type 0 where
  pub table : IsTable s'
  pub view :
      (n : Name) → label_is_defined n s' ≡ (if streq name n then none else label_is_defined n s)
  pub labels : s'.label ≡ s.label

pub flush_label-IsFlushed :
    (l : ℕ) (s : Symbols) → IsTable s → IsFlushed ((s.label l).name) s (flush_label l s)
unfolding label_is_defined flush_label
flush_label-IsFlushed l s t = by_entry (get_hash name s) refl
  where
    name : Name
    name = (s.label l).name

    result : Option ℕ → Symbols
    result o = elim o [ none ↦ s | some entry ↦ without name entry s ]

    by_entry : (o : Option ℕ) → get_hash name s ≡ o → IsFlushed name s (result o)
    by_entry none h = record {
      table = t;
      view = λ n. ground (arith, h, streq_iff name n, ap (λ m. get_hash m s) {x = name} {y = n});
      labels = refl;
    }
    by_entry (some entry) h = record {
      table = without-IsTable name entry s t h;
      view = without-view name entry s t h;
      labels = refl;
    }
