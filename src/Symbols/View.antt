-- ===== src/Symbols/View.antt =====
-- CPU/sym-tbl.cpp: the hash table as a dictionary from names to labels.
use spim_curses.Base.{
  ℕ, ◌+◌, ◌≤◌, ◌<◌, ◌≡◌, ◌↔◌, refl, ◌∙◌, ap, arith, true, ◌==◌, if◌then◌else◌, Option, none, some,
  List, [], ◌∷◌, update, inl, inr, Bool-cases,
}
use spim_curses.Base.{update_self}
use spim_curses.Symbols.Defs.{
  Name, Label, Symbols, streq, hash, find_label, get_hash, label_is_defined, new_label, add_label,
  lookup_label,
}

pub streq_iff : (m n : Name) → (streq m n ≡ true) ↔ (m ≡ n)
unfolding streq
streq_iff [] [] = ground arith
streq_iff [] (d ∷ n) = ground arith
streq_iff (c ∷ m) [] = ground arith
streq_iff (c ∷ m) (d ∷ n) = ground (arith, streq_iff m n)

-- Every label of a chain has been allocated.
abbrev pub AllBelow : ℕ → List ℕ → Type 0
AllBelow n [] = Unit
AllBelow n (l ∷ chain) = (l < n) × AllBelow n chain

-- No two labels of a chain share a name.
abbrev pub Distinct : (ℕ → Label) → List ℕ → Type 0
Distinct label [] = Unit
Distinct label (l ∷ chain) = (find_label label ((label l).name) chain ≡ none) × Distinct label chain

pub record IsTable (s : Symbols) : Type 0 where
  pub below : (k : ℕ) → AllBelow s.allocated (s.table k)
  pub distinct : (k : ℕ) → Distinct s.label (s.table k)

AllBelow-mono : (n m : ℕ) (chain : List ℕ) → n ≤ m → AllBelow n chain → AllBelow m chain
AllBelow-mono n m [] h below = tt
AllBelow-mono n m (l ∷ chain) h below = (omega arith, AllBelow-mono n m chain h below.1)

-- A label that is not in a chain does not matter there.
find_label-update :
    (label : ℕ → Label) (n : ℕ) (x : Label) (name : Name) (chain : List ℕ)
    → AllBelow n chain
    → find_label (update label n x) name chain ≡ find_label label name chain
unfolding find_label
find_label-update label n x name [] below = refl
find_label-update label n x name (l ∷ chain) below =
    ground (arith, below, find_label-update label n x name chain below.1)

Distinct-update :
    (label : ℕ → Label) (n : ℕ) (x : Label) (chain : List ℕ)
    → AllBelow n chain
    → Distinct label chain
    → Distinct (update label n x) chain
Distinct-update label n x [] below d = tt
Distinct-update label n x (l ∷ chain) below d =
    let same : update label n x l ≡ label l = ground (arith, below) in
    (
      ap (λ y. find_label (update label n x) y.name chain) same
          ∙ find_label-update label n x ((label l).name) chain below.1
          ∙ d.0,
      Distinct-update label n x chain below.1 d.1,
    )

module _ (name : Name) (s : Symbols) (t : IsTable s) where
  add_label-view :
      (n : Name)
      → label_is_defined n (add_label name s)
        ≡ (if streq name n then some s.allocated else label_is_defined n s)
  unfolding label_is_defined get_hash add_label find_label
  add_label-view n = ground (
    arith,
    streq_iff name n,
    find_label-update s.label s.allocated (new_label name) n (s.table (hash n)) (t.below (hash n)),
    ap hash {x = name} {y = n},
  )

  add_label-IsTable : get_hash name s ≡ none → IsTable (add_label name s)
  unfolding get_hash add_label
  add_label-IsTable absent = record { below = below; distinct = distinct }
    where
      below : (k : ℕ) → AllBelow (s.allocated + 1) ((add_label name s).table k)
      below k = elim (Bool-cases (hash name == k)) [
        | inl h ↦ rw h (
          omega arith,
          AllBelow-mono s.allocated (s.allocated + 1) (s.table (hash name)) (omega arith)
              (t.below (hash name)),
        )
        | inr h ↦
            rw h (AllBelow-mono s.allocated (s.allocated + 1) (s.table k) (omega arith) (t.below k))
      ]

      old : (k : ℕ) → Distinct (add_label name s).label (s.table k)
      old k =
          Distinct-update s.label s.allocated (new_label name) (s.table k) (t.below k)
            (t.distinct k)

      distinct : (k : ℕ) → Distinct (add_label name s).label ((add_label name s).table k)
      distinct k = elim (Bool-cases (hash name == k)) [
        | inl h ↦ rw h (
          ap
                (λ y.
                  find_label (update s.label s.allocated (new_label name)) y.name
                    (s.table (hash name)))
                (update_self s.label s.allocated (new_label name))
              ∙ find_label-update s.label s.allocated (new_label name) name (s.table (hash name))
                  (t.below (hash name))
              ∙ absent,
          old (hash name),
        )
        | inr h ↦ rw h (old k)
      ]

find_label_sound :
    (label : ℕ → Label) (name : Name) (chain : List ℕ) (n l : ℕ)
    → AllBelow n chain
    → find_label label name chain ≡ some l
    → ((label l).name ≡ name) × (l < n)
unfolding find_label
find_label_sound label name [] n l below h = ground (arith, h)
find_label_sound label name (x ∷ chain) n l below h = ground (
  arith,
  below,
  h,
  streq_iff ((label x).name) name,
  find_label_sound label name chain n l below.1,
)

pub found_label :
    (name : Name) (s : Symbols) (t : IsTable s) (l : ℕ)
    → get_hash name s ≡ some l
    → ((s.label l).name ≡ name) × (l < s.allocated)
unfolding get_hash
found_label name s t l h =
    find_label_sound s.label name (s.table (hash name)) s.allocated l (t.below (hash name)) h

-- The table after a lookup of a name, which gave `l`.
pub record IsLookup (name : Name) (s : Symbols) (l : ℕ) (s' : Symbols) : Type 0 where
  pub table : IsTable s'
  pub view :
      (n : Name) → label_is_defined n s' ≡ (if streq name n then some l else label_is_defined n s)
  pub named : (s'.label l).name ≡ name
  pub kept : (k : ℕ) → k < s.allocated → s'.label k ≡ s.label k
  pub within : l < s'.allocated

-- `lookup_label` on a well-formed hash table is a lookup in a finite map from names to labels that
-- adds the name if it is not there: afterwards the name maps to the label given, each other name
-- to what it mapped to, the label has the name, the labels from before are unchanged, and the
-- table is well-formed.
pub lookup_label-IsLookup :
    (name : Name) (s : Symbols)
    → IsTable s
    → IsLookup name s ((lookup_label name s).0) ((lookup_label name s).1)
unfolding lookup_label label_is_defined
lookup_label-IsLookup name s t = by_entry (get_hash name s) refl
  where
    result : Option ℕ → ℕ × Symbols
    result o = elim o [ some l ↦ (l, s) | none ↦ (s.allocated, add_label name s) ]

    by_entry : (o : Option ℕ) → get_hash name s ≡ o → IsLookup name s ((result o).0) ((result o).1)
    by_entry none absent = record {
      table = add_label-IsTable name s t absent;
      view = add_label-view name s t;
      named = ap (λ x. x.name) (update_self s.label s.allocated (new_label name));
      kept = λ k h. ground arith;
      within = omega arith;
    }
    by_entry (some l) present = record {
      table = t;
      view =
          λ n. ground (arith, streq_iff name n, present, ap (λ x. get_hash x s) {x = name} {y = n});
      named = (found_label name s t l present).0;
      kept = λ k h. refl;
      within = (found_label name s t l present).1;
    }
