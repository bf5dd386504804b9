-- ===== src/Symbols/Linking.antt =====
-- CPU/sym-tbl.cpp: linking a label into the list of local labels, for the first time and again.
use spim_curses.Base.{
  ℕ, zero, suc, ◌≡◌, ◌≢◌, refl, sym, ◌∙◌, ap, arith, false, ◌==◌, if◌then◌else◌, Option, none, some,
  List, [], ◌∷◌, update, ◌⊎◌, inl, inr, Bool-cases,
}
use mathlib.Core.Path.{subst}
use spim_curses.Base.{update_self, update_ne}
use spim_curses.Symbols.Defs.{
  Label, Symbols, link_local, get_hash, flush_label, flush_loop, flush_local_labels,
}
use spim_curses.Symbols.Locals.{Linked}

-- Membership in a list of numbers.
abbrev pub In : ℕ → List ℕ → Type 0
In l [] = ⊥
In l (x ∷ rest) = (x ≡ l) ⊎ In l rest

Linked-update :
    (label : ℕ → Label) (l : ℕ) (x : Label) (head : Option ℕ) (names : List ℕ)
    → ¬ In l names
    → Linked label head names
    → Linked (update label l x) head names
Linked-update label l x head [] out linked = linked
Linked-update label l x head (y ∷ rest) out linked =
    let same : update label l x y ≡ label y = update_ne label l x y (λ e. out (inl (sym e))) in
    (
      linked.0,
      rw same (Linked-update label l x ((label y).next_local) rest (λ p. out (inr p)) linked.1),
    )

-- The label at the front of the list.
abbrev pushed : ℕ → Symbols → Symbols
pushed l s = record s {
  label = update s.label l (record (s.label l) { next_local = s.local_labels });
  local_labels = some l;
}

link_local-pushed :
    (l : ℕ) (s : Symbols) → (s.label l).global_flag ≡ false → link_local l s ≡ pushed l s
unfolding link_local
link_local-pushed l s loc = rw (loc, link_local)

-- A label that is not global and not in the list of local labels goes to the front of the list,
-- and the rest of the list is as it was.
pub link_local-Linked :
    (l : ℕ) (names : List ℕ) (s : Symbols)
    → (s.label l).global_flag ≡ false
    → ¬ In l names
    → Linked s.label s.local_labels names
    → Linked (link_local l s).label (link_local l s).local_labels (l ∷ names)
link_local-Linked l names s loc out linked =
    let x : Label = record (s.label l) { next_local = s.local_labels } in
    subst (λ t. Linked t.label t.local_labels (l ∷ names)) (sym (link_local-pushed l s loc))
      (
        refl,
        subst (λ (y : Label). Linked (update s.label l x) y.next_local names)
            (sym (update_self s.label l x))
            (Linked-update s.label l x s.local_labels names out linked),
      )

-- The part of a list in front of a number.
before : ℕ → List ℕ → List ℕ
before l [] = []
before l (x ∷ rest) = if x == l then [] else x ∷ before l rest

-- The links from these labels stay among them.
abbrev IsClosed : (ℕ → Label) → List ℕ → Type 0
IsClosed label xs = (x : ℕ) → In x xs → (y : ℕ) × ((label x).next_local ≡ some y) × In y xs

flush_label-label : (l : ℕ) (s : Symbols) → (flush_label l s).label ≡ s.label
unfolding flush_label
flush_label-label l s = by_entry (get_hash ((s.label l).name) s) refl
  where
    by_entry :
        (o : Option ℕ) → get_hash ((s.label l).name) s ≡ o → (flush_label l s).label ≡ s.label
    by_entry none h = rw (h, flush_label) refl
    by_entry (some e) h = rw (h, flush_label) refl

flush_loop-IsClosed :
    (fuel x : ℕ) (xs : List ℕ) (s : Symbols)
    → IsClosed s.label xs
    → In x xs
    → flush_loop fuel (some x) s ≡ none
unfolding flush_loop
flush_loop-IsClosed zero x xs s closed mem = refl
flush_loop-IsClosed (suc fuel) x xs s closed mem =
    let (y, next, mem') = closed x mem in
    rw next
      (flush_loop-IsClosed fuel y xs (flush_label x s) (rw (flush_label-label x s) closed) mem')

In-first :
    (label : ℕ → Label) (l : ℕ) (head : Option ℕ) (names : List ℕ)
    → Linked label head names
    → In l names
    → (y : ℕ) × (head ≡ some y) × In y (l ∷ before l names)
unfolding before
In-first label l head [] linked mem = absurd mem
In-first label l head (x ∷ rest) linked mem = elim (Bool-cases (x == l)) [
  | inl h ↦ (x, linked.0, inl (ground (arith, h)))
  | inr h ↦ (x, linked.0, inr (rw h (inl refl)))
]

further : (z y l : ℕ) (xs : List ℕ) → In y (l ∷ xs) → In y (l ∷ z ∷ xs)
further z y l xs (inl e) = inl e
further z y l xs (inr m) = inr (inr m)

In-next :
    (label : ℕ → Label) (l x : ℕ) (head : Option ℕ) (names : List ℕ)
    → Linked label head names
    → In l names
    → In x (before l names)
    → (x ≢ l) × ((y : ℕ) × ((label x).next_local ≡ some y) × In y (l ∷ before l names))
unfolding before
In-next label l x head [] linked mem at = absurd mem
In-next label l x head (z ∷ rest) linked mem at = elim (Bool-cases (z == l)) [
  | inl h ↦ absurd (rw h at at)
  | inr h ↦
      let other : z ≢ l = ground (arith, h) in
      let mem' : In l rest = elim mem [ inl e ↦ absurd (other e) | inr m ↦ m ] in
      let at' : (z ≡ x) ⊎ In x (before l rest) = rw h at at in
      rw h (elim at' [
        | inl e ↦ (
          (λ p. other (e ∙ p)),
          let (y, next, m) = In-first label l ((label z).next_local) rest linked.1 mem' in
              (y, ap (λ w. (label w).next_local) (sym e) ∙ next, further z y l (before l rest) m),
        )
        | inr a ↦
            let (ne, (y, next, m)) =
              In-next label l x ((label z).next_local) rest linked.1 mem' a in
            (ne, (y, next, further z y l (before l rest) m))
      ])
]

-- A label that stands in the list and is linked again makes it a ring.
link_local-IsClosed :
    (l : ℕ) (names : List ℕ) (s : Symbols)
    → Linked s.label s.local_labels names
    → In l names
    → IsClosed (pushed l s).label (l ∷ before l names)
link_local-IsClosed l names s linked mem x (inl e) =
    let (y, next, m) = In-first s.label l s.local_labels names linked mem in
    let linked_label : Label = record (s.label l) { next_local = s.local_labels } in
    (
      y,
      ap (λ w. (update s.label l linked_label w).next_local) (sym e)
          ∙ ap (λ (w : Label). w.next_local) (update_self s.label l linked_label)
          ∙ next,
      m,
    )
link_local-IsClosed l names s linked mem x (inr a) =
    let (ne, (y, next, m)) = In-next s.label l x s.local_labels names linked mem a in
    (
      y,
      ap (λ (w : Label). w.next_local)
            (update_ne s.label l (record (s.label l) { next_local = s.local_labels }) x
              (λ p. ne (sym p)))
          ∙ next,
      m,
    )

-- A label that is not global, stands in the list of local labels already and is put there once
-- more makes the list a ring: `flush_local_labels` ends for no amount of fuel.
pub flush_local_labels-again :
    (fuel l : ℕ) (names : List ℕ) (s : Symbols)
    → (s.label l).global_flag ≡ false
    → Linked s.label s.local_labels names
    → In l names
    → flush_local_labels fuel (link_local l s) ≡ none
unfolding flush_local_labels
flush_local_labels-again fuel l names s loc linked mem = rw (link_local-pushed l s loc) (
    flush_loop-IsClosed fuel l (l ∷ before l names) (pushed l s)
      (link_local-IsClosed l names s linked mem) (inl refl))
