-- ===== src/Utils/Search/Sorted.antt =====
-- CPU/spim-utils.cpp: the binary searches on a sorted table.
use spim_curses.Base.{
  ℕ, zero, suc, ◌+◌, ◌-◌, ◌/◌, ◌≤◌, ◌<◌, ◌≡◌, ◌≢◌, refl, sym, ◌∙◌, ap, arith, true, false, IsWord,
  Option, none, some, List, [], ◌∷◌, slt,
}
use Prim.Native.Nat.{Ordering}
use spim_curses.Base.{length, get_elem?}
use spim_curses.Utils.Search.{search_loop, map_int, int_order}

-- What is sought comes after the entries of the first part of the table and before those of the
-- last part.
pub record IsOrdered {ℓ} {A : Type ℓ} (order : A → Ordering) (table : List A) : Type ℓ where
  pub after :
      (i j : ℕ) (a b : A)
      → i < j
      → get_elem? table i ≡ some a
      → get_elem? table j ≡ some b
      → order b ≡ Ordering.gt
      → order a ≡ Ordering.gt
  pub before :
      (i j : ℕ) (a b : A)
      → i < j
      → get_elem? table i ≡ some a
      → get_elem? table j ≡ some b
      → order a ≡ Ordering.lt
      → order b ≡ Ordering.lt

get_elem?-below :
    {A : Type 0} (table : List A) (i : ℕ)
    → i < length table
    → (e : A) × (get_elem? table i ≡ some e)
get_elem?-below [] i h = absurd (omega arith)
get_elem?-below (x ∷ xs) zero h = (x, refl)
get_elem?-below (x ∷ xs) (suc i) h = get_elem?-below xs i (omega arith)

get_elem?-some :
    {A : Type 0} (table : List A) (i : ℕ) (e : A) → get_elem? table i ≡ some e → i < length table
get_elem?-some [] i e h = absurd (ground (arith, h))
get_elem?-some (x ∷ xs) zero e h = omega arith
get_elem?-some (x ∷ xs) (suc i) e h = omega (arith, get_elem?-some xs i e h)

module _ {A : Type 0} (order : A → Ordering) (table : List A) where
  search_loop-finds :
      (sorted : IsOrdered order table) (fuel low hi i : ℕ) (e : A)
      → low ≤ i
      → i < hi
      → hi ≤ length table
      → hi ≤ low + fuel
      → get_elem? table i ≡ some e
      → order e ≡ Ordering.eq
      → (e' : A) × (search_loop order table fuel low hi ≡ some e') × (order e' ≡ Ordering.eq)
  unfolding search_loop
  search_loop-finds sorted zero low hi i e p q len enough at equal = absurd (omega arith)
  search_loop-finds sorted (suc fuel) low hi i e p q len enough at equal =
      let mid = (low + hi - 1) / 2 in
      let (x, mid_at) = get_elem?-below table mid (omega arith) in
      let here = λ (j : ℕ) (eq : i ≡ j). ap (get_elem? table) {x = j} {y = i} (omega arith) ∙ at in
      let above = search_loop-finds sorted fuel (mid + 1) hi i e in
      let below = search_loop-finds sorted fuel low mid i e in
      grind
        (arith, mid_at, at, equal, above, below, sorted.after i mid e x, sorted.before mid i x e)

  search_loop_sound :
      (fuel low hi : ℕ) (e : A)
      → search_loop order table fuel low hi ≡ some e
      → (order e ≡ Ordering.eq) × ((i : ℕ) × (get_elem? table i ≡ some e))
  unfolding search_loop
  search_loop_sound zero low hi e found = ground arith
  search_loop_sound (suc fuel) low hi e found =
      by_entry (search_loop_sound fuel (mid + 1) hi e) (search_loop_sound fuel low mid e)
        (get_elem? table mid) refl
    where
      mid : ℕ
      mid = (low + hi - 1) / 2

      IsFound : Type 0
      IsFound = (order e ≡ Ordering.eq) × ((i : ℕ) × (get_elem? table i ≡ some e))

      by_order :
          (search_loop order table fuel (mid + 1) hi ≡ some e → IsFound)
          → (search_loop order table fuel low mid ≡ some e → IsFound)
          → (x : A) → get_elem? table mid ≡ some x
          → (o : Ordering) → order x ≡ o
          → IsFound
      by_order above below x at Ordering.eq h =
          let same : x ≡ e = ground (arith, at, h, found) in
          (ap order (sym same) ∙ h, (mid, at ∙ ap some same))
      by_order above below x at Ordering.lt h = below (ground (arith, at, h, found))
      by_order above below x at Ordering.gt h = above (ground (arith, at, h, found))

      by_entry :
          (search_loop order table fuel (mid + 1) hi ≡ some e → IsFound)
          → (search_loop order table fuel low mid ≡ some e → IsFound)
          → (o : Option A) → get_elem? table mid ≡ o
          → IsFound
      by_entry above below none at = absurd (ground (arith, at, found))
      by_entry above below (some x) at = by_order above below x at (order x) refl

-- The keys of a table are `int32` in an order that does not descend.
pub record IsSorted {A : Type 0} (value1 : A → ℕ) (table : List A) : Type 0 where
  pub words : (i : ℕ) (a : A) → get_elem? table i ≡ some a → IsWord (value1 a)
  pub sorted :
      (i j : ℕ) (a b : A)
      → i < j
      → get_elem? table i ≡ some a
      → get_elem? table j ≡ some b
      → slt (value1 b) (value1 a) ≡ false

slt_trans :
    (a b num : ℕ)
    → IsWord a
    → IsWord b
    → IsWord num
    → slt b a ≡ false
    → slt b num ≡ true
    → (slt a num ≡ true) × (a ≢ num)
slt_trans a b num wa wb wn h p = ground arith

slt_before :
    (a b num : ℕ)
    → IsWord a
    → IsWord b
    → IsWord num
    → slt b a ≡ false
    → slt a num ≡ false
    → a ≢ num
    → (slt b num ≡ false) × (b ≢ num)
slt_before a b num wa wb wn h p ne = ground arith

module _ {A : Type 0} (value1 : A → ℕ) (table : List A) (sorted : IsSorted value1 table) where
  IsSorted-IsOrdered : (num : ℕ) → IsWord num → IsOrdered (λ e. int_order num (value1 e)) table
  IsSorted-IsOrdered num word = record {
    after = λ i j a b p at_i at_j h. ground (
      arith,
      slt_trans (value1 a) (value1 b) num (sorted.words i a at_i) (sorted.words j b at_j) word
          (sorted.sorted i j a b p at_i at_j),
      h,
    );
    before = λ i j a b p at_i at_j h. ground (
      arith,
      slt_before (value1 a) (value1 b) num (sorted.words i a at_i) (sorted.words j b at_j) word
          (sorted.sorted i j a b p at_i at_j),
      h,
    );
  }

  -- In a table whose keys are words in an order of `int32` that does not descend, the search for
  -- the key of any entry ends with an entry that has this key.
  pub map_int-finds :
      (i : ℕ) (e : A)
      → get_elem? table i ≡ some e
      → (e' : A) × (map_int value1 table (value1 e) ≡ some e') × (value1 e' ≡ value1 e)
  unfolding map_int
  map_int-finds i e at =
      let num = value1 e in
      let (e', found, equal) =
        search_loop-finds (λ x. int_order num (value1 x)) table
          (IsSorted-IsOrdered num (sorted.words i e at)) (length table) 0 (length table) i e
          (omega arith) (get_elem?-some table i e at) (omega arith) (omega arith) at
          (ground arith) in
      (e', found, ground (arith, equal))

-- What the search for a key finds is an entry of the table and has the key, sorted or not.
pub map_int_sound :
    {A : Type 0} (value1 : A → ℕ) (table : List A) (num : ℕ) (e : A)
    → map_int value1 table num ≡ some e
    → (value1 e ≡ num) × ((i : ℕ) × (get_elem? table i ≡ some e))
unfolding map_int
map_int_sound value1 table num e found =
    let (equal, at) =
      search_loop_sound (λ x. int_order num (value1 x)) table (length table) 0 (length table) e
        found in
    (ground (arith, equal), at)
