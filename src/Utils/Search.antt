-- ===== src/Utils/Search.antt =====
-- CPU/spim-utils.cpp: the two binary searches in a table of `name_val_val`.
pub mod Sorted
use Prim.Native.Nat.{Ordering}
use spim_curses.Base.{
  ℕ, zero, suc, ◌+◌, ◌-◌, ◌/◌, Option, none, some, List, [], ◌∷◌, ltb, ◌==◌, slt, if◌then◌else◌,
  length, get_elem?,
}

-- The loop of both: `order e` says how the key that is sought compares to that of `e`. `hi` is the
-- source's `hi + 1`, so that it is never negative. `none` also stands for a loop that has not
-- ended on its fuel, which `length table` is enough for.
module _ {ℓ} {A : Type ℓ} (order : A → Ordering) (table : List A) where
  unfoldable pub search_loop : ℕ → ℕ → ℕ → Option A
  search_loop zero low hi = none
  search_loop (suc fuel) low hi =
      let mid = (low + hi - 1) / 2 in
      let above = search_loop fuel (mid + 1) hi in
      let below = search_loop fuel low mid in
      if ltb low hi
      then elim (get_elem? table mid) [
        | none ↦ none
        | some e ↦ elim (order e) [
          | Ordering.eq ↦ some e
          | Ordering.gt ↦ above
          | Ordering.lt ↦ below
        ]
      ]
      else none

-- `map_int_to_name_val_val`, where `value1` gives the key of an entry, an `int32`.
abbrev pub int_order : ℕ → ℕ → Ordering
int_order num v = if v == num then Ordering.eq else if slt v num then Ordering.gt else Ordering.lt

unfoldable pub map_int {ℓ} : {A : Type ℓ} → (A → ℕ) → List A → ℕ → Option A
unfolding search_loop
map_int value1 table num =
    search_loop (λ e. int_order num (value1 e)) table (length table) 0 (length table)

-- The comparison of two strings of `map_string_to_name_val_val`. A `char` is a signed byte, so
-- characters are compared as `int32`, and the end of a string is the byte 0.
unfoldable pub string_order : List ℕ → List ℕ → Ordering
string_order [] [] = Ordering.eq
string_order (c ∷ id) [] = if slt 0 c then Ordering.gt else Ordering.lt
string_order [] (d ∷ np) = if slt d 0 then Ordering.gt else Ordering.lt
string_order (c ∷ id) (d ∷ np) =
    if c == d then string_order id np else if slt d c then Ordering.gt else Ordering.lt

unfoldable pub map_string {ℓ} : {A : Type ℓ} → (A → List ℕ) → List A → List ℕ → Option A
unfolding search_loop string_order
map_string name table id =
    search_loop (λ e. string_order id (name e)) table (length table) 0 (length table)
