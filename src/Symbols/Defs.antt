-- ===== src/Symbols/Defs.antt =====
-- CPU/sym-tbl.h and CPU/sym-tbl.cpp: labels, the hash table of them, and the list of local labels.
use spim_curses.Base.{
  ℕ, zero, suc, ◌+◌, ◌-◌, ◌*◌, ◌%◌, ◌^◌, Bool, true, false, ◌&&◌, not, ◌==◌, if◌then◌else◌, bit_and,
  u32, Option, none, some, List, [], ◌∷◌, update,
}
use spim_curses.Base.{length}
use spim_curses.Inst.Fields.{Instruction}

-- `label_use`. An instruction in a text segment is the one with this serial number, which is stored
-- at the address; one of a data segment is a copy.
pub data UseInst : Type 0 where
  no_inst : UseInst
  stored_inst : ℕ → Instruction → UseInst
  copied_inst : Instruction → UseInst

pub record LabelUse : Type 0 where
  pub inst : UseInst
  pub addr : ℕ

-- A name is the list of its characters, each as the `unsigned` that it is converted to.
abbrev pub Name : Type 0
Name = List ℕ

-- `label`. `next_local` is a pointer, which may lead anywhere; the links of the hash table are the
-- lists of `table`.
pub record Label : Type 0 where
  pub name : Name
  pub addr : ℕ
  pub global_flag : Bool
  pub gp_flag : Bool
  pub const_flag : Bool
  pub next_local : Option ℕ
  pub uses : List LabelUse

-- A label is known by its number, in the order of their allocation.
pub record Symbols : Type 0 where
  pub label : ℕ → Label
  pub allocated : ℕ
  pub table : ℕ → List ℕ  -- label_hash_table
  pub local_labels : Option ℕ

-- `streq`
unfoldable pub streq : Name → Name → Bool
streq [] [] = true
streq [] (d ∷ n) = false
streq (c ∷ m) [] = false
streq (c ∷ m) (d ∷ n) = c == d && streq m n

abbrev pub hash_table_size : ℕ
hash_table_size = 8191

unfoldable pub hash_loop : ℕ → Name → ℕ
hash_loop hi [] = hi
hash_loop hi (c ∷ name) = hash_loop (u32 (hi * 613 + c)) name

-- The slot of a name: the first part of `get_hash`.
unfoldable pub hash : Name → ℕ
unfolding hash_loop
hash name = bit_and (hash_loop (u32 (length name)) name) (2 ^ 30 - 1) % hash_table_size

unfoldable pub find_label : (ℕ → Label) → Name → List ℕ → Option ℕ
unfolding streq
find_label label name [] = none
find_label label name (l ∷ chain) =
    if streq ((label l).name) name then some l else find_label label name chain

-- `get_hash`: the entry, if there is one.
unfoldable pub get_hash : Name → Symbols → Option ℕ
unfolding hash find_label
get_hash name s = find_label s.label name (s.table (hash name))

unfoldable pub label_is_defined : Name → Symbols → Option ℕ
unfolding get_hash
label_is_defined name s = get_hash name s

abbrev pub new_label : Name → Label
new_label name = record {
  name = name;
  addr = 0;
  global_flag = false;
  gp_flag = false;
  const_flag = false;
  next_local = none;
  uses = [];
}

-- The table with a new label, which goes to the front of its chain.
unfoldable pub add_label : Name → Symbols → Symbols
unfolding hash
add_label name s = record s {
  label = update s.label s.allocated (new_label name);
  allocated = s.allocated + 1;
  table = update s.table (hash name) (s.allocated ∷ s.table (hash name));
}

-- `lookup_label`: a label that is not there is made.
unfoldable pub lookup_label : Name → Symbols → ℕ × Symbols
unfolding get_hash add_label
lookup_label name s = elim (get_hash name s) [
  | some l ↦ (l, s)
  | none ↦ (s.allocated, add_label name s)
]

abbrev pub set_label : ℕ → (Label → Label) → Symbols → Symbols
set_label l f s = record s { label = update s.label l (f (s.label l)) }

unfoldable pub make_label_global : Name → Symbols → ℕ × Symbols
unfolding lookup_label
make_label_global name s =
    let (l, s') = lookup_label name s in (l, set_label l (λ x. record x { global_flag = true }) s')

-- The first part of `record_label`: `none` for a label that is defined already.
unfoldable pub define_label : ℕ → ℕ → Symbols → Option Symbols
define_label l address s =
    if ((s.label l).gp_flag)
    then some s
    else if not ((s.label l).addr == 0)
    then none
    else some (set_label l (λ x. record x { addr = address }) s)

-- The last part of `record_label`.
unfoldable pub link_local : ℕ → Symbols → Symbols
link_local l s =
    if ((s.label l).global_flag)
    then s
    else record (set_label l (λ x. record x { next_local = s.local_labels }) s) {
      local_labels = some l;
    }

unfoldable pub add_use : LabelUse → ℕ → Symbols → Symbols
add_use u l s = set_label l (λ x. record x { uses = u ∷ x.uses }) s

unfoldable pub record_data_uses_symbol : ℕ → ℕ → Symbols → Symbols
unfolding add_use
record_data_uses_symbol location l s = add_use (record { inst = no_inst; addr = location }) l s

-- Taking the entry out of its chain.
unfoldable pub unlink : ℕ → List ℕ → List ℕ
unlink l [] = []
unlink l (x ∷ chain) = if x == l then chain else x ∷ unlink l chain

-- One round of `flush_local_labels`; its warning is left out.
unfoldable pub flush_label : ℕ → Symbols → Symbols
unfolding get_hash unlink
flush_label l s =
    let name = (s.label l).name in
    elim (get_hash name s) [
      | none ↦ s
      | some entry ↦ record s {
        table = update s.table (hash name) (unlink entry (s.table (hash name)));
      }
    ]

-- The loop of `flush_local_labels`. `none`: the fuel has run out.
unfoldable pub flush_loop : ℕ → Option ℕ → Symbols → Option Symbols
unfolding flush_label
flush_loop fuel none s = some (record s { local_labels = none })
flush_loop zero (some l) s = none
flush_loop (suc fuel) (some l) s = flush_loop fuel ((s.label l).next_local) (flush_label l s)

unfoldable pub flush_local_labels : ℕ → Symbols → Option Symbols
unfolding flush_loop
flush_local_labels fuel s = flush_loop fuel s.local_labels s

unfoldable pub find_symbol_address : Name → Symbols → ℕ × Symbols
unfolding lookup_label
find_symbol_address name s = let (l, s') = lookup_label name s in ((s'.label l).addr, s')

abbrev pub initialize_symbol_table : Symbols → Symbols
initialize_symbol_table s = record s { table = λ n. []; local_labels = none }
