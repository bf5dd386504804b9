-- ===== src/Syscall/Pointer.antt =====
-- CPU/mem.cpp `mem_reference`, and what is read and written through its pointers.
use spim_curses.Base.{
  ℕ, zero, suc, ◌+◌, ◌-◌, ◌%◌, ◌^◌, ◌≤◌, ◌≡◌, refl, ◌∙◌, ap, arith, length, List, [], ◌∷◌, ◌==◌,
  if◌then◌else◌, update,
}
use spim_curses.Machine.{
  Machine, done, ◌>>◌, skip, M, ◌>>=◌, get, fail, pure, on_mem, out_of_bounds,
}
use spim_curses.Memory.Access.{in_data, in_stack, in_k_text, in_k_data}
use spim_curses.Memory.Defs.{Bytes, Memory, text_bot, data_bot, stack_top, k_text_bot, k_data_bot}
use spim_curses.Memory.Fault.{in_text}
use spim_curses.Syscall.System.{Outside}

pub data Segment : Type 0 where
  text_segment data_segment stack_segment k_text_segment k_data_segment : Segment

-- A `char *` into the array of a segment.
pub record Pointer : Type 0 where
  pub segment : Segment
  pub offset : ℕ

unfoldable pub mem_reference : ℕ → M Pointer
mem_reference addr = do
  m ← get (λ s. s.mem)
  if in_text m addr
      then pure (record { segment = text_segment; offset = addr - text_bot })
      else if in_data m addr
      then pure (record { segment = data_segment; offset = addr - data_bot })
      else if in_stack m addr
      then pure (record { segment = stack_segment; offset = addr - m.stack_bot })
      else if in_k_text m addr
      then pure (record { segment = k_text_segment; offset = addr - k_text_bot })
      else if in_k_data m addr
      then pure (record { segment = k_data_segment; offset = addr - k_data_bot })
      else fail out_of_bounds

-- The bytes from an offset on up to a zero byte, or to the end of the array, past which the source
-- reads on in the host's memory.
abbrev pub c_string : ℕ → Bytes → ℕ → List ℕ
c_string zero seg o = []
c_string (suc n) seg o =
    let rest = c_string n seg (o + 1) in if seg o == 0 then [] else seg o ∷ rest

abbrev pub take_bytes : ℕ → Bytes → ℕ → List ℕ
take_bytes zero seg o = []
take_bytes (suc n) seg o = seg o ∷ take_bytes n seg (o + 1)

abbrev pub put_bytes : List ℕ → ℕ → Bytes → Bytes
put_bytes [] o seg = seg
put_bytes (b ∷ bs) o seg = put_bytes bs (o + 1) (update seg o (b % 2 ^ 8))

abbrev take : ℕ → List ℕ → List ℕ
take zero bs = []
take (suc n) [] = []
take (suc n) (b ∷ bs) = b ∷ take n bs

abbrev drop : ℕ → List ℕ → List ℕ
drop zero bs = bs
drop (suc n) [] = []
drop (suc n) (b ∷ bs) = drop n bs

take_all : (n : ℕ) (bs : List ℕ) → length bs ≤ n → take n bs ≡ bs
take_all zero [] h = refl
take_all zero (b ∷ bs) h = absurd (omega arith)
take_all (suc n) [] h = refl
take_all (suc n) (b ∷ bs) h = ap (λ t. b ∷ t) (take_all n bs (omega arith))

drop_all : (n : ℕ) (bs : List ℕ) → length bs ≤ n → drop n bs ≡ []
drop_all zero [] h = refl
drop_all zero (b ∷ bs) h = absurd (omega arith)
drop_all (suc n) [] h = refl
drop_all (suc n) (b ∷ bs) h = drop_all n bs (omega arith)

module _ (env : Outside) where
  abbrev pub segment_bytes : Segment → Memory → Bytes
  segment_bytes text_segment m = env.image m.text_seg
  segment_bytes data_segment m = m.data_seg
  segment_bytes stack_segment m = m.stack_seg
  segment_bytes k_text_segment m = env.image m.k_text_seg
  segment_bytes k_data_segment m = m.k_data_seg

  abbrev segment_size : Segment → Memory → ℕ
  segment_size text_segment m = m.text_top - text_bot
  segment_size data_segment m = m.data_top - data_bot
  segment_size stack_segment m = stack_top - m.stack_bot
  segment_size k_text_segment m = m.k_text_top - k_text_bot
  segment_size k_data_segment m = m.k_data_top - k_data_bot

  -- The argument of `%s`.
  abbrev pub string_at : Pointer → Memory → List ℕ
  string_at p m =
      c_string (segment_size p.segment m - p.offset) (segment_bytes p.segment m) p.offset

  -- The bytes of a `write`.
  abbrev pub bytes_at : ℕ → Pointer → Memory → List ℕ
  bytes_at n p m = take_bytes n (segment_bytes p.segment m) p.offset

  abbrev store_in : List ℕ → ℕ → Segment → Memory → Memory
  store_in bs o text_segment m = record m { text_seg = env.overwrite m.text_seg o bs }
  store_in bs o data_segment m = record m { data_seg = put_bytes bs o m.data_seg }
  store_in bs o stack_segment m = record m { stack_seg = put_bytes bs o m.stack_seg }
  store_in bs o k_text_segment m = record m { k_text_seg = env.overwrite m.k_text_seg o bs }
  store_in bs o k_data_segment m = record m { k_data_seg = put_bytes bs o m.k_data_seg }

  -- What is written past the end of the array.
  abbrev past_end : List ℕ → M (Unit {0})
  past_end [] = skip
  past_end (b ∷ bs) = env.overrun (b ∷ bs)

  abbrev pub store_bytes_at : List ℕ → Pointer → M (Unit {0})
  store_bytes_at bs p = do
    room ← get (λ m. segment_size p.segment m.mem - p.offset)
    on_mem (store_in (take room bs) p.offset p.segment)
    past_end (drop room bs)

  -- Bytes that fit into the data segment.
  pub store_bytes_at-fitting :
      (bs : List ℕ) (o : ℕ) (m : Machine)
      → o + length bs ≤ m.mem.data_top - data_bot
      → store_bytes_at bs (record { segment = data_segment; offset = o }) m
        ≡ done tt (record m { mem = record (m.mem) { data_seg = put_bytes bs o m.mem.data_seg } })
  store_bytes_at-fitting bs o m h =
      let room = m.mem.data_top - data_bot - o in
      ap
        (λ t. past_end t (record m {
          mem = record (m.mem) { data_seg = put_bytes (take room bs) o m.mem.data_seg };
        }))
        (drop_all room bs (omega arith))
      ∙ ap
          (λ t.
            done tt (record m { mem = record (m.mem) { data_seg = put_bytes t o m.mem.data_seg } }))
          (take_all room bs (omega arith))
