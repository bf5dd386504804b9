-- ===== src/StringStream/Append.antt =====
-- CPU/string-stream.cpp: `ss_printf` appends.
use spim_curses.Base.{
  ℕ, zero, suc, ◌+◌, ◌-◌, ◌*◌, ◌^◌, ◌≤◌, ◌<◌, ◌≡◌, refl, ◌∙◌, ap, arith, true, leb, if◌then◌else◌,
  u32, Option, none, some, List, inl, inr, Bool-cases,
}
use spim_curses.Base.{length, get_elem?}
use spim_curses.Memory.Defs.{Bytes}
use spim_curses.StringStream.{
  StrStream, ensure_init, enlarge, print_loop, finish, ss_printf, ss_init,
}

-- What the C library says of `vsnprintf`: it writes from the place on, and the whole text if there is
-- room for it and a zero byte.
pub record IsVsnprintf (vsnprintf : Bytes → ℕ → ℕ → List ℕ → Bytes) : Type 0 where
  pub before :
      (buf : Bytes) (pos space : ℕ) (text : List ℕ) (i : ℕ)
      → i < pos
      → vsnprintf buf pos space text i ≡ buf i
  pub whole :
      (buf : Bytes) (pos space : ℕ) (text : List ℕ) (k : ℕ)
      → length text < space
      → k < length text
      → some (vsnprintf buf pos space text (pos + k)) ≡ get_elem? text k

-- A buffer with its first byte that is free.
pub record IsStream (ss : StrStream) : Type 0 where
  pub initialized : ss.initialized ≡ true
  pub room : 0 < ss.max_length
  pub within : ss.empty_pos ≤ ss.max_length

-- The text stands after what was there.
pub record IsAppended (text : List ℕ) (ss ss' : StrStream) : Type 0 where
  pub old : (i : ℕ) → i < ss.empty_pos → ss'.buf i ≡ ss.buf i
  pub new : (k : ℕ) → k < length text → some (ss'.buf (ss.empty_pos + k)) ≡ get_elem? text k
  pub room : ss.empty_pos + length text < ss'.max_length

module _ (fresh : Bytes) (vsnprintf : Bytes → ℕ → ℕ → List ℕ → Bytes)
    (lib : IsVsnprintf vsnprintf) where
  print_loop-IsAppended :
      (fuel : ℕ) (text : List ℕ) (ss : StrStream)
      → IsStream ss
      → 2 * (ss.empty_pos + length text) < 2 ^ 31
      → ss.empty_pos + length text + 1 < fuel + ss.max_length
      → 0 < fuel
      → (ss' : StrStream) × (print_loop fresh vsnprintf fuel text ss ≡ some ss')
        × IsAppended text ss ss'
        × (ss'.empty_pos ≡ ss.empty_pos)
        × (ss'.initialized ≡ true)
  unfolding print_loop
  print_loop-IsAppended zero text ss i small enough pos = absurd (omega (arith, pos))
  print_loop-IsAppended (suc fuel) text ss i small enough pos =
      elim (Bool-cases (leb (ss.max_length - ss.empty_pos) (length text))) [
        | inl full ↦
            let max : u32 (2 * ss.max_length) ≡ 2 * ss.max_length =
              ground (arith, full, small, i.within) in
            let (ss', runs, app, same, init) =
              print_loop-IsAppended fuel text larger
                (record {
                  initialized = i.initialized;
                  room = omega (arith, max, i.room);
                  within = omega (arith, max, i.within);
                })
                small (omega (arith, max, i.room, enough))
                (ground (arith, full, enough, i.within)) in
            (
              ss',
              rw full runs,
              record {
                old = λ k h.
                    app.old k h
                    ∙ kept k (omega (arith, h, i.within))
                    ∙ lib.before ss.buf ss.empty_pos free text k h;
                new = app.new;
                room = app.room;
              },
              same,
              init,
            )
        | inr fits ↦ (
          printed,
          rw fits refl,
          record {
            old = λ k h. lib.before ss.buf ss.empty_pos free text k h;
            new = λ k h. lib.whole ss.buf ss.empty_pos free text k (ground (arith, fits)) h;
            room = ground (arith, fits, i.within);
          },
          refl,
          i.initialized,
        )
      ]
    where
      free : ℕ
      free = ss.max_length - ss.empty_pos

      printed : StrStream
      printed = record ss { buf = vsnprintf ss.buf ss.empty_pos free text }

      larger : StrStream
      larger = enlarge fresh vsnprintf (u32 (2 * ss.max_length)) printed

      kept : (k : ℕ) → k < ss.max_length → larger.buf k ≡ printed.buf k
      kept k h = ground (arith, h)

  ss_printf-runs :
      (fuel : ℕ) (text : List ℕ) (ss mid : StrStream)
      → ss.initialized ≡ true
      → print_loop fresh vsnprintf fuel text ss ≡ some mid
      → ss_printf fresh vsnprintf fuel text ss ≡ some (finish fresh vsnprintf (length text) mid)
  unfolding ss_printf ensure_init
  ss_printf-runs fuel text ss mid h e =
      ap
        (λ b.
          after
            (print_loop fresh vsnprintf fuel text (if b then ss else ss_init fresh vsnprintf ss)))
        h
      ∙ ap after e
    where
      after : Option StrStream → Option StrStream
      after o = elim o [ none ↦ none | some s ↦ some (finish fresh vsnprintf (length text) s) ]

  -- For a stream that is initialized, whose buffer is not empty and holds what was printed, a
  -- text, and `vsnprintf` as the C library describes it, fuel above the length of what is then
  -- there lets `ss_printf` end: what was in the buffer stays, the text stands after it, there is
  -- room for a zero byte, and the first free byte is the one after the text, where the lengths are
  -- small enough not to overflow when they are doubled.
  pub ss_printf-IsAppended :
      (fuel : ℕ) (text : List ℕ) (ss : StrStream)
      → IsStream ss
      → 2 * (ss.empty_pos + length text) < 2 ^ 31
      → ss.empty_pos + length text < fuel
      → (ss' : StrStream) × (ss_printf fresh vsnprintf fuel text ss ≡ some ss')
        × IsAppended text ss ss'
        × (ss'.empty_pos ≡ ss.empty_pos + length text)
        × IsStream ss'
  unfolding finish
  ss_printf-IsAppended fuel text ss i small enough =
      let (mid, runs, app, same, init) =
        print_loop-IsAppended fuel text ss i small (omega (arith, enough, i.room))
          (omega (arith, enough)) in
      let ended : (k : ℕ)
          → k < ss.empty_pos + length text
          → (finish fresh vsnprintf (length text) mid).buf k ≡ mid.buf k =
        λ k h. ground (arith, h, same) in
      (
        finish fresh vsnprintf (length text) mid,
        ss_printf-runs fuel text ss mid i.initialized runs,
        record {
          old = λ k h. ended k (omega (arith, h)) ∙ app.old k h;
          new = λ k h. ap some (ended (ss.empty_pos + k) (omega (arith, h))) ∙ app.new k h;
          room = app.room;
        },
        omega (arith, same),
        record {
          initialized = init;
          room = omega (arith, app.room);
          within = omega (arith, app.room, same);
        },
      )
