-- ===== src/Memory/Io/Transmitter.antt =====
-- CPU/mem.cpp: the transmitter as a state machine.
use spim_curses.Base.{
  ℕ, zero, suc, ◌-◌, ◌≡◌, refl, ◌∙◌, arith, true, false, ◌||◌, ltb, if◌then◌else◌, bit_and, bit_or,
  not32, has, Option, none, some, List, [], ◌∷◌, inl, inr, Bool-cases,
}
use spim_curses.Base.Masks.{bit_and_absorb, bit_and_assoc, bit_and_zero}
use spim_curses.Machine.{Machine, Outcome, M, ◌>>◌, done, skip, left_by}
use spim_curses.Memory.Io.{
  ready, check_memory_mapped_io, check_receiver, check_transmitter, poll, receive, take_input,
  write_memory_mapped_io, write_trans_buffer, put_console_char, trans_latency, trans_buffer_addr,
}

-- The timer and control register of the transmitter after a check.
record IsTicked (m m' : Machine) : Type 0 where
  pub timer : m'.devices.trans_buffer_full_timer ≡ m.devices.trans_buffer_full_timer - 1
  pub control : m'.devices.trans_control ≡ (
      if ltb 0 m.devices.trans_buffer_full_timer || has m.devices.trans_control ready
      then m.devices.trans_control
      else bit_or m.devices.trans_control ready)

-- The receiver leaves the transmitter alone.
abbrev IsApart {ℓ} : {A : Type ℓ} → Machine → Outcome A → Type ℓ
IsApart {A} m o =
    (x : A) × (m' : Machine) × (o ≡ done x m')
    × (m'.devices.trans_control ≡ m.devices.trans_control)
    × (m'.devices.trans_buffer_full_timer ≡ m.devices.trans_buffer_full_timer)

receive-IsApart : (c : ℕ) (m : Machine) → IsApart m (receive c m)
unfolding receive
receive-IsApart c m = (tt, left_by m (receive c m), ground arith, ground arith, ground arith)

poll-IsApart : (m : Machine) → IsApart m (poll m)
unfolding poll
poll-IsApart m = by_input m.console.input refl
  where
    by_input : (input : List (Option ℕ)) → m.console.input ≡ input → IsApart m (poll m)
    by_input [] h = (none, m, ground (arith, h), refl, refl)
    by_input (c ∷ rest) h = (
      c,
      record m { console = record (m.console) { input = rest } },
      ground (arith, h),
      refl,
      refl,
    )

take_input-IsApart : (c : Option ℕ) (m : Machine) → IsApart m (take_input c m)
unfolding take_input
take_input-IsApart none m = (tt, m, refl, refl, refl)
take_input-IsApart (some ch) m = receive-IsApart ch m

check_receiver-IsApart : (m : Machine) → IsApart m (check_receiver m)
unfolding check_receiver
check_receiver-IsApart m = elim (Bool-cases (ltb 0 m.devices.recv_buffer_full_timer)) [
  | inl h ↦
      (tt, left_by m (check_receiver m), ground (arith, h), ground (arith, h), ground (arith, h))
  | inr h ↦
      let (c, m1, eq, control, timer) = poll-IsApart m in
      let (x, m2, eq', control', timer') = take_input-IsApart c m1 in
      (x, m2, ground (arith, h, eq, eq'), control' ∙ control, timer' ∙ timer)
]

check_transmitter-IsTicked :
    (m : Machine) → (m' : Machine) × (check_transmitter m ≡ done tt m') × IsTicked m m'
unfolding check_transmitter
check_transmitter-IsTicked m = (
  left_by m (check_transmitter m),
  ground arith,
  record { timer = ground arith; control = ground arith },
)

check_memory_mapped_io-IsTicked :
    (m : Machine) → (m' : Machine) × (check_memory_mapped_io m ≡ done tt m') × IsTicked m m'
unfolding check_memory_mapped_io
check_memory_mapped_io-IsTicked m =
    let (x, m1, eq, control, timer) = check_receiver-IsApart m in
    let (m2, eq', ticked) = check_transmitter-IsTicked m1 in
    (
      m2,
      ground (arith, eq, eq'),
      record {
        timer = ground (arith, ticked.timer, timer);
        control = ground (arith, ticked.control, control, timer);
      },
    )

-- `check_memory_mapped_IO` a number of times.
unfoldable pub checks : ℕ → M (Unit {0})
checks zero = skip
checks (suc n) = do check_memory_mapped_io; checks n

checks-stays :
    (k : ℕ) (m : Machine)
    → has m.devices.trans_control ready ≡ true
    → (m' : Machine) × (checks k m ≡ done tt m') × (has m'.devices.trans_control ready ≡ true)
unfolding checks
checks-stays zero m h = (m, refl, h)
checks-stays (suc k) m h =
    let (m1, eq, ticked) = check_memory_mapped_io-IsTicked m in
    let (m2, eq', ready') = checks-stays k m1 (ground (arith, ticked.control, h)) in
    (m2, ground (arith, eq, eq'), ready')

-- A busy transmitter is ready after one check more than its timer says, and not before.
pub checks-ready :
    (k : ℕ) (m : Machine)
    → has m.devices.trans_control ready ≡ false
    → (m' : Machine) × (checks k m ≡ done tt m')
      × (has m'.devices.trans_control ready ≡ ltb m.devices.trans_buffer_full_timer k)
unfolding checks
checks-ready zero m busy = (m, refl, ground (arith, busy))
checks-ready (suc k) m busy =
    let (m1, eq, ticked) = check_memory_mapped_io-IsTicked m in
    elim (Bool-cases (ltb 0 m.devices.trans_buffer_full_timer)) [
      | inl p ↦
          let (m2, eq', is_ready) = checks-ready k m1 (ground (arith, ticked.control, busy, p)) in
          (m2, ground (arith, eq, eq'), ground (arith, is_ready, ticked.timer, p))
      | inr p ↦
          let now = bit_and_absorb m.devices.trans_control ready in
          let (m2, eq', is_ready) =
            checks-stays k m1 (ground (arith, ticked.control, busy, p, now)) in
          (m2, ground (arith, eq, eq'), ground (arith, is_ready, p))
    ]

-- A character written while the transmitter is ready goes to the console, and the transmitter is
-- ready again after more than 100 checks of the devices and not before.
pub write_memory_mapped_io-cycle :
    (value k : ℕ) (m : Machine)
    → has m.devices.trans_control ready ≡ true
    → (m1 m2 : Machine) × (write_memory_mapped_io trans_buffer_addr value m ≡ done tt m1)
      × (m1.console.output ≡ bit_and value 0xff ∷ m.console.output)
      × (checks k m1 ≡ done tt m2)
      × (has m2.devices.trans_control ready ≡ ltb trans_latency k)
unfolding write_memory_mapped_io write_trans_buffer put_console_char
write_memory_mapped_io-cycle value k m h =
    let m1 = left_by m (write_memory_mapped_io trans_buffer_addr value m) in
    let control = m.devices.trans_control in
    let off : bit_and (bit_and control (not32 ready)) ready ≡ 0 =
      bit_and_assoc control (not32 ready) ready ∙ bit_and_zero control in
    let (m2, eq, is_ready) = checks-ready k m1 (ground (arith, h, off)) in
    (m1, m2, ground (arith, h), ground (arith, h), eq, ground (arith, is_ready, h))
