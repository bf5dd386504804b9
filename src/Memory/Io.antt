-- ===== src/Memory/Io.antt =====
-- CPU/mem.cpp: the memory-mapped console devices.
pub mod Transmitter
use spim_curses.Base.{
  ℕ, ◌-◌, Option, none, some, [], ◌∷◌, ltb, ◌==◌, if◌then◌else◌, bit_and, bit_or, has, not32,
}
use spim_curses.Cpu.Exception.{raise_interrupt, clear_interrupt}
use spim_curses.Machine.{
  M, ◌>>=◌, ◌>>◌, get, fail, pure, skip, on_cpu, on_devices, bad_io_read, bad_io_write,
}

abbrev pub recv_ctrl_addr : ℕ
recv_ctrl_addr = 0xffff_0000

abbrev pub recv_buffer_addr : ℕ
recv_buffer_addr = 0xffff_0004

abbrev pub trans_ctrl_addr : ℕ
trans_ctrl_addr = 0xffff_0008

abbrev pub trans_buffer_addr : ℕ
trans_buffer_addr = 0xffff_000c

-- The ready bit and the interrupt enable bit of both control registers.
abbrev pub ready : ℕ
ready = 0x1

abbrev pub int_enable : ℕ
int_enable = 0x2

abbrev pub recv_int_level : ℕ
recv_int_level = 3

abbrev pub trans_int_level : ℕ
trans_int_level = 2

abbrev pub recv_interval : ℕ
recv_interval = 100

abbrev pub trans_latency : ℕ
trans_latency = 100

-- `if (control & INT_ENABLE) RAISE_INTERRUPT (level)`
abbrev pub interrupt_if : ℕ → ℕ → M (Unit {0})
interrupt_if control level = if has control int_enable then on_cpu (raise_interrupt level) else skip

-- `console_input_available`, with the character that `get_console_char` then reads.
unfoldable pub poll : M (Option ℕ)
poll m = elim m.console.input [
  | [] ↦ pure none m
  | c ∷ rest ↦ pure c (record m { console = record (m.console) { input = rest } })
]

unfoldable pub put_console_char : ℕ → M (Unit {0})
put_console_char c m =
    pure tt (record m { console = record (m.console) { output = c ∷ m.console.output } })

-- The character that came into the buffer.
unfoldable pub receive : ℕ → M (Unit {0})
receive c = do
  on_devices λ d. record d {
    recv_buffer = c;
    recv_control = bit_or d.recv_control ready;
    recv_buffer_full_timer = recv_interval;
  }
  control ← get (λ m. m.devices.recv_control)
  interrupt_if control recv_int_level

unfoldable pub take_input : Option ℕ → M (Unit {0})
unfolding receive
take_input none = skip
take_input (some c) = receive c

unfoldable pub check_receiver : M (Unit {0})
unfolding poll take_input
check_receiver = do
  timer ← get (λ m. m.devices.recv_buffer_full_timer)
  if ltb 0 timer
      then on_devices (λ d. record d { recv_buffer_full_timer = timer - 1 })
      else (do c ← poll; take_input c)

unfoldable pub check_transmitter : M (Unit {0})
check_transmitter = do
  timer ← get (λ m. m.devices.trans_buffer_full_timer)
  control ← get (λ m. m.devices.trans_control)
  if ltb 0 timer
      then on_devices (λ d. record d { trans_buffer_full_timer = timer - 1 })
      else if has control ready
      then skip
      else (do
        on_devices (λ d. record d { trans_control = bit_or control ready })
        interrupt_if (bit_or control ready) trans_int_level)

unfoldable pub check_memory_mapped_io : M (Unit {0})
unfolding check_receiver check_transmitter
check_memory_mapped_io = do check_receiver; check_transmitter

-- The cases of `write_memory_mapped_IO`.
unfoldable pub write_trans_ctrl : ℕ → M (Unit {0})
write_trans_ctrl value = do
  control ← get (λ m. m.devices.trans_control)
  if has value int_enable
      then (do
        on_devices (λ d. record d { trans_control = bit_or control int_enable })
        if has (bit_or control int_enable) ready
            then on_cpu (raise_interrupt trans_int_level)
            else skip)
      else (do
        on_devices (λ d. record d { trans_control = bit_and control (not32 int_enable) })
        on_cpu (clear_interrupt trans_int_level))

unfoldable pub write_trans_buffer : ℕ → M (Unit {0})
unfolding put_console_char
write_trans_buffer value = do
  control ← get (λ m. m.devices.trans_control)
  if has control ready
      then (do
        on_devices (λ d. record d { trans_buffer = bit_and value 0xff })
        put_console_char (bit_and value 0xff)
        on_devices λ d. record d {
          trans_control = bit_and control (not32 ready);
          trans_buffer_full_timer = trans_latency;
        }
        on_cpu (clear_interrupt trans_int_level))
      else skip

unfoldable pub write_recv_ctrl : ℕ → M (Unit {0})
write_recv_ctrl value = do
  control ← get (λ m. m.devices.recv_control)
  if has value int_enable
      then (do
        on_devices (λ d. record d { recv_control = bit_or control int_enable })
        if has (bit_or control int_enable) ready
            then on_cpu (raise_interrupt recv_int_level)
            else skip)
      else (do
        on_devices (λ d. record d { recv_control = bit_and control (not32 int_enable) })
        on_cpu (clear_interrupt recv_int_level))

unfoldable pub write_memory_mapped_io : ℕ → ℕ → M (Unit {0})
unfolding write_trans_ctrl write_trans_buffer write_recv_ctrl
write_memory_mapped_io addr value =
    if addr == trans_ctrl_addr
    then write_trans_ctrl value
    else if addr == trans_buffer_addr
    then write_trans_buffer value
    else if addr == recv_ctrl_addr
    then write_recv_ctrl value
    else if addr == recv_buffer_addr
    then skip
    else fail bad_io_write

unfoldable pub read_recv_buffer : M ℕ
read_recv_buffer = do
  on_devices λ d. record d {
    recv_control = bit_and d.recv_control (not32 ready);
    recv_buffer_full_timer = 0;
  }
  on_cpu (clear_interrupt recv_int_level)
  get (λ m. bit_and m.devices.recv_buffer 0xff)

unfoldable pub read_memory_mapped_io : ℕ → M ℕ
unfolding read_recv_buffer
read_memory_mapped_io addr =
    if addr == trans_ctrl_addr
    then get (λ m. m.devices.trans_control)
    else if addr == trans_buffer_addr
    then get (λ m. bit_and m.devices.trans_buffer 0xff)
    else if addr == recv_ctrl_addr
    then get (λ m. m.devices.recv_control)
    else if addr == recv_buffer_addr
    then read_recv_buffer
    else fail bad_io_read
