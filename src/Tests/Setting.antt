-- ===== src/Tests/Setting.antt =====
-- A small machine: CPU/spim.h and CPU/mem.h.
use spim_curses.Base.{
  arith, ◌+◌, ◌-◌, ◌*◌, ◌/◌, ltb, Bool, true, false, ◌==◌, if◌then◌else◌, none, [], ◌∷◌,
}
use spim_curses.Machine.{fatal_error, Machine, M, done}
use spim_curses.Memory.Defs.{Memory, Devices, empty, zero_bytes}
use spim_curses.Memory.Layout.{IsLaidOut}
use spim_curses.Cpu.Defs.{Cpu}
use spim_curses.Run.Floating.Host.{Host, Operators}
use spim_curses.Syscall.System.{Outside}

abbrev pub cpu0 : Cpu
cpu0 = record {
  r = λ n. n;
  hi = 0;
  lo = 0;
  pc = 0x40_0000;
  ccr = λ n. 0;
  cpr = λ n. if n == 12 then 0x3000_ff11 else 0;
  fgr = λ n. n;
  fcr = λ n. 0;
  exception_occurred = false;
  running_in_delay_slot = false;
}

-- A page of data, of stack and of kernel data; the data may grow to 1 MB, the rest to 64 KB.
abbrev pub memory0 : Memory
memory0 = record {
  text_seg = λ n. empty;
  text_top = 0x40_1000;
  text_modified = false;
  data_seg = zero_bytes;
  data_top = 0x1000_1000;
  data_modified = false;
  stack_seg = zero_bytes;
  stack_bot = 0x7fff_f000;
  k_text_seg = λ n. empty;
  k_text_top = 0x8000_1000;
  k_data_seg = λ n. 7;
  k_data_top = 0x9000_1000;
  data_size_limit = 0x10_0000;
  stack_size_limit = 0x1_0000;
  k_data_size_limit = 0x1_0000;
  fresh = λ n. 0xaa;
}

abbrev pub devices0 : Devices
devices0 = record {
  recv_control = 0;
  recv_buffer = 0;
  recv_buffer_full_timer = 0;
  trans_control = 1;
  trans_buffer = 0;
  trans_buffer_full_timer = 0;
}

-- Without delayed branches and loads, or with both.
abbrev pub machine0 : Bool → Machine
machine0 delayed = record {
  cpu = cpu0;
  mem = memory0;
  devices = devices0;
  console = record { input = []; output = []; ticks = []; typed = []; answers = []; calls = [] };
  loads = record { slot1 = none; slot2 = none };
  settings = record {
    bare_machine = delayed;
    delayed_branches = delayed;
    delayed_loads = delayed;
    mapped_io = true;
  };
  label_addr = λ n. 0;
  force_break = false;
  spim_return_value = 0;
}

pub memory0-IsLaidOut : IsLaidOut memory0
memory0-IsLaidOut = record {
  data_above = omega arith;
  data_below_stack = omega arith;
  stack_below_top = omega arith;
  k_data_above = omega arith;
  k_data_below_io = omega arith;
  text_below_data = omega arith;
  data_words = omega arith;
  stack_words = omega arith;
  k_data_words = omega arith;
}

-- A host on which a double is an integer, compared as such.
abbrev operators0 : Operators
operators0 = record {
  abs = λ x. x;
  neg = λ x. x;
  sqrt = λ x. x;
  add = λ x y. x + y;
  sub = λ x y. x - y;
  mul = λ x y. x * y;
  div = λ x y. x / y;
  less = ltb;
  equal = λ x y. x == y;
}

abbrev pub host0 : Host
host0 = record {
  single = operators0;
  double = operators0;
  d_of_s = λ x. x;
  d_of_w = λ x. x;
  s_of_d = λ x. x;
  s_of_w = λ x. x;
  w_of_d = λ x. x;
  w_of_s = λ x. x;
  ceil = λ x. x;
  floor = λ x. x;
}

abbrev pub outside0 : Outside
outside0 = record {
  host = host0;
  format_int = λ n. n ∷ [];
  format_float = λ n. n ∷ [];
  format_double = λ n. n ∷ [];
  atol = λ text. 0;
  atof = λ text. 0;
  image = λ slots i. 0;
  overwrite = λ slots o bytes. slots;
  overrun = λ bytes m. fatal_error;
}

-- A delay slot whose instruction does nothing.
abbrev pub slot0 : M Bool
slot0 m = done true m
