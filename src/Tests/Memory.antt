-- ===== src/Tests/Memory.antt =====
-- CPU/mem.cpp: the properties at concrete addresses.
use spim_curses.Base.{
  ℕ, ◌-◌, ◌≡◌, refl, arith, true, false, ◌&&◌, ltb, leb, if◌then◌else◌, bit_and, has, some, [], ◌∷◌,
}
use spim_curses.Machine.{Machine, done}
use spim_curses.Memory.Defs.{Memory}
use spim_curses.Memory.Layout.{IsLaidOut}
use spim_curses.Memory.Segments.{expand_stack, expand_k_data}
use spim_curses.Memory.Access.{read_mem_word, set_mem_word}
use spim_curses.Memory.Access.View.{byte_at, IsWritten}
use spim_curses.Memory.Access.RoundTrip.{read_mem_word-set_mem_word}
use spim_curses.Memory.Access.Faulty.{FaultsWith, word-unaligned}
use spim_curses.Memory.Growth.Stack.{IsDeeper, expand_stack-IsDeeper}
use spim_curses.Memory.Growth.Kernel.{expand_k_data-bytes, k_data_byte}
use spim_curses.Memory.Growth.Touch.{read_mem_word-near}
use spim_curses.Memory.Io.{trans_buffer_addr, write_memory_mapped_io, ready}
use spim_curses.Memory.Io.Transmitter.{checks, write_memory_mapped_io-cycle}
use spim_curses.Cpu.Exception.{exc_ad_el, exc_ad_es}
use spim_curses.Tests.Setting.{memory0, machine0, memory0-IsLaidOut}

abbrev m0 : Machine
m0 = machine0 false

read_mem_word-set_mem_word_example :
    (mem : Memory) × (set_mem_word 0x1000_0008 0xdead_beef m0 ≡ done tt (record m0 { mem = mem }))
    × IsLaidOut mem
    × IsWritten 4 0x1000_0008 0xdead_beef memory0 mem
    × (read_mem_word 0x1000_0008 (record m0 { mem = mem })
        ≡ done 0xdead_beef (record m0 { mem = mem }))
read_mem_word-set_mem_word_example =
    read_mem_word-set_mem_word 0x1000_0008 0xdead_beef m0 memory0-IsLaidOut (omega arith)
      (omega arith) refl

word-unaligned_example :
    FaultsWith exc_ad_el 0x1000_0002 0 false m0 (read_mem_word 0x1000_0002 m0)
    × FaultsWith exc_ad_es 0x1000_0002 tt true m0 (set_mem_word 0x1000_0002 5 m0)
word-unaligned_example = word-unaligned 0x1000_0002 m0 5 (omega arith)

expand_stack-IsDeeper_example :
    (mem : Memory) × (expand_stack 0x2001 m0 ≡ done tt (record m0 { mem = mem }))
    × IsDeeper 0x7fff_cffc memory0 mem
expand_stack-IsDeeper_example =
    expand_stack-IsDeeper 0x2001 m0 memory0-IsLaidOut (omega arith) (omega arith) (omega arith)
      (omega arith)

expand_k_data-bytes_example :
    (mem : Memory) × (expand_k_data 4 m0 ≡ done tt (record m0 { mem = mem }))
    × ((a : ℕ)
        → byte_at mem a ≡ (
            if leb 0x9000_0000 a && ltb a 0x9000_1004
            then some (k_data_byte 4 memory0 (a - 0x9000_0000))
            else byte_at memory0 a))
expand_k_data-bytes_example =
    expand_k_data-bytes 4 m0 memory0-IsLaidOut (omega arith) (omega arith) (omega arith)
      (omega arith)

read_mem_word-near_example :
    (mem : Memory) × (read_mem_word 0x7fff_eff0 m0 ≡ done 0 (record m0 { mem = mem }))
    × IsDeeper 0x7fff_e000 memory0 mem
    × (byte_at mem 0x7fff_eff0 ≡ some 0)
read_mem_word-near_example =
    read_mem_word-near 0x7fff_eff0 m0 memory0-IsLaidOut (omega arith)
      (record { near = refl; limit = omega arith; room = omega arith; within = omega arith })

write_memory_mapped_io-cycle_example :
    (m1 m2 : Machine) × (write_memory_mapped_io trans_buffer_addr 0x141 m0 ≡ done tt m1)
    × (m1.console.output ≡ bit_and 0x141 0xff ∷ [])
    × (checks 101 m1 ≡ done tt m2)
    × (has m2.devices.trans_control ready ≡ ltb 100 101)
write_memory_mapped_io-cycle_example = write_memory_mapped_io-cycle 0x141 101 m0 refl
