-- ===== src/Lib.antt =====
-- A model of SPIM, a simulator of MIPS processors: its memory, its exceptions, the loop that runs
-- instructions, its system calls and breakpoints, the encoding of instructions, and the part of its
-- assembler that the parser's rules call: labels, data and instructions with immediate values.
--
-- Parts. A file names the source it is about in its first line; paths are from the repository's root.
-- Memory: CPU/mem.cpp and CPU/mem.h. Memory.Defs has the segments, each a function from the offset to
--   a byte or to an instruction, with its bounds, and the devices; Memory.Segments has make_memory and
--   expand_data, expand_stack and expand_k_data; Memory.Access has read_mem_byte to set_mem_inst;
--   Memory.Fault has bad_text_read to bad_mem_write, which grow the stack, raise exceptions or turn to
--   the devices; Memory.Io has check_memory_mapped_IO and the reads and writes of the devices.
--   data_seg, data_seg_h and data_seg_b are one array, read little-endian. Memory.Layout says how
--   the segments lie; Memory.Access.View is one flat memory, against which reads and writes are stated.
-- Cpu: CPU/reg.h, raise_exception and bump_CP0_timer of CPU/run.cpp, handle_exception of
--   CPU/syscall.cpp, and the macros of CPU/inst.h.
-- Inst: CPU/inst.h, CPU/op.h and inst_encode and inst_decode of CPU/inst.cpp. The union of an
--   instruction's fields is one word. Inst.Rows has the table in the order that the sort leaves.
-- Utils: the binary searches of CPU/spim-utils.cpp.
-- Breakpoints: add_breakpoint, delete_breakpoint and run_program of CPU/spim-utils.cpp, and
--   set_breakpoint of CPU/inst.cpp. The list bkpts is handed in and handed on. Breakpoints.Slots has the
--   text segments by address, Breakpoints.Placed the program as it is without its breakpoints.
-- Command: the options of the command line and the commands of spim/spim.cpp, up to what they call,
--   and the rule for words of CPU/scanner.l, to which the table of keywords is a parameter; names are
--   lists of characters.
-- Startup: initialize_registers, initialize_stack and initialize_run_stack of CPU/spim-utils.cpp.
-- Syscall: do_syscall of CPU/syscall.cpp. Syscall.Pointer has mem_reference of CPU/mem.cpp and the
--   strings behind its pointers, Syscall.Console the bytes that pass through read_input and write_output
--   of spim/spim.cpp, and Syscall.System what the C library and the host do, as a parameter.
-- StringStream: CPU/string-stream.cpp; what vsnprintf of the C library does is a parameter.
-- Run: run_spim of CPU/run.cpp. Run.Alu, Run.LoadStore and Run.Branch have the cases of its switch,
--   Run.Arith and Run.Multiply what they compute, Run.Step one round of the inner loop, and Run.Loop
--   the two loops. Run.Floating has the floating-point cases: a register is a word, a double two of
--   them, and what the host does on float and double is the parameter Run.Floating.Host on bit
--   patterns. Cpu.Floating has the registers and condition codes of CPU/reg.h.
-- Symbols: CPU/sym-tbl.cpp and CPU/sym-tbl.h. A label is a number, for its address in the host's
--   memory; Symbols.Defs has get_hash, lookup_label and flush_local_labels, and the parts of
--   record_label that concern the table. A pointer next_local may lead anywhere.
-- Assembler: the state that the directives and the makers of instructions share, in Assembler.State.
--   Assembler.Data and Assembler.Store have CPU/data.cpp; Assembler.Expr, Assembler.Opcodes,
--   Assembler.Text, Assembler.Build and Assembler.Immediate have the immediate expressions, the text
--   counters and the makers of CPU/inst.cpp, up to i_type_inst; Assembler.Resolve and Assembler.Labels
--   have record_label and resolve_a_label_sub of CPU/sym-tbl.cpp. An instruction that is used before
--   its label is defined is known by its number and by the address where it was stored.
-- Machine: the state of a run, and the monad of the routines. run_error, which jumps to the top level, and
--   fatal_error, which ends the program, are outcomes; run_error keeps the state.
-- Base: words of 32 bits as numbers below 2 ^ 32 with their wrap-around written out, `&` and `|`,
--   signed integers, and the names that all parts share. Tests: each result at one input.
--
-- How the parts interact. A round of the loop fetches by read_mem_inst, runs a case, which reads and
-- writes through Memory.Access, and turns to handle_exception when a routine below it has raised an
-- exception; the loop looks at the devices and pending interrupts between chunks of rounds. A branch
-- with a delay slot calls run_spim again for one instruction. The assembler writes memory by the same
-- routines as a run; the data directives grow the data segment ahead of their counter. The addresses of
-- the labels that a run reads, label_addr, are those of the assembler's symbols.
--
-- Bounds and fuel. run_chunks has as much fuel as there are steps, which is enough, as each of its
-- rounds takes one step at least; search_loop has the length of the table. run_spim has a bound on how
-- deep branches may stand in delay slots of branches, which the source leaves to its stack; past it
-- the outcome is too_deep. flush_local_labels has fuel for the rounds of its loop, of which the length
-- of the list is enough; a list that is a ring needs more than any fuel. i_type_inst has a bound on how
-- deep its calls of itself are nested, of which 3 is enough.
-- The loop of ss_printf has fuel for its rounds, each of which doubles the buffer.
-- split_args has fuel for the rounds of its loop, each but the last of which takes a character off.
--
-- Not modelled. The answers of the console, of the timer and of the operating system's files are
-- lists in the state. A text segment is an array of pointers: what a system call reads and writes
-- there is a parameter, and so is what a write past the end of any segment's array does. An entry
-- of fgr past 31, which ldc1 can write, stands for the word of the host's memory behind the
-- registers; what else the simulator keeps there is not known. Messages, the display of
-- instructions and symbols, source lines, the rest of the scanner, the parser's grammar, the
-- loading of files and what the user interfaces do with their commands are left out. Data that is
-- stored over an instruction which still waits for its label is not noticed by the assembler's
-- state.
pub mod Base
pub mod StringStream
pub mod Utils
pub mod Inst
pub mod Cpu
pub mod Memory
pub mod Machine
pub mod Run
pub mod Symbols
pub mod Syscall
pub mod Breakpoints
pub mod Startup
pub mod Command
pub mod Assembler
pub mod Tests
