-- ===== src/Run/LoadStore.antt =====
-- CPU/run.cpp: the loads and stores of `run_spim`, on a little-endian host, and delayed loads.
pub mod Delay
use spim_curses.Base.{ℕ, Bool, true, false, Option, none, some, if◌then◌else◌, bit_and, add32}
use spim_curses.Cpu.Defs.{Cpu, Dest, gpr, set_dest}
use spim_curses.Machine.{Machine, Loads, M, ◌>>=◌, ◌>>◌, get, skip, on_cpu, pure}
use spim_curses.Memory.Access.{
  read_mem_byte, read_mem_half, read_mem_word, set_mem_byte, set_mem_half, set_mem_word,
}
use spim_curses.Inst.Op.{Op}
use spim_curses.Inst.Fields.{Instruction, rt, base, ioffset}
use spim_curses.Run.Arith.{lwl_merge, lwr_merge, swl_merge, swr_merge}

abbrev on_loads : (Loads → Loads) → M (Unit {0})
on_loads f m = pure tt (record m { loads = f m.loads })

-- `LOAD_INST_BASE`
unfoldable pub load_inst_base : Dest → ℕ → M (Unit {0})
load_inst_base dest value = do
  delayed ← get (λ m. m.settings.delayed_loads)
  if delayed
      then on_loads (λ l. record l { slot1 = some (dest, value) })
      else on_cpu (set_dest dest value)

abbrev write_slot : Option (Dest × ℕ) → Cpu → Cpu
write_slot none c = c
write_slot (some (dest, value)) c = set_dest dest value c

-- `DO_DELAYED_UPDATE`
unfoldable pub do_delayed_update : M (Unit {0})
do_delayed_update = do
  delayed ← get (λ m. m.settings.delayed_loads)
  loads ← get (λ m. m.loads)
  if delayed
      then (do
        on_cpu (write_slot loads.slot2)
        on_loads (λ l. record { slot1 = none; slot2 = loads.slot1 }))
      else skip

-- `R[BASE (inst)] + IOFFSET (inst)`
abbrev pub address : Instruction → Machine → ℕ
address inst m = add32 (m.cpu.r (base inst)) (ioffset inst)

-- `LOAD_INST (&R[RT (inst)], read (address), mask)`
unfoldable pub load : (ℕ → M ℕ) → ℕ → Instruction → M (Unit {0})
unfolding load_inst_base
load read mask inst = do
  addr ← get (address inst)
  value ← read addr
  load_inst_base (gpr (rt inst)) (bit_and value mask)

unfoldable pub store : (ℕ → ℕ → M (Unit {0})) → Instruction → M (Unit {0})
store write inst = do
  addr ← get (address inst)
  value ← get (λ m. m.cpu.r (rt inst))
  write addr value

-- `Y_LWL_OP` and `Y_LWR_OP`
unfoldable pub load_part : (ℕ → ℕ → ℕ → ℕ) → Instruction → M (Unit {0})
unfolding load_inst_base
load_part merge inst = do
  addr ← get (address inst)
  reg_val ← get (λ m. m.cpu.r (rt inst))
  word ← read_mem_word (bit_and addr 0xfffffffc)
  failed ← get (λ m. m.cpu.exception_occurred)
  load_inst_base (gpr (rt inst)) (if failed then word else merge (bit_and addr 0x3) word reg_val)

-- `Y_SWL_OP` and `Y_SWR_OP`
unfoldable pub store_part : (ℕ → ℕ → ℕ → ℕ) → Instruction → M (Unit {0})
store_part merge inst = do
  addr ← get (address inst)
  reg ← get (λ m. m.cpu.r (rt inst))
  data_word ← read_mem_word (bit_and addr 0xfffffffc)
  set_mem_word (bit_and addr 0xfffffffc) (merge (bit_and addr 0x3) data_word reg)

unfoldable pub memory_op : Op → Instruction → Option (M (Unit {0}))
unfolding load store load_part store_part
memory_op Op.lb inst = some (load read_mem_byte 0xffff_ffff inst)
memory_op Op.lbu inst = some (load read_mem_byte 0xff inst)
memory_op Op.lh inst = some (load read_mem_half 0xffff_ffff inst)
memory_op Op.lhu inst = some (load read_mem_half 0xffff inst)
memory_op Op.ll inst = some (load read_mem_word 0xffff_ffff inst)
memory_op Op.lw inst = some (load read_mem_word 0xffff_ffff inst)
memory_op Op.lwl inst = some (load_part lwl_merge inst)
memory_op Op.lwr inst = some (load_part lwr_merge inst)
memory_op Op.sb inst = some (store set_mem_byte inst)
memory_op Op.sc inst = some (store set_mem_word inst)
memory_op Op.sh inst = some (store set_mem_half inst)
memory_op Op.sw inst = some (store set_mem_word inst)
memory_op Op.swl inst = some (store_part swl_merge inst)
memory_op Op.swr inst = some (store_part swr_merge inst)
memory_op _ inst = none
