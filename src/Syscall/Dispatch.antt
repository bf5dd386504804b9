-- ===== src/Syscall/Dispatch.antt =====
-- CPU/syscall.cpp: how `do_syscall` selects its case.
use spim_curses.Base.{◌≡◌, ap, none, some, Bool}
use spim_curses.Machine.{Machine, M, fail, unknown_syscall}
use spim_curses.Syscall.{SystemCall, do_syscall, call_of, syscall_case, reg_v0}
use spim_curses.Syscall.System.{Outside}

module _ (env : Outside) (m : Machine) where
  pub do_syscall-some :
      (call : SystemCall)
      → call_of (m.cpu.r reg_v0) ≡ some call
      → do_syscall env m ≡ syscall_case env call m
  unfolding do_syscall
  do_syscall-some call h =
      ap
        (λ o.
          (elim o as (λ x. M Bool) [ none ↦ fail unknown_syscall | some k ↦ syscall_case env k ]) m)
        h
