-- ===== src/Kernel.antt =====
-- The kernel's state: `struct procent` of xinu-fall2022-paging/include/process.h, and the global
-- variables that the paging and the virtual heap code share. A process identifier is a number, and
-- SYSERR, where a process identifier is expected, is `none`.
use virtual_memory_xinu_f.Base.{ℕ, Bool, Option}
use virtual_memory_xinu_f.Base.Int.{ℤ}
use virtual_memory_xinu_f.Frames.{FrameTable}
use virtual_memory_xinu_f.Memory.{Memory}

abbrev pub syserr32 : ℕ
syserr32 = 0xffff_ffff

-- NPROC, as xinu-fall2022-paging/config/Configuration sets it.
abbrev pub nproc : ℕ
nproc = 100

-- PR_FREE to PR_FRAME.
pub data PrState : Type 0 where
  pr_free pr_curr pr_ready pr_recv pr_sleep pr_susp pr_wait pr_rectim pr_frame : PrState

-- `struct memblk`; NULL is `none`.
pub record Memblk : Type 0 where
  pub mnext : Option ℕ
  pub mlength : ℕ

-- `struct procent`, without the saved stack pointer, the name and the descriptors. `prpd` is the page directory's
-- page. `pralloc` is keyed by page number: `pralloc[VHNUM(a)]` is `pralloc (a / NBPG)`, and page
-- numbers outside 4096..5119 name memory outside the array. `heap` is the process's virtual memory,
-- as far as free blocks of its virtual heap stand in it.
pub record Proc : Type 0 where
  pub prstate : PrState
  pub prprio : ℤ
  pub prstkbase : ℕ
  pub prstklen : ℕ
  pub prsem : ℕ
  pub prparent : ℕ
  pub prmsg : ℕ
  pub prhasmsg : Bool
  pub prpd : ℕ
  pub prmeminit : Bool
  pub prmemblk : Memblk
  pub pralloc : ℕ → Bool
  pub heap : ℕ → Memblk

-- `fbqueue`, `fbqhead` and `fbqtail` of frameblock.c. The ends are of type `uint32`; SYSERR, the
-- mark of the empty queue, is 2^32 - 1 there.
pub record BlockQueue : Type 0 where
  pub fbqueue : ℕ → ℕ
  pub fbqhead : ℕ
  pub fbqtail : ℕ

pub record Kernel : Type 0 where
  pub frames : FrameTable
  pub mem : Memory
  pub identity_pt : ℕ → ℕ
  pub proctab : ℕ → Proc
  pub currpid : ℕ
  pub pgfaddr : ℕ
  pub pgf_pres : Bool
  pub blocked : BlockQueue
