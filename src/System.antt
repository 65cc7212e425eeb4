-- ===== src/System.antt =====
-- The state of the process manager: the paging kernel, the queues, and the global variables of the
-- scheduler, the clock, the semaphores and the process table (xinu-fall2022-paging/system/ready.c,
-- resched.c, clkinit.c, clkhandler.c, semcreate.c, create.c; include/resched.h, semaphore.h).
use virtual_memory_xinu_f.Base.{ℕ, Bool, update}
use virtual_memory_xinu_f.Base.Int.{ℤ}
use virtual_memory_xinu_f.Kernel.{Kernel, Proc, PrState, Memblk}
use virtual_memory_xinu_f.Queues.{Queues}

-- QUANTUM, NSEM.
abbrev pub quantum : ℕ
quantum = 2

abbrev pub nsem : ℕ
nsem = 100

-- S_FREE, S_USED.
pub data SemState : Type 0 where
  s_free s_used : SemState

-- `struct sentry`.
pub record Sentry : Type 0 where
  pub sstate : SemState
  pub scount : ℤ
  pub squeue : ℕ

-- The free memory list of the kernel heap: `memlist`, `minheap`, `maxheap`, and the memory as far as
-- free blocks stand in it.
pub record MemList : Type 0 where
  pub minheap : ℕ
  pub maxheap : ℕ
  pub memlist : Memblk
  pub blocks : ℕ → Memblk

-- `ndefers` and `attempt` are `Defer`'s. The first starts at 0 and is lowered only when it is
-- positive. `nextsem` and `nextpid` are the static variables of `newsem` and `newpid`, `count1000`
-- that of `clkhandler`.
pub record System : Type 0 where
  pub kernel : Kernel
  pub queues : Queues
  pub readylist : ℕ
  pub sleepq : ℕ
  pub ndefers : ℕ
  pub attempt : Bool
  pub preempt : ℕ
  pub clktime : ℕ
  pub count1000 : ℕ
  pub semtab : ℕ → Sentry
  pub nextsem : ℕ
  pub prcount : ℕ
  pub nextpid : ℕ
  pub memory : MemList

abbrev pub proc_of : ℕ → System → Proc
proc_of pid y = y.kernel.proctab pid

abbrev pub set_proc : ℕ → Proc → System → System
set_proc pid p y = record y { kernel = record y.kernel { proctab = update y.kernel.proctab pid p } }

-- `proctab[pid].prstate = st`.
abbrev pub set_prstate : ℕ → PrState → System → System
set_prstate pid st y = set_proc pid (record (proc_of pid y) { prstate = st }) y

abbrev pub set_semaphore : ℕ → Sentry → System → System
set_semaphore sem e y = record y { semtab = update y.semtab sem e }
