-- ===== src/Tests/Semaphore.antt =====
-- The theorems on semaphores at a concrete state: the process 6 waits on the semaphore 0.
use virtual_memory_xinu_f.Base.{ℕ, ◌≡◌, refl, ok, true, some, [], ◌∷◌, arith}
use virtual_memory_xinu_f.Base.Int.{pos, negsuc, ltb_ℤ}
use virtual_memory_xinu_f.Base.Distinct.{mem}
use virtual_memory_xinu_f.Kernel.{pr_wait}
use virtual_memory_xinu_f.Queues.{minkey}
use virtual_memory_xinu_f.System.{System, proc_of}
use virtual_memory_xinu_f.Sched.Order.{prio}
use virtual_memory_xinu_f.Semaphores.{wait, signal, semcreate}
use virtual_memory_xinu_f.Semaphores.Balance.{IsSemaphore}
use virtual_memory_xinu_f.Semaphores.Wait.{Waited, wait-IsSemaphore}
use virtual_memory_xinu_f.Semaphores.Signal.{Signalled, signal-IsSemaphore}
use virtual_memory_xinu_f.Semaphores.Create.{Obtained, semcreate-Obtained}
use virtual_memory_xinu_f.Tests.Machine.{machine, listed, machine-Runs}

abbrev busy : System
busy = machine 40 (negsuc 0)

busy_waits : (a : ℕ) → mem a (6 ∷ []) ≡ true → (proc_of a busy).prstate ≡ pr_wait
busy_waits a m = ground arith

busy_above : (a : ℕ) → mem a (6 ∷ []) ≡ true → ltb_ℤ minkey (prio busy a) ≡ true
busy_above a m = ground arith

busy-IsSemaphore : IsSemaphore busy 0 (6 ∷ [])
busy-IsSemaphore = record {
  valid = refl;
  queue = record {
    in_table = refl;
    behind = omega arith;
    processes = refl;
    distinct = (refl, tt);
    chain = (refl, refl, (refl, refl));
  };
  balance = refl;
  waiting = busy_waits;
  above = busy_above;
  heads = omega arith;
  after = omega arith;
  before = omega arith;
}

wait-IsSemaphore_example :
    ((wait 0 busy).0 ≡ ok) × Waited busy (wait 0 busy).1 0 (6 ∷ []) 3 (8 ∷ []) 0
wait-IsSemaphore_example =
    wait-IsSemaphore busy 0 (6 ∷ []) 3 (8 ∷ []) busy-IsSemaphore (machine-Runs (negsuc 0)) refl refl
      refl

signal-IsSemaphore_example :
    ((signal 0 busy).0 ≡ ok) × Signalled busy (signal 0 busy).1 0 (6 ∷ []) listed
signal-IsSemaphore_example =
    signal-IsSemaphore busy 0 listed (machine-Runs (negsuc 0)) refl refl refl (omega arith) (6 ∷ [])
      busy-IsSemaphore

semcreate-Obtained_example :
    (sem : ℕ) × ((semcreate (pos 3) busy).0 ≡ some sem)
    × Obtained busy (semcreate (pos 3) busy).1 sem
    × (((semcreate (pos 3) busy).1.semtab sem).scount ≡ pos 3)
semcreate-Obtained_example = semcreate-Obtained (pos 3) 1 busy refl (omega arith) (omega arith) refl
