-- ===== src/FrameBlock.antt =====
-- xinu-fall2022-paging/system/frameblock.c: the circular queue of the processes that wait for a
-- frame.
pub mod Fifo
pub mod Wakeup
pub mod Liveness
use virtual_memory_xinu_f.Base.{ℕ, ◌+◌, ◌%◌, ◌^◌, Option, none, some, if◌then◌else◌, update, ◌==◌}
use virtual_memory_xinu_f.Kernel.{Kernel, BlockQueue, Proc, PrState, pr_frame, nproc, syserr32}

-- `__insert_fbqueue`, which always returns OK.
unfoldable pub insert_fbqueue : ℕ → BlockQueue → BlockQueue
insert_fbqueue pid q =
    if q.fbqhead == syserr32
    then record q { fbqhead = 0; fbqtail = 0; fbqueue = update q.fbqueue 0 pid }
    else let tail = (q.fbqtail + 1) % 2 ^ 32 % nproc in
      record q { fbqtail = tail; fbqueue = update q.fbqueue tail pid }

-- `__dequeue_fbqueue`; SYSERR is `none`.
unfoldable pub dequeue_fbqueue : BlockQueue → Option ℕ × BlockQueue
dequeue_fbqueue q = if q.fbqhead == syserr32 then (none, q) else (
  some (q.fbqueue q.fbqhead),
  (if q.fbqhead == q.fbqtail
      then record q { fbqhead = syserr32; fbqtail = syserr32 }
      else record q { fbqhead = (q.fbqhead + 1) % 2 ^ 32 % nproc }),
)

-- `frameblock`, up to its call of `resched`: the running process waits in the queue.
unfoldable pub frameblock : Kernel → Kernel
unfolding insert_fbqueue
frameblock k = record k {
  blocked = insert_fbqueue k.currpid k.blocked;
  proctab = update k.proctab k.currpid (record (k.proctab k.currpid) { prstate = pr_frame });
}
