-- ===== src/FrameBlock/Wakeup.antt =====
-- `framewakeup` of xinu-fall2022-paging/system/frameblock.c.
use virtual_memory_xinu_f.Base.{
  ℕ, zero, suc, ◌+◌, Bool, not, ◌&&◌, Option, none, some, if◌then◌else◌,
}
use virtual_memory_xinu_f.Frames.{FrameTable, e1, e2, hasfreeframe}
use virtual_memory_xinu_f.Kernel.{BlockQueue, nproc}
use virtual_memory_xinu_f.FrameBlock.{dequeue_fbqueue}
use virtual_memory_xinu_f.System.{System}
use virtual_memory_xinu_f.Sched.{ready, defer_start, defer_stop}

unfoldable pub no_frames : FrameTable → Bool
unfolding hasfreeframe
no_frames fr = not (hasfreeframe e1 fr) && not (hasfreeframe e2 fr)

abbrev pub set_blocked : BlockQueue → System → System
set_blocked q y = record y { kernel = record y.kernel { blocked = q } }

-- What a round does with the process that it takes from the queue, and the `break` on SYSERR. The
-- result of `ready` is not tested.
abbrev pub wake_then : (System → System) → Option ℕ × BlockQueue → System → System
wake_then rest (none, q) y = set_blocked q y
wake_then rest (some pid, q) y = rest (ready pid (set_blocked q y)).1

-- The loop, on fuel. Each round takes a process from the queue, which holds at most NPROC.
unfoldable pub wake_blocked : ℕ → System → System
unfolding no_frames ready dequeue_fbqueue
wake_blocked zero y = y
wake_blocked (suc fuel) y =
    let round = wake_then (wake_blocked fuel) (dequeue_fbqueue y.kernel.blocked) y in
    if no_frames y.kernel.frames then y else round

unfoldable pub framewakeup : System → System
unfolding wake_blocked defer_start defer_stop
framewakeup y = (defer_stop (wake_blocked (nproc + 1) (defer_start y))).1
