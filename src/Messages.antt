-- ===== src/Messages.antt =====
-- xinu-fall2022-paging/system/send.c, receive.c, recvclr.c and recvtime.c: one-word messages. A function
-- that blocks is two: up to `resched`, and from there on, when its process is chosen again.
pub mod Delivery
use virtual_memory_xinu_f.Base.{
  ℕ, Bool, true, false, ◌||◌, Option, none, some, if◌then◌else◌, Status, ok, syserr,
}
use virtual_memory_xinu_f.Base.Int.{ℤ, is_neg}
use virtual_memory_xinu_f.Kernel.{PrState, pr_free, pr_recv, pr_rectim, syserr32}
use virtual_memory_xinu_f.Queues.Ordered.{insertd}
use virtual_memory_xinu_f.System.{System, proc_of, set_proc, set_prstate}
use virtual_memory_xinu_f.Sched.{bad_pid, resched, ready}
use virtual_memory_xinu_f.Sched.Clock.{unsleep}

abbrev pub is_free : PrState → Bool
is_free pr_free = true
is_free _ = false

abbrev pub is_recv : PrState → Bool
is_recv pr_recv = true
is_recv _ = false

abbrev pub is_rectim : PrState → Bool
is_rectim pr_rectim = true
is_rectim _ = false

abbrev pub deliver : ℕ → ℕ → System → System
deliver pid msg y = set_proc pid (record (proc_of pid y) { prmsg = msg; prhasmsg = true }) y

unfoldable pub send : ℕ → ℕ → System → Status × System
unfolding ready unsleep
send pid msg y =
    if bad_pid pid y
    then (syserr, y)
    else if is_free (proc_of pid y).prstate || (proc_of pid y).prhasmsg
    then (syserr, y)
    else if is_recv (proc_of pid y).prstate
    then (ok, (ready pid (deliver pid msg y)).1)
    else if is_rectim (proc_of pid y).prstate
    then (ok, (ready pid (unsleep pid (deliver pid msg y)).1).1)
    else (ok, deliver pid msg y)

-- `prhasmsg = FALSE` for the running process.
abbrev pub taken : System → System
taken y = let pid = y.kernel.currpid in set_proc pid (record (proc_of pid y) { prhasmsg = false }) y

abbrev pub own_message : System → ℕ
own_message y = (proc_of y.kernel.currpid y).prmsg

-- `receive` from the retrieval of the message on.
unfoldable pub receive_resumed : System → ℕ × System
receive_resumed y = (own_message y, taken y)

-- `receive`: the message, or `none` if the caller blocks.
unfoldable pub receive : System → Option ℕ × System
unfolding resched receive_resumed
receive y =
    let pid = y.kernel.currpid in
    if (proc_of pid y).prhasmsg
    then (some (receive_resumed y).0, (receive_resumed y).1)
    else (none, resched (set_prstate pid pr_recv y))

-- Without a message the result is OK, which is 1.
unfoldable pub recvclr : System → ℕ × System
recvclr y = if (proc_of y.kernel.currpid y).prhasmsg then (own_message y, taken y) else (1, y)

-- TIMEOUT, which is -3.
abbrev pub timeout : ℕ
timeout = 0xffff_fffd

unfoldable pub recvtime_resumed : System → ℕ × System
recvtime_resumed y =
    if (proc_of y.kernel.currpid y).prhasmsg then (own_message y, taken y) else (timeout, y)

-- `recvtime`: the result, or `none` if the caller blocks.
unfoldable pub recvtime : ℤ → System → Option ℕ × System
unfolding insertd resched recvtime_resumed
recvtime maxwait y =
    let pid = y.kernel.currpid in
    let (st, q) = insertd y.kernel.proctab pid y.sleepq maxwait y.queues in
    if is_neg maxwait
    then (some syserr32, y)
    else if (proc_of pid y).prhasmsg
    then (some (recvtime_resumed y).0, (recvtime_resumed y).1)
    else elim st [
      | syserr ↦ (some syserr32, record y { queues = q })
      | ok ↦ (none, resched (set_prstate pid pr_rectim (record y { queues = q })))
    ]
