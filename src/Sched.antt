-- ===== src/Sched.antt =====
-- xinu-fall2022-paging/system/ready.c, resched.c, yield.c, suspend.c, resume.c, chprio.c and getprio.c.
-- `resched` goes up to the context switch: in the state that it leaves the chosen process runs, and
-- what its caller does afterwards happens when the caller's process is chosen again.
pub mod Clock
pub mod Order
pub mod Resched
pub mod Ready
pub mod Released
pub mod Deferred
pub mod Elsewhere
use virtual_memory_xinu_f.Base.{
  ℕ, ◌+◌, ◌-◌, ◌<◌, Bool, true, false, ◌&&◌, ◌||◌, not, Option, none, some, ltb, ◌==◌,
  if◌then◌else◌, Status, ok, syserr,
}
use virtual_memory_xinu_f.Base.Int.{ℤ, ltb_ℤ}
use virtual_memory_xinu_f.Kernel.{
  Kernel, Proc, PrState, pr_free, pr_curr, pr_ready, pr_recv, pr_sleep, pr_susp, pr_wait, pr_rectim,
  pr_frame,
}
use virtual_memory_xinu_f.Queues.{Qentry, Queues, is_bad_pid, minkey, dequeue, getitem}
use virtual_memory_xinu_f.Queues.Ordered.{insert}
use virtual_memory_xinu_f.System.{System, quantum, proc_of, set_proc, set_prstate}

abbrev pub is_curr : PrState → Bool
is_curr pr_curr = true
is_curr _ = false

abbrev pub is_ready : PrState → Bool
is_ready pr_ready = true
is_ready _ = false

abbrev pub is_susp : PrState → Bool
is_susp pr_susp = true
is_susp _ = false

-- `isbadpid`.
abbrev pub bad_pid : ℕ → System → Bool
bad_pid pid y = is_bad_pid y.kernel.proctab pid

-- `queuetab[x].qkey`; the key at EMPTY, which is outside the table, is not described.
abbrev pub key_at : Option ℕ → (ℕ → Qentry) → ℤ
key_at none t = minkey
key_at (some x) t = (t x).qkey

abbrev pub firstkey : ℕ → Queues → ℤ
firstkey q s = key_at (s.queuetab q).qnext s.queuetab

-- `insert(pid, readylist, prptr->prprio)`, whose result is not tested.
abbrev pub insert_ready : ℕ → System → System
insert_ready pid y = record y {
  queues = (insert y.kernel.proctab pid y.readylist (proc_of pid y).prprio y.queues).1;
}

-- `resched` from `currpid = dequeue(readylist)` on. The list is never empty, since the null process
-- is always ready or running; the code does not test it.
abbrev pub run_first : Option ℕ × Queues → System → System
run_first (none, q) y = record y { queues = q }
run_first (some pid, q) y =
    set_prstate pid pr_curr
      (record y { queues = q; preempt = quantum; kernel = record y.kernel { currpid = pid } })

unfoldable pub switch : System → System
unfolding dequeue
switch y = run_first (dequeue y.readylist y.queues) y

unfoldable pub resched : System → System
unfolding switch insert
resched y =
    let old = y.kernel.currpid in
    if ltb 0 y.ndefers
    then record y { attempt = true }
    else if not (is_curr (proc_of old y).prstate)
    then switch y
    else if ltb_ℤ (firstkey y.readylist y.queues) (proc_of old y).prprio
    then y
    else switch (insert_ready old (set_prstate old pr_ready y))

-- `resched_cntl(DEFER_START)` and `resched_cntl(DEFER_STOP)`.
unfoldable pub defer_start : System → System
defer_start y = record y {
  ndefers = y.ndefers + 1;
  attempt = if y.ndefers == 0 then false else y.attempt;
}

unfoldable pub defer_stop : System → Status × System
unfolding resched
defer_stop y =
    if y.ndefers == 0
    then (syserr, y)
    else let y' = record y { ndefers = y.ndefers - 1 } in
      (ok, if (y'.ndefers == 0) && y'.attempt then resched y' else y')

unfoldable pub ready : ℕ → System → Status × System
unfolding resched insert
ready pid y =
    if bad_pid pid y
    then (syserr, y)
    else (ok, resched (insert_ready pid (set_prstate pid pr_ready y)))

unfoldable pub yield : System → System
unfolding resched
yield y = resched y

-- SYSERR is `none`. A process that suspends itself reads its priority when it is resumed; here it is
-- the one at the switch.
abbrev pub with_prio : ℕ → System → Option ℤ × System
with_prio pid y = (some (proc_of pid y).prprio, y)

abbrev pub suspend_ready : ℕ → System → System
unfolding getitem
suspend_ready pid y =
    set_prstate pid pr_susp (record y { queues = (getitem (some pid) y.queues).1 })

unfoldable pub suspend : ℕ → System → Option ℤ × System
unfolding resched suspend_ready
suspend pid y =
    if bad_pid pid y || (pid == 0)
    then (none, y)
    else if is_ready (proc_of pid y).prstate
    then with_prio pid (suspend_ready pid y)
    else if is_curr (proc_of pid y).prstate
    then with_prio pid (resched (set_prstate pid pr_susp y))
    else (none, y)

unfoldable pub resume : ℕ → System → Option ℤ × System
unfolding ready
resume pid y =
    if bad_pid pid y
    then (none, y)
    else if not (is_susp (proc_of pid y).prstate)
    then (none, y)
    else (some (proc_of pid y).prprio, (ready pid y).1)

-- `newprio` is a `pri16`.
unfoldable pub chprio : ℕ → ℤ → System → Option ℤ × System
chprio pid newprio y =
    if bad_pid pid y
    then (none, y)
    else (some (proc_of pid y).prprio, set_proc pid (record (proc_of pid y) { prprio = newprio }) y)

unfoldable pub getprio : ℕ → System → Option ℤ
getprio pid y = if bad_pid pid y then none else some (proc_of pid y).prprio
