-- ===== src/Sched/Clock.antt =====
-- xinu-fall2022-paging/system/sleep.c, unsleep.c, wakeup.c and clkhandler.c: the delta list of the
-- sleeping processes. The key of an entry is the delay, in milliseconds, behind the entry before.
use virtual_memory_xinu_f.Base.{
  ℕ, zero, suc, ◌+◌, ◌-◌, ◌*◌, ◌%◌, ◌^◌, Bool, true, false, ◌&&◌, not, Option, none, some, ltb,
  ◌==◌, if◌then◌else◌, update, Status, ok, syserr,
}
use virtual_memory_xinu_f.Base.Int.{ℤ, pos, ◌+ℤ◌, leb_ℤ, pred_ℤ, to_int32}
use virtual_memory_xinu_f.Kernel.{nproc, PrState, pr_sleep, pr_rectim}
use virtual_memory_xinu_f.Queues.{Qentry, Queues, is_empty, dequeue, getitem}
use virtual_memory_xinu_f.Queues.Ordered.{insertd}
use virtual_memory_xinu_f.System.{System, quantum, proc_of, set_prstate}
use virtual_memory_xinu_f.Sched.{bad_pid, firstkey, resched, defer_start, defer_stop, ready, yield}

abbrev pub is_timed : PrState → Bool
is_timed pr_sleep = true
is_timed pr_rectim = true
is_timed _ = false

-- The delay of the entry that leaves goes to the process behind it. An `int16` EMPTY is below NPROC; the
-- entry there is outside the table.
abbrev pub delay_next : Option ℕ → ℤ → (ℕ → Qentry) → ℕ → Qentry
delay_next none key t = t
delay_next (some next) key t =
    if ltb next nproc then update t next (record (t next) { qkey = (t next).qkey +ℤ key }) else t

unfoldable pub unsleep : ℕ → System → Status × System
unfolding getitem
unsleep pid y =
    if bad_pid pid y
    then (syserr, y)
    else if not (is_timed (proc_of pid y).prstate)
    then (syserr, y)
    else let t = y.queues.queuetab in
      let later = record y.queues { queuetab = delay_next (t pid).qnext (t pid).qkey t } in
      (ok, record y { queues = (getitem (some pid) later).1 })

-- `ready(dequeue(q))`, whose result is not tested; `ready(EMPTY)` changes nothing.
abbrev pub ready_one : Option ℕ × Queues → System → System
ready_one (none, q) y = record y { queues = q }
ready_one (some pid, q) y = (ready pid (record y { queues = q })).1

-- The loop of `wakeup`, on fuel: it removes a process from the queue in each round, so NPROC rounds
-- are enough.
unfoldable pub wake_all : ℕ → System → System
unfolding ready dequeue
wake_all zero y = y
wake_all (suc fuel) y =
    let rest = wake_all fuel (ready_one (dequeue y.sleepq y.queues) y) in
    if not (is_empty y.sleepq y.queues) && leb_ℤ (firstkey y.sleepq y.queues) (pos 0)
    then rest
    else y

unfoldable pub wakeup : System → System
unfolding wake_all defer_start defer_stop
wakeup y = (defer_stop (wake_all nproc (defer_start y))).1

-- The delay is a `uint32`, and `insertd` takes an `int32`.
unfoldable pub sleepms : ℕ → System → Status × System
unfolding insertd yield resched
sleepms delay y =
    if delay == 0
    then (ok, yield y)
    else let pid = y.kernel.currpid in
      let (st, q) = insertd y.kernel.proctab pid y.sleepq (to_int32 delay) y.queues in
      elim st [
        | syserr ↦ (syserr, record y { queues = q })
        | ok ↦ (ok, resched (set_prstate pid pr_sleep (record y { queues = q })))
      ]

-- MAXSECONDS.
abbrev pub maxseconds : ℕ
maxseconds = 4294967

-- The result of `sleepms` is not used.
unfoldable pub sleep : ℕ → System → Status × System
unfolding sleepms
sleep delay y =
    if ltb maxseconds delay then (syserr, y) else (ok, (sleepms (1000 * delay % 2 ^ 32) y).1)

-- `--queuetab[firstid(sleepq)].qkey`.
abbrev pub tick_first : Option ℕ → Queues → Queues
tick_first none s = s
tick_first (some x) s = record s {
  queuetab = update s.queuetab x (record (s.queuetab x) { qkey = pred_ℤ (s.queuetab x).qkey });
}

abbrev pub tick_sleepers : System → System
tick_sleepers y = record y { queues = tick_first (y.queues.queuetab y.sleepq).qnext y.queues }

-- `(--count1000) <= 0` on a `uint32`, and so for `preempt`.
abbrev pub tick_second : System → System
tick_second y =
    let c = (y.count1000 + 2 ^ 32 - 1) % 2 ^ 32 in
    if c == 0
    then record y { clktime = (y.clktime + 1) % 2 ^ 32; count1000 = 1000 }
    else record y { count1000 = c }

abbrev pub wake_sleepers : System → System
unfolding wakeup
wake_sleepers y =
    if is_empty y.sleepq y.queues
    then y
    else let y' = tick_sleepers y in
      if leb_ℤ (firstkey y'.sleepq y'.queues) (pos 0) then wakeup y' else y'

abbrev pub tick_preempt : System → System
unfolding resched
tick_preempt y =
    let c = (y.preempt + 2 ^ 32 - 1) % 2 ^ 32 in
    if c == 0 then resched (record y { preempt = quantum }) else record y { preempt = c }

unfoldable pub clkhandler : System → System
unfolding wake_sleepers tick_preempt
clkhandler y = tick_preempt (wake_sleepers (tick_second y))
