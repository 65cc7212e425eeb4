-- ===== src/Semaphores.antt =====
-- xinu-fall2022-paging/system/wait.c, signal.c, signaln.c, semcount.c, semcreate.c, semdelete.c and
-- semreset.c. A semaphore's number is a natural number; a negative `sid32` is a number from 2^31 on.
-- A count is an `int32`, the integer that it stands for, and goes round at its ends.
pub mod Balance
pub mod Join
pub mod Wait
pub mod Signal
pub mod Create
pub mod Counted
use virtual_memory_xinu_f.Base.{
  ℕ, zero, suc, ◌+◌, Bool, true, false, ◌||◌, Option, none, some, leb, if◌then◌else◌, Status, ok,
  syserr,
}
use virtual_memory_xinu_f.Base.Int.{ℤ, is_neg, succ_int32, pred_int32, pos_part, neg_part}
use virtual_memory_xinu_f.Kernel.{nproc, pr_wait}
use virtual_memory_xinu_f.Queues.{Queues, enqueue, dequeue, getfirst}
use virtual_memory_xinu_f.System.{
  System, SemState, s_free, s_used, nsem, proc_of, set_proc, set_semaphore,
}
use virtual_memory_xinu_f.Sched.{resched, ready, defer_start, defer_stop}
use virtual_memory_xinu_f.Sched.Clock.{ready_one}

-- `isbadsem(sem) || semtab[sem].sstate == S_FREE`.
abbrev pub is_free_sem : SemState → Bool
is_free_sem s_free = true
is_free_sem s_used = false

abbrev pub bad_sem : ℕ → System → Bool
bad_sem sem y = leb nsem sem || is_free_sem (y.semtab sem).sstate

abbrev pub set_count : ℕ → ℤ → System → System
set_count sem n y = set_semaphore sem (record (y.semtab sem) { scount = n }) y

-- The caller waits: its state, `prsem`, and its place in the queue.
abbrev pub wait_in_queue : ℕ → System → System
unfolding enqueue
wait_in_queue sem y =
    let pid = y.kernel.currpid in
    let y' = set_proc pid (record (proc_of pid y) { prstate = pr_wait; prsem = sem }) y in
    record y' { queues = (enqueue y'.kernel.proctab pid (y'.semtab sem).squeue y'.queues).1 }

unfoldable pub wait : ℕ → System → Status × System
unfolding wait_in_queue resched
wait sem y =
    if bad_sem sem y
    then (syserr, y)
    else let y' = set_count sem (pred_int32 (y.semtab sem).scount) y in
      (ok, if is_neg (y'.semtab sem).scount then resched (wait_in_queue sem y') else y')

-- `if ((semptr->scount++) < 0) ready(dequeue(semptr->squeue))`.
abbrev pub signal_once : ℕ → System → System
unfolding dequeue ready
signal_once sem y =
    let y' = set_count sem (succ_int32 (y.semtab sem).scount) y in
    if is_neg (y.semtab sem).scount
    then ready_one (dequeue (y'.semtab sem).squeue y'.queues) y'
    else y'

unfoldable pub signal : ℕ → System → Status × System
unfolding signal_once
signal sem y = if bad_sem sem y then (syserr, y) else (ok, signal_once sem y)

-- The loop of `signaln`.
unfoldable pub signal_times : ℕ → ℕ → System → System
unfolding signal_once
signal_times sem zero y = y
signal_times sem (suc n) y = signal_times sem n (signal_once sem y)

unfoldable pub signaln : ℕ → ℤ → System → Status × System
unfolding signal_times defer_start defer_stop
signaln sem count y =
    if (leb nsem sem || is_neg count) || is_free_sem (y.semtab sem).sstate
    then (syserr, y)
    else (ok, (defer_stop (signal_times sem (pos_part count) (defer_start y))).1)

-- SYSERR, which the code returns as the number -1, is `none`.
unfoldable pub semcount : ℕ → System → Option ℤ
semcount sem y = if bad_sem sem y then none else some (y.semtab sem).scount

-- The loop of `newsem`, with `n` rounds left.
unfoldable pub newsem : ℕ → System → Option ℕ × System
newsem zero y = (none, y)
newsem (suc n) y =
    let sem = y.nextsem in
    let y' = record y { nextsem = if leb nsem (sem + 1) then 0 else sem + 1 } in
    let further = newsem n y' in
    if is_free_sem (y.semtab sem).sstate
    then (some sem, set_semaphore sem (record (y.semtab sem) { sstate = s_used }) y')
    else further

abbrev pub with_count : ℤ → Option ℕ × System → Option ℕ × System
with_count count (none, y) = (none, y)
with_count count (some sem, y) = (some sem, set_count sem count y)

unfoldable pub semcreate : ℤ → System → Option ℕ × System
unfolding newsem
semcreate count y = if is_neg count then (none, y) else with_count count (newsem nsem y)

-- The loop of `semdelete`: one round for each unit by which the count is below 0, and the last test,
-- which counts up once more.
abbrev pub release_one : ℕ → System → System
unfolding getfirst ready
release_one sem y = ready_one (getfirst (y.semtab sem).squeue y.queues) y

unfoldable pub release_waiting : ℕ → ℕ → System → System
unfolding release_one
release_waiting sem zero y = set_count sem (succ_int32 (y.semtab sem).scount) y
release_waiting sem (suc n) y =
    release_waiting sem n (release_one sem (set_count sem (succ_int32 (y.semtab sem).scount) y))

unfoldable pub semdelete : ℕ → System → Status × System
unfolding release_waiting defer_start defer_stop
semdelete sem y =
    if bad_sem sem y
    then (syserr, y)
    else let y' = set_semaphore sem (record (y.semtab sem) { sstate = s_free }) y in
      (ok, (defer_stop (release_waiting sem (neg_part (y.semtab sem).scount) (defer_start y'))).1)

-- The loop of `semreset`, on fuel: each round takes a process from the queue.
abbrev pub reset_then : (System → System) → Option ℕ × Queues → System → System
reset_then rest (none, q) y = record y { queues = q }
reset_then rest (some pid, q) y = rest (ready pid (record y { queues = q })).1

unfoldable pub empty_queue : ℕ → ℕ → System → System
unfolding getfirst ready
empty_queue zero q y = y
empty_queue (suc fuel) q y = reset_then (empty_queue fuel q) (getfirst q y.queues) y

unfoldable pub semreset : ℕ → ℤ → System → Status × System
unfolding empty_queue defer_start defer_stop
semreset sem count y =
    if (is_neg count || leb nsem sem) || is_free_sem (y.semtab sem).sstate
    then (syserr, y)
    else let y' = empty_queue (nproc + 1) (y.semtab sem).squeue (defer_start y) in
      (ok, (defer_stop (set_count sem count y')).1)
