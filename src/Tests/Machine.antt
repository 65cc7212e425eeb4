-- ===== src/Tests/Machine.antt =====
-- A small process manager: the process 5 runs, the ready list 100 holds 3 and 8, the process 4 waits
-- for a frame.
use virtual_memory_xinu_f.Base.{
  ℕ, ◌≡◌, refl, true, false, none, some, List, [], ◌∷◌, arith, ◌==◌, if◌then◌else◌,
}
use virtual_memory_xinu_f.Base.Int.{ℤ, pos}
use virtual_memory_xinu_f.Base.Distinct.{mem}
use virtual_memory_xinu_f.Kernel.{Proc, PrState, pr_curr, pr_ready, pr_frame, pr_wait, pr_susp}
use virtual_memory_xinu_f.Queues.{Qentry, minkey}
use virtual_memory_xinu_f.Queues.Chain.{IsQueue}
use virtual_memory_xinu_f.System.{System, Sentry, s_used, s_free}
use virtual_memory_xinu_f.Sched.Order.{IsReadyList, Runs}
use virtual_memory_xinu_f.Tests.Sample.{idle, sample_kernel}

abbrev state : ℕ → PrState
state a =
    if a == 5
    then pr_curr
    else if a == 3
    then pr_ready
    else if a == 8
    then pr_ready
    else if a == 4
    then pr_frame
    else if a == 6
    then pr_wait
    else pr_susp

-- The priority of the running process is `p`.
abbrev priority : ℕ → ℕ → ℕ
priority p a = if a == 5 then p else if a == 3 then 30 else if a == 8 then 20 else 35

abbrev pub procs : ℕ → ℕ → Proc
procs p a = record idle { prstate = state a; prprio = pos (priority p a) }

abbrev pub table : ℕ → Qentry
table a =
    if a == 100
    then record { qkey = pos 99; qnext = some 3; qprev = none }
    else if a == 3
    then record { qkey = pos 30; qnext = some 8; qprev = some 100 }
    else if a == 8
    then record { qkey = pos 20; qnext = some 101; qprev = some 3 }
    else if a == 101
    then record { qkey = minkey; qnext = none; qprev = some 8 }
    else if a == 104
    then record { qkey = pos 0; qnext = some 6; qprev = none }
    else if a == 6
    then record { qkey = pos 0; qnext = some 105; qprev = some 104 }
    else record { qkey = minkey; qnext = none; qprev = some 6 }

-- The semaphore 0 has a count of `n` and the queue 104, which holds the process 6; the semaphore 1
-- is free.
abbrev semaphores : ℤ → ℕ → Sentry
semaphores n a = record { sstate = if a == 0 then s_used else s_free; scount = n; squeue = 104 }

abbrev pub machine : ℕ → ℤ → System
machine p n = record {
  kernel = record (sample_kernel true true 0) {
    proctab = procs p;
    blocked = record { fbqueue = λ i. 4; fbqhead = 0; fbqtail = 0 };
  };
  queues = record { queuetab = table; nextqid = 106 };
  readylist = 100;
  sleepq = 102;
  ndefers = 0;
  attempt = false;
  preempt = 2;
  clktime = 0;
  count1000 = 1000;
  semtab = semaphores n;
  nextsem = 0;
  prcount = 6;
  nextpid = 9;
  memory = record {
    minheap = 0x10_0000;
    maxheap = 0x20_0000;
    memlist = record { mnext = none; mlength = 0 };
    blocks = λ a. record { mnext = none; mlength = 0 };
  };
}

abbrev pub listed : List ℕ
listed = 3 ∷ 8 ∷ []

listed-IsQueue : IsQueue table 100 listed
listed-IsQueue = record {
  in_table = refl;
  behind = omega arith;
  processes = refl;
  distinct = (refl, (refl, tt));
  chain = (refl, refl, (refl, refl, (refl, refl)));
}

ranks :
    (p a : ℕ) → mem a listed ≡ true → ((table a).qkey ≡ pos (priority p a)) × (state a ≡ pr_ready)
ranks p a m = ground arith

pub machine-IsReadyList : (p : ℕ) (n : ℤ) → IsReadyList (machine p n) listed
machine-IsReadyList p n = record {
  queue = listed-IsQueue;
  descending = (refl, (refl, tt));
  tail_key = refl;
  ranked = λ a m. (ranks p a m).0;
  ready_state = λ a m. (ranks p a m).1;
}

-- With a priority of 40 the running process is the right one.
pub machine-Runs : (n : ℤ) → Runs (machine 40 n) listed
machine-Runs n = record { ready_list = machine-IsReadyList 40 n; running = refl; highest = refl }
