-- ===== src/Processes.antt =====
-- xinu-fall2022-paging/system/create.c and kill.c: the process table entries. What `create` writes to
-- the new stack, and the name and the descriptors of a process, are not described. `kill` is three
-- functions, since the process that calls it may be suspended by `send` and by `framewakeup`.
use virtual_memory_xinu_f.Base.{
  ℕ, zero, suc, ◌+◌, ◌-◌, ◌*◌, ◌/◌, ◌%◌, ◌&&◌, ◌||◌, false, not, Option, none, some, leb, ltb, ◌==◌,
  if◌then◌else◌, update, for_range, Status,
}
use virtual_memory_xinu_f.Base.Int.{ℤ, pos, ltb_ℤ, succ_int32}
use virtual_memory_xinu_f.Frames.{d, frame0, nframes, is_free, FrameTable, invfreeframe}
use virtual_memory_xinu_f.Kernel.{
  Kernel, Proc, PrState, nproc, syserr32, pr_free, pr_curr, pr_ready, pr_sleep, pr_susp, pr_wait,
  pr_rectim,
}
use virtual_memory_xinu_f.Paging.{newpd}
use virtual_memory_xinu_f.Queues.{is_free_state, getitem}
use virtual_memory_xinu_f.VirtualHeap.{word}
use virtual_memory_xinu_f.System.{System, MemList, proc_of, set_proc, set_prstate}
use virtual_memory_xinu_f.Allocator.{getstk, freestk}
use virtual_memory_xinu_f.Sched.{bad_pid, resched}
use virtual_memory_xinu_f.Sched.Clock.{unsleep}
use virtual_memory_xinu_f.FrameBlock.Wakeup.{framewakeup}
use virtual_memory_xinu_f.Semaphores.{set_count}
use virtual_memory_xinu_f.Messages.{send}

-- The loop of `newpid`, with `n` rounds left.
unfoldable pub newpid : ℕ → System → Option ℕ × System
newpid zero y = (none, y)
newpid (suc n) y =
    let pid = y.nextpid % nproc in
    let y' = record y { nextpid = pid + 1 } in
    let further = newpid n y' in
    if is_free_state (proc_of pid y).prstate then (some pid, y') else further

-- MINSTK and `roundew`.
abbrev pub stack_size : ℕ → ℕ
stack_size ssize = word ((if ltb ssize 400 then 400 else ssize) + 3) / 4 * 4

-- The result of `newpd`; SYSERR is stored as it is.
abbrev pub install_pd : ℕ → Option ℕ × Kernel → Kernel
install_pd pid (none, k) = record k {
  proctab = update k.proctab pid (record (k.proctab pid) { prpd = syserr32 });
}
install_pd pid (some f, k) = record k {
  proctab = update k.proctab pid (record (k.proctab pid) { prpd = f });
}

-- The virtual heap of a new process; `pralloc` has the page numbers 4096..5119.
abbrev pub no_heap : Proc → Proc
no_heap p = record p {
  prmeminit = false;
  pralloc = λ i. if leb 4096 i && ltb i 5120 then false else p.pralloc i;
}

-- The process table entry of the new process.
abbrev pub new_entry : ℕ → ℕ → ℤ → ℕ → Proc → Proc
new_entry saddr ssize priority parent p = record p {
  prstate = pr_susp;
  prprio = priority;
  prstkbase = saddr;
  prstklen = ssize;
  prsem = syserr32;
  prparent = parent;
  prhasmsg = false;
}

abbrev pub fill_entry : ℕ → ℕ → ℕ → ℤ → System → System
unfolding newpd
fill_entry pid saddr ssize priority y =
    let y1 = record y { prcount = y.prcount + 1 } in
    let y2 = set_proc pid (new_entry saddr ssize priority y.kernel.currpid (proc_of pid y)) y1 in
    let y3 = record y2 { kernel = install_pd pid (newpd pid y2.kernel) } in
    set_proc pid (no_heap (proc_of pid y3)) y3

abbrev pub with_pid : ℕ → ℕ → ℤ → Option ℕ × System → Option ℕ × System
with_pid saddr ssize priority (none, y) = (none, y)
with_pid saddr ssize priority (some pid, y) =
    if ltb_ℤ priority (pos 1) then (none, y) else (some pid, fill_entry pid saddr ssize priority y)

abbrev pub with_stack : ℕ → ℤ → Option (Option ℕ × MemList) → System → Option (Option ℕ × System)
unfolding newpid
with_stack ssize priority none y = none
with_stack ssize priority (some (none, h)) y = some (none, record y { memory = h })
with_stack ssize priority (some (some saddr, h)) y =
    some (with_pid saddr ssize priority (newpid nproc (record y { memory = h })))

-- SYSERR is the inner `none`; the outer one is that of `getstk`.
unfoldable pub create : ℕ → ℤ → System → Option (Option ℕ × System)
unfolding with_stack getstk
create ssize priority y =
    let size = stack_size ssize in with_stack size priority (getstk size y.memory) y

-- The frames of the process are given up.
unfoldable pub free_frames : ℕ → FrameTable → FrameTable
unfolding invfreeframe
free_frames pid fr =
    for_range nframes 0
      (λ i fr'.
        let e = fr'.invpt (i + frame0 d) in
        if (e.fr_pid == pid) && not (is_free e.fr_state)
        then (invfreeframe (i + frame0 d) fr').1
        else fr')
      fr

-- How the first part of `kill` ends: it refuses, it stops the machine after the last user process
-- (`xdone`), or it goes on.
pub data Killing : Type 0 where
  refused : Killing
  halts : System → Killing
  dying : System → Killing

unfoldable pub kill_frames : ℕ → System → Killing
unfolding free_frames send
kill_frames pid y =
    let y1 = record y { prcount = y.prcount - 1 } in
    let y2 = record y1 {
      kernel = record y1.kernel { frames = free_frames pid y1.kernel.frames };
    } in
    if bad_pid pid y || (pid == 0)
    then refused
    else if leb y1.prcount 1
    then halts y1
    else dying (send (proc_of pid y2).prparent pid y2).1

-- From `close` on. `close_all` stands for the three calls of `close`, which go to device drivers.
abbrev pub waken : Option (Status × MemList) → System → Option System
unfolding framewakeup
waken none y = none
waken (some (st, h)) y = some (framewakeup (record y { memory = h }))

unfoldable pub kill_stack : (System → System) → ℕ → System → Option System
unfolding waken freestk
kill_stack close_all pid y =
    let y' = close_all y in
    waken (freestk (proc_of pid y').prstkbase (proc_of pid y').prstklen y'.memory) y'

abbrev pub leave_queue : ℕ → System → System
unfolding getitem
leave_queue pid y = set_prstate pid pr_free (record y { queues = (getitem (some pid) y.queues).1 })

-- The `switch` on the state of the process. A process that killed itself does not return from
-- `resched`.
abbrev pub end_in : PrState → ℕ → System → System
unfolding resched unsleep leave_queue
end_in pr_curr pid y = resched (set_prstate pid pr_free y)
end_in pr_sleep pid y = set_prstate pid pr_free (unsleep pid y).1
end_in pr_rectim pid y = set_prstate pid pr_free (unsleep pid y).1
end_in pr_wait pid y =
    let sem = (proc_of pid y).prsem in
    leave_queue pid (set_count sem (succ_int32 (y.semtab sem).scount) y)
end_in pr_ready pid y = leave_queue pid y
end_in _ pid y = set_prstate pid pr_free y

unfoldable pub kill_end : ℕ → System → System
unfolding end_in
kill_end pid y = end_in (proc_of pid y).prstate pid y
