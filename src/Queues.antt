-- ===== src/Queues.antt =====
-- xinu-fall2022-paging/include/queue.h, system/queue.c, system/getitem.c and system/newqueue.c: queues
-- of processes as doubly linked entries of one table. An index is a number, EMPTY is `none`; what
-- the code does at `queuetab[EMPTY]`, which is memory outside the table, is not described.
pub mod Chain
pub mod Fifo
pub mod Others
pub mod Untouched
pub mod Ordered
pub mod Placed
pub mod Sorted
pub mod Insert
pub mod Delta
pub mod Delays
pub mod Insertd
use virtual_memory_xinu_f.Base.{
  ℕ, ◌+◌, ◌-◌, Bool, true, false, ◌||◌, Option, none, some, leb, ltb, if◌then◌else◌, update,
}
use virtual_memory_xinu_f.Base.Int.{ℤ, pos, negsuc}
use virtual_memory_xinu_f.Kernel.{nproc, Proc, PrState, pr_free}

-- NQENT, with the 100 semaphores of config/Configuration.
abbrev pub nqent : ℕ
nqent = 304

-- MAXKEY, MINKEY.
abbrev pub maxkey : ℤ
maxkey = pos 0x7fff_ffff

abbrev pub minkey : ℤ
minkey = negsuc 0x7fff_ffff

-- `struct qentry`.
pub record Qentry : Type 0 where
  pub qkey : ℤ
  pub qnext : Option ℕ
  pub qprev : Option ℕ

-- `queuetab`, and the static `nextqid` of `newqueue`.
pub record Queues : Type 0 where
  pub queuetab : ℕ → Qentry
  pub nextqid : ℕ

abbrev pub is_free_state : PrState → Bool
is_free_state pr_free = true
is_free_state _ = false

-- `isbadpid`, `isbadqid`.
abbrev pub is_bad_pid : (ℕ → Proc) → ℕ → Bool
is_bad_pid procs pid = leb nproc pid || is_free_state (procs pid).prstate

abbrev pub is_bad_qid : ℕ → Bool
is_bad_qid q = leb (nqent - 1) q

-- `x >= NPROC` for an index or EMPTY.
abbrev pub above_nproc : Option ℕ → Bool
above_nproc none = false
above_nproc (some x) = leb nproc x

abbrev pub is_empty : ℕ → Queues → Bool
is_empty q s = above_nproc (s.queuetab q).qnext

-- `queuetab[i].qnext = x` and `queuetab[i].qprev = x`.
abbrev pub set_qnext : Option ℕ → Option ℕ → (ℕ → Qentry) → ℕ → Qentry
set_qnext none x t = t
set_qnext (some i) x t = update t i (record (t i) { qnext = x })

abbrev pub set_qprev : Option ℕ → Option ℕ → (ℕ → Qentry) → ℕ → Qentry
set_qprev none x t = t
set_qprev (some i) x t = update t i (record (t i) { qprev = x })

-- The four writes of `enqueue`.
abbrev pub link_at_tail : ℕ → ℕ → (ℕ → Qentry) → ℕ → Qentry
link_at_tail pid tail t =
    let prev = (t tail).qprev in
    let t1 = set_qnext (some pid) (some tail) t in
    let t2 = set_qprev (some pid) prev t1 in
    let t3 = set_qnext prev (some pid) t2 in set_qprev (some tail) (some pid) t3

-- SYSERR is `none`.
unfoldable pub enqueue : (ℕ → Proc) → ℕ → ℕ → Queues → Option ℕ × Queues
enqueue procs pid q s =
    if is_bad_qid q || is_bad_pid procs pid
    then (none, s)
    else (some pid, record s { queuetab = link_at_tail pid (q + 1) s.queuetab })

-- The two writes of `getitem`, which returns its argument.
unfoldable pub unlink : ℕ → (ℕ → Qentry) → ℕ → Qentry
unlink pid t =
    let next = (t pid).qnext in
    let prev = (t pid).qprev in set_qprev next prev (set_qnext prev next t)

unfoldable pub getitem : Option ℕ → Queues → Option ℕ × Queues
unfolding unlink
getitem none s = (none, s)
getitem (some pid) s = (some pid, record s { queuetab = unlink pid s.queuetab })

unfoldable pub getfirst : ℕ → Queues → Option ℕ × Queues
unfolding getitem
getfirst q s = if is_empty q s then (none, s) else getitem (s.queuetab q).qnext s

unfoldable pub getlast : ℕ → Queues → Option ℕ × Queues
unfolding getitem
getlast q s = if is_empty q s then (none, s) else getitem (s.queuetab (q + 1)).qprev s

abbrev pub emptied : Option ℕ × Queues → Option ℕ × Queues
emptied (none, s) = (none, s)
emptied (some pid, s) = (
  some pid,
  record s { queuetab = set_qnext (some pid) none (set_qprev (some pid) none s.queuetab) },
)

-- SYSERR and EMPTY, which are the same number, are `none`.
unfoldable pub dequeue : ℕ → Queues → Option ℕ × Queues
unfolding getfirst
dequeue q s =
    if is_bad_qid q then (none, s) else if is_empty q s then (none, s) else emptied (getfirst q s)

abbrev empty_ends : ℕ → (ℕ → Qentry) → ℕ → Qentry
empty_ends q t =
    let head : Qentry = record { qnext = some (q + 1); qprev = none; qkey = maxkey } in
    let tail : Qentry = record { qnext = none; qprev = some q; qkey = minkey } in
    update (update t q head) (q + 1) tail

-- SYSERR is `none`. The test for overflow is the code's.
unfoldable pub newqueue : Queues → Option ℕ × Queues
newqueue s =
    let q = s.nextqid in
    if ltb nqent q
    then (none, s)
    else (some q, record { queuetab = empty_ends q s.queuetab; nextqid = q + 2 })
