-- ===== src/Queues/Ordered.antt =====
-- xinu-fall2022-paging/system/insert.c and system/insertd.c: insertion by descending key, and into a
-- delta list. The two walks run on fuel, of NPROC + 1 rounds; a walk that has used it up stops where it
-- is, which does not happen on a well-formed queue.
use virtual_memory_xinu_f.Base.{
  ℕ, zero, suc, ◌+◌, not, ◌&&◌, ◌||◌, Option, none, some, ◌==◌, if◌then◌else◌, update, Status, ok,
  syserr,
}
use virtual_memory_xinu_f.Base.Int.{ℤ, ◌-ℤ◌, leb_ℤ}
use virtual_memory_xinu_f.Kernel.{nproc, Proc}
use virtual_memory_xinu_f.Queues.{Qentry, Queues, is_bad_pid, is_bad_qid, set_qnext, set_qprev}

-- The loop of `insert`: the index at which it stops.
unfoldable pub find_place : ℕ → ℤ → Option ℕ → (ℕ → Qentry) → Option ℕ
find_place zero key curr t = curr
find_place (suc fuel) key none t = none
find_place (suc fuel) key (some curr) t =
    let further = find_place fuel key (t curr).qnext t in
    if leb_ℤ key (t curr).qkey then further else some curr

-- The writes of `insert`, in front of `curr`.
abbrev pub insert_before : ℕ → ℤ → Option ℕ → (ℕ → Qentry) → ℕ → Qentry
insert_before pid key none t = t
insert_before pid key (some curr) t =
    let prev = (t curr).qprev in
    let t1 = update t pid (record { qkey = key; qnext = some curr; qprev = prev }) in
    set_qprev (some curr) (some pid) (set_qnext prev (some pid) t1)

unfoldable pub insert : (ℕ → Proc) → ℕ → ℕ → ℤ → Queues → Status × Queues
unfolding find_place
insert procs pid q key s = if is_bad_qid q || is_bad_pid procs pid then (syserr, s) else (
  ok,
  record s {
    queuetab =
        insert_before pid key (find_place (nproc + 1) key (s.queuetab q).qnext s.queuetab)
          s.queuetab;
  },
)

-- The loop of `insertd`: the remaining delay, and the entries between which it stops.
unfoldable pub find_delay : ℕ → ℕ → ℤ → ℕ → Option ℕ → (ℕ → Qentry) → ℤ × ℕ × Option ℕ
find_delay zero tail key prev next t = (key, prev, next)
find_delay (suc fuel) tail key prev none t = (key, prev, none)
find_delay (suc fuel) tail key prev (some next) t =
    let further = find_delay fuel tail (key -ℤ (t next).qkey) next (t next).qnext t in
    if not (next == tail) && leb_ℤ (t next).qkey key then further else (key, prev, some next)

-- The entry behind the new one waits that much less after it.
abbrev pub lower_key : ℕ → ℤ → (ℕ → Qentry) → ℕ → Qentry
lower_key next key t = update t next (record (t next) { qkey = (t next).qkey -ℤ key })

-- The writes of `insertd`.
abbrev pub insert_between : ℕ → ℕ → ℤ × ℕ × Option ℕ → (ℕ → Qentry) → ℕ → Qentry
insert_between pid tail (key, prev, none) t = t
insert_between pid tail (key, prev, some next) t =
    let t1 = update t pid (record { qkey = key; qnext = some next; qprev = some prev }) in
    let t2 = set_qprev (some next) (some pid) (set_qnext (some prev) (some pid) t1) in
    if not (next == tail) then lower_key next key t2 else t2

unfoldable pub insertd : (ℕ → Proc) → ℕ → ℕ → ℤ → Queues → Status × Queues
unfolding find_delay
insertd procs pid q key s = if is_bad_qid q || is_bad_pid procs pid then (syserr, s) else (
  ok,
  record s {
    queuetab =
        insert_between pid (q + 1)
          (find_delay (nproc + 1) (q + 1) key q (s.queuetab q).qnext s.queuetab) s.queuetab;
  },
)
