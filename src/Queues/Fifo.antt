-- ===== src/Queues/Fifo.antt =====
-- A queue of the table as a list of processes: `enqueue` and `dequeue` are first in, first out.
use virtual_memory_xinu_f.Base.{
  ℕ, ◌+◌, ◌≤◌, ◌<◌, ◌≡◌, refl, ap, ap₂, ◌∙◌, true, false, none, some, ltb, List, [], ◌∷◌, ◌++◌,
  arith,
}
use virtual_memory_xinu_f.Base.Distinct.{mem, Distinct-snoc}
use virtual_memory_xinu_f.Kernel.{nproc, Proc}
use virtual_memory_xinu_f.Queues.{
  nqent, Qentry, Queues, is_bad_pid, is_bad_qid, above_nproc, is_empty, emptied, set_qnext,
  set_qprev, link_at_tail, enqueue, unlink, getitem, getfirst, dequeue, newqueue,
}
use virtual_memory_xinu_f.Queues.Chain.{
  all_processes, IsQueue, last_of, qprev-Chain, inserted, Chain-inserted, not_process, head_of,
  removed, qnext-Chain, Chain-removed,
}

all_processes-snoc :
    (xs : List ℕ) (a : ℕ)
    → all_processes xs ≡ true
    → a < nproc
    → all_processes (xs ++ a ∷ []) ≡ true
all_processes-snoc [] a ok h = ground arith
all_processes-snoc (x ∷ xs) a ok h = ground (arith, all_processes-snoc xs a (ground arith) h)

pub link_eq :
    (t : ℕ → Qentry) (pid prev tail : ℕ)
    → (t tail).qprev ≡ some prev
    → link_at_tail pid tail t ≡ inserted pid prev tail t
link_eq t pid prev tail e =
    ap
      (λ pr.
        set_qprev (some tail) (some pid)
          (set_qnext pr (some pid) (set_qprev (some pid) pr (set_qnext (some pid) (some tail) t))))
      e

-- `enqueue` of a process, valid by the process table, that is not in the queue puts it at the end
-- of the queue and returns it.
pub enqueue-IsQueue :
    (procs : ℕ → Proc) (pid q : ℕ) (s : Queues) (xs : List ℕ)
    → IsQueue s.queuetab q xs
    → is_bad_pid procs pid ≡ false
    → mem pid xs ≡ false
    → ((enqueue procs pid q s).0 ≡ some pid)
      × IsQueue (enqueue procs pid q s).1.queuetab q (xs ++ pid ∷ [])
unfolding enqueue
enqueue-IsQueue procs pid q s xs v valid new =
    let is_process : pid < nproc = ground arith in
    rw (v.in_table, valid)
      (
        refl,
        record {
          in_table = v.in_table;
          behind = v.behind;
          processes = all_processes-snoc xs pid v.processes is_process;
          distinct = Distinct-snoc xs pid v.distinct new;
          chain =
              rw
                (link_eq s.queuetab pid (last_of q xs) (q + 1)
                  (qprev-Chain s.queuetab q xs (q + 1) v.chain))
                (Chain-inserted s.queuetab pid q xs (q + 1) (not_process q xs v.behind v.processes)
                  v.distinct (not_process (q + 1) xs (omega (arith, v.behind)) v.processes)
                  (omega arith) (omega (arith, v.behind)) (omega (arith, v.behind)) new v.chain);
        },
      )

pub dequeue_eq :
    (q x : ℕ) (s : Queues) (nx : ℕ)
    → is_bad_qid q ≡ false
    → x < nproc
    → (s.queuetab q).qnext ≡ some x
    → (s.queuetab x).qprev ≡ some q
    → (s.queuetab x).qnext ≡ some nx
    → dequeue q s ≡ (some x, record s { queuetab = removed x q nx s.queuetab })
unfolding dequeue getfirst getitem unlink
dequeue_eq q x s nx ok h first prev next =
    let not_empty : is_empty q s ≡ false = ap above_nproc first ∙ ground arith in
    let links = ap₂ (λ n p. set_qprev n p (set_qnext p n s.queuetab)) next prev in
    rw (ok, not_empty)
      (ap (λ o. emptied (getitem o s)) first
        ∙ ap
            (λ u.
              (some x, record s { queuetab = set_qnext (some x) none (set_qprev (some x) none u) }))
            links)

-- `dequeue` of a queue with a process at the front returns this process and leaves the others, in
-- their order.
pub dequeue-IsQueue :
    (q x : ℕ) (s : Queues) (xs : List ℕ)
    → IsQueue s.queuetab q (x ∷ xs)
    → ((dequeue q s).0 ≡ some x) × IsQueue (dequeue q s).1.queuetab q xs
dequeue-IsQueue q x s xs v =
    let c = v.chain in
    let is_process : x < nproc = ground (arith, v.processes) in
    rw
      (dequeue_eq q x s (head_of xs (q + 1)) v.in_table is_process c.0 c.1
        (qnext-Chain s.queuetab x xs (q + 1) c.2))
      (
        refl,
        record {
          in_table = v.in_table;
          behind = v.behind;
          processes = ground (arith, v.processes);
          distinct = v.distinct.1;
          chain = Chain-removed s.queuetab q x xs v.behind v.processes v.distinct c;
        },
      )

-- `dequeue` of an empty queue returns EMPTY and changes nothing.
pub dequeue-empty : (q : ℕ) (s : Queues) → IsQueue s.queuetab q [] → dequeue q s ≡ (none, s)
unfolding dequeue
dequeue-empty q s v =
    let empty : is_empty q s ≡ true = ap above_nproc v.chain.0 ∙ ground (arith, v.behind) in
    rw (v.in_table, empty) refl

-- `newqueue`, when the next index is one of the queues' and leaves room for a head and a tail,
-- makes an empty queue there and moves the next index behind it.
pub newqueue-IsQueue :
    (s : Queues)
    → nproc ≤ s.nextqid
    → is_bad_qid s.nextqid ≡ false
    → ((newqueue s).0 ≡ some s.nextqid)
      × IsQueue (newqueue s).1.queuetab s.nextqid []
      × ((newqueue s).1.nextqid ≡ s.nextqid + 2)
unfolding newqueue
newqueue-IsQueue s behind ok =
    let room : ltb nqent s.nextqid ≡ false = ground arith in
    rw room (
      refl,
      record {
        in_table = ok;
        behind = behind;
        processes = refl;
        distinct = tt;
        chain = (ground arith, ground arith);
      },
      refl,
    )
