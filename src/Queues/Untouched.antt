-- ===== src/Queues/Untouched.antt =====
-- What `enqueue` and `dequeue` leave alone.
use virtual_memory_xinu_f.Base.{ℕ, ◌+◌, ◌<◌, ◌≤◌, ◌≡◌, ◌≢◌, ap, ◌∙◌, true, false, List, ◌∷◌, arith}
use virtual_memory_xinu_f.Base.Distinct.{mem}
use virtual_memory_xinu_f.Kernel.{nproc, Proc}
use virtual_memory_xinu_f.Queues.{Qentry, Queues, is_bad_pid, enqueue, dequeue}
use virtual_memory_xinu_f.Queues.Chain.{
  IsQueue, Untouched, process_small, last_of, qprev-Chain, head_of, qnext-Chain, last_of-ne,
  head_of-ne,
}
use virtual_memory_xinu_f.Queues.Fifo.{link_eq, dequeue_eq}
use virtual_memory_xinu_f.Queues.Others.{keep-IsQueue, inserted-ne, removed-ne}

pub enqueue-Untouched :
    (procs : ℕ → Proc) (pid q : ℕ) (s : Queues) (xs : List ℕ)
    → IsQueue s.queuetab q xs
    → is_bad_pid procs pid ≡ false
    → Untouched s.queuetab (enqueue procs pid q s).1.queuetab q (pid ∷ xs)
unfolding enqueue
enqueue-Untouched procs pid q s xs v valid a n1 n2 out =
    let link =
      link_eq s.queuetab pid (last_of q xs) (q + 1) (qprev-Chain s.queuetab q xs (q + 1) v.chain) in
    rw (v.in_table, valid)
      (ap (λ u. u a) link
        ∙ inserted-ne pid (last_of q xs) (q + 1) s.queuetab a (λ e. absurd (ground arith))
            (last_of-ne q a xs n1 (ground arith)) n2)

pub dequeue-Untouched :
    (q x : ℕ) (s : Queues) (xs : List ℕ)
    → IsQueue s.queuetab q (x ∷ xs)
    → Untouched s.queuetab (dequeue q s).1.queuetab q (x ∷ xs)
dequeue-Untouched q x s xs v a n1 n2 out =
    let c = v.chain in
    let nx = head_of xs (q + 1) in
    let is_process : x < nproc = ground (arith, v.processes) in
    rw (dequeue_eq q x s nx v.in_table is_process c.0 c.1 (qnext-Chain s.queuetab x xs (q + 1) c.2))
      (removed-ne x q nx s.queuetab a (λ e. absurd (ground arith)) n1
        (head_of-ne xs (q + 1) a n2 (ground arith)))

-- A queue whose entries are not touched.
pub other-IsQueue :
    (t u : ℕ → Qentry) (q : ℕ) (xs : List ℕ) (r : ℕ) (ys : List ℕ)
    → Untouched t u q xs
    → IsQueue t r ys
    → q ≢ r
    → q + 1 ≢ r
    → r + 1 ≢ q
    → mem r xs ≡ false
    → mem (r + 1) xs ≡ false
    → ((a : ℕ) → mem a ys ≡ true → mem a xs ≡ false)
    → nproc ≤ q
    → IsQueue u r ys
other-IsQueue t u q xs r ys same v n1 n2 n3 out out' apart behind =
    keep-IsQueue t u r ys v (same r n1 n2 out)
      (same (r + 1) (λ e. n3 (omega arith)) (λ e. n1 (omega arith)) out')
      λ a m.
        let small = process_small a ys m v.processes in
        same a (omega (arith, small)) (omega (arith, small)) (apart a m)
