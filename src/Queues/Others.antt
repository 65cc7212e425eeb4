-- ===== src/Queues/Others.antt =====
-- The queues of one table do not disturb each other.
use virtual_memory_xinu_f.Base.{
  ℕ, ◌+◌, ◌≤◌, ◌<◌, ◌≡◌, ◌≢◌, ap, true, false, List, ◌∷◌, arith, inl, inr,
}
use virtual_memory_xinu_f.Base.Distinct.{mem}
use virtual_memory_xinu_f.Kernel.{nproc, Proc}
use virtual_memory_xinu_f.Queues.{Qentry, Queues, is_bad_pid, enqueue, dequeue}
use virtual_memory_xinu_f.Queues.Chain.{
  IsQueue, all_processes, Chain-frame, last_of, qprev-Chain, inserted, not_process, process_small,
  removed, head_of, qnext-Chain, last_of-cases, head_of-cases,
}
use virtual_memory_xinu_f.Queues.Fifo.{link_eq, dequeue_eq}

-- Two queues with different ends and no process in common.
pub record Apart (q : ℕ) (xs : List ℕ) (r : ℕ) (ys : List ℕ) : Type 0 where
  pub heads : q ≢ r
  pub after : q + 1 ≢ r
  pub before : r + 1 ≢ q
  pub no_common : (a : ℕ) → mem a ys ≡ true → mem a xs ≡ false

-- The queue `r` stays as it is when its entries do.
pub keep-IsQueue :
    (t u : ℕ → Qentry) (r : ℕ) (ys : List ℕ)
    → IsQueue t r ys
    → u r ≡ t r
    → u (r + 1) ≡ t (r + 1)
    → ((a : ℕ) → mem a ys ≡ true → u a ≡ t a)
    → IsQueue u r ys
keep-IsQueue t u r ys v head tail same = record {
  in_table = v.in_table;
  behind = v.behind;
  processes = v.processes;
  distinct = v.distinct;
  chain =
      Chain-frame t u r ys (r + 1) (ap (λ (e : Qentry). e.qnext) head) same
        (ap (λ (e : Qentry). e.qprev) tail) v.chain;
}

pub inserted-ne :
    (pid prev tail : ℕ) (t : ℕ → Qentry) (a : ℕ)
    → pid ≢ a
    → prev ≢ a
    → tail ≢ a
    → inserted pid prev tail t a ≡ t a
inserted-ne pid prev tail t a n1 n2 n3 = ground arith

-- `enqueue` of a process, valid by the process table and in neither of two queues that are apart,
-- into one of them leaves the other as it is.
pub enqueue-others :
    (procs : ℕ → Proc) (pid q : ℕ) (s : Queues) (xs : List ℕ) (r : ℕ) (ys : List ℕ)
    → IsQueue s.queuetab q xs
    → IsQueue s.queuetab r ys
    → Apart q xs r ys
    → is_bad_pid procs pid ≡ false
    → mem pid ys ≡ false
    → IsQueue (enqueue procs pid q s).1.queuetab r ys
unfolding enqueue
enqueue-others procs pid q s xs r ys v w apart valid new =
    let is_process : pid < nproc = ground arith in
    let last = last_of-cases q xs in
    let at_end : (a : ℕ) → nproc ≤ a → q ≢ a → last_of q xs ≢ a = λ a h ne e. elim last [
      | inl same ↦ ne (cc)
      | inr m ↦ absurd (cc (not_process a xs h v.processes, ap (λ b. mem b xs) e))
    ] in
    rw
      (
        v.in_table,
        valid,
        link_eq s.queuetab pid (last_of q xs) (q + 1) (qprev-Chain s.queuetab q xs (q + 1) v.chain),
      )
      (keep-IsQueue s.queuetab (inserted pid (last_of q xs) (q + 1) s.queuetab) r ys w
        (inserted-ne pid (last_of q xs) (q + 1) s.queuetab r (omega (arith, w.behind))
          (at_end r w.behind apart.heads) apart.after)
        (inserted-ne pid (last_of q xs) (q + 1) s.queuetab (r + 1) (omega (arith, w.behind))
          (at_end (r + 1) (omega (arith, w.behind)) (λ e. apart.before (omega arith)))
          (λ e. apart.heads (omega arith)))
        λ a m.
          let small : a < nproc = process_small a ys m w.processes in
          inserted-ne pid (last_of q xs) (q + 1) s.queuetab a
            (λ e. absurd (cc (ap (λ b. mem b ys) e)))
            (λ e. elim last [
              | inl at_head ↦ absurd (omega (arith, v.behind))
              | inr inside ↦ absurd (cc (apart.no_common a m, ap (λ b. mem b xs) e))
            ])
            (omega (arith, v.behind)))

pub removed-ne :
    (x q nx : ℕ) (t : ℕ → Qentry) (a : ℕ) → x ≢ a → q ≢ a → nx ≢ a → removed x q nx t a ≡ t a
removed-ne x q nx t a n1 n2 n3 = ground arith

-- `dequeue` from one of two queues that are apart, with a process in it, leaves the other as it is.
pub dequeue-others :
    (q x : ℕ) (s : Queues) (xs : List ℕ) (r : ℕ) (ys : List ℕ)
    → IsQueue s.queuetab q (x ∷ xs)
    → IsQueue s.queuetab r ys
    → Apart q (x ∷ xs) r ys
    → IsQueue (dequeue q s).1.queuetab r ys
dequeue-others q x s xs r ys v w apart =
    let c = v.chain in
    let nx = head_of xs (q + 1) in
    let is_process : x < nproc = ground (arith, v.processes) in
    let others : all_processes xs ≡ true = ground (arith, v.processes) in
    let next = head_of-cases xs (q + 1) in
    let next_ne : (a : ℕ) → mem a xs ≡ false → q + 1 ≢ a → nx ≢ a = λ a out ne e. elim next [
      | inl same ↦ ne (cc)
      | inr inside ↦ absurd (cc (out, ap (λ b. mem b xs) e))
    ] in
    rw (dequeue_eq q x s nx v.in_table is_process c.0 c.1 (qnext-Chain s.queuetab x xs (q + 1) c.2))
      (keep-IsQueue s.queuetab (removed x q nx s.queuetab) r ys w
        (removed-ne x q nx s.queuetab r (omega (arith, w.behind)) apart.heads
          (next_ne r (not_process r xs w.behind others) apart.after))
        (removed-ne x q nx s.queuetab (r + 1) (omega (arith, w.behind))
          (λ e. apart.before (omega arith))
          (next_ne (r + 1) (not_process (r + 1) xs (omega (arith, w.behind)) others)
            (λ e. apart.heads (omega arith))))
        λ a m.
          let small : a < nproc = process_small a ys m w.processes in
          let out : mem a (x ∷ xs) ≡ false = apart.no_common a m in
          removed-ne x q nx s.queuetab a (ground (arith, out)) (omega (arith, v.behind))
            (next_ne a (ground (arith, out)) (omega (arith, v.behind))))
