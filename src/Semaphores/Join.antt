-- ===== src/Semaphores/Join.antt =====
-- A process that joins the queue of a semaphore, and changes of the count.
use virtual_memory_xinu_f.Base.{
  ℕ, suc, ◌+◌, ◌<◌, ◌≡◌, ◌≢◌, refl, sym, ap, ◌∙◌, subst, List, [], ◌∷◌, ◌++◌, arith, ◌==◌, leb,
  ◌||◌, true, false, update, ◌⊎◌, inl, inr, Bool-cases,
}
use virtual_memory_xinu_f.Base.Int.{ℤ, neg_part, ltb_ℤ}
use virtual_memory_xinu_f.Base.Distinct.{mem, length, mem-append}
use virtual_memory_xinu_f.Kernel.{Proc, PrState, nproc, pr_wait, pr_curr, pr_ready}
use virtual_memory_xinu_f.Queues.{Qentry, Queues, minkey, is_bad_pid, enqueue}
use virtual_memory_xinu_f.Queues.Chain.{
  IsQueue, all_processes, not_process, last_of, inserted, qprev-Chain,
}
use virtual_memory_xinu_f.Queues.Fifo.{link_eq, enqueue-IsQueue}
use virtual_memory_xinu_f.Queues.Untouched.{other-IsQueue, enqueue-Untouched}
use virtual_memory_xinu_f.Queues.Sorted.{keys}
use virtual_memory_xinu_f.System.{System, Sentry, proc_of, set_proc, nsem}
use virtual_memory_xinu_f.Sched.{is_curr, is_ready, bad_pid}
use virtual_memory_xinu_f.Sched.Order.{IsReadyList, Runs, prio, Descending-keys}
use virtual_memory_xinu_f.Sched.Resched.{not_listed}
use virtual_memory_xinu_f.Semaphores.{is_free_sem, set_count}
use virtual_memory_xinu_f.Semaphores.Balance.{IsSemaphore, squeue_of}

pub entry_of-set_count :
    (sem : ℕ) (n : ℤ) (y : System)
    → (set_count sem n y).semtab sem ≡ record (y.semtab sem) { scount = n }
entry_of-set_count sem n y = let same : (sem == sem) ≡ true = ground arith in rw same refl

qkey-enqueue :
    (procs : ℕ → Proc) (pid q : ℕ) (s : Queues) (xs : List ℕ)
    → IsQueue s.queuetab q xs
    → is_bad_pid procs pid ≡ false
    → (a : ℕ) → ((enqueue procs pid q s).1.queuetab a).qkey ≡ (s.queuetab a).qkey
unfolding enqueue
qkey-enqueue procs pid q s xs v valid a =
    let link =
      link_eq s.queuetab pid (last_of q xs) (q + 1) (qprev-Chain s.queuetab q xs (q + 1) v.chain) in
    rw (v.in_table, valid)
      (ap (λ (u : ℕ → Qentry). (u a).qkey) link ∙ same_key (last_of q xs) (q + 1) s.queuetab)
  where
    same_key : (prev tail : ℕ) (t : ℕ → Qentry) → (inserted pid prev tail t a).qkey ≡ (t a).qkey
    same_key prev tail t = ground arith

pub not_waiting :
    (y : System) (sem : ℕ) (qs : List ℕ) (a : ℕ) (st : PrState)
    → IsSemaphore y sem qs
    → (proc_of a y).prstate ≡ st
    → is_curr st || is_ready st ≡ true
    → mem a qs ≡ false
not_waiting y sem qs a st s is e = elim (Bool-cases (mem a qs)) [
  | inl m ↦ absurd (
      cc (
        ap (λ p. is_curr p || is_ready p) (s.waiting a m),
        ap (λ p. is_curr p || is_ready p) is,
        e,
      ))
  | inr out ↦ out
]

-- A change of the count that fits the queue.
pub set_count-IsSemaphore :
    (y : System) (sem : ℕ) (qs : List ℕ) (n : ℤ)
    → IsSemaphore y sem qs
    → neg_part n ≡ length qs
    → IsSemaphore (set_count sem n y) sem qs
set_count-IsSemaphore y sem qs n s e =
    let at = entry_of-set_count sem n y in
    let same : squeue_of sem (set_count sem n y) ≡ squeue_of sem y =
      ap (λ (r : Sentry). r.squeue) at in
    record {
      valid = ap (λ (r : Sentry). leb nsem sem || is_free_sem r.sstate) at ∙ s.valid;
      queue = subst (λ q. IsQueue y.queues.queuetab q qs) (sym same) s.queue;
      balance = ap (λ (r : Sentry). neg_part r.scount) at ∙ e;
      waiting = s.waiting;
      above = s.above;
      heads = λ q. s.heads (q ∙ same);
      after = λ q. s.after (q ∙ same);
      before = λ q. s.before (ap (λ k. k + 1) (sym same) ∙ q);
    }

pub set_count-Runs :
    (y : System) (xs : List ℕ) (sem : ℕ) (n : ℤ) → Runs y xs → Runs (set_count sem n y) xs
set_count-Runs y xs sem n run = record {
  ready_list = record {
    queue = run.ready_list.queue;
    descending = run.ready_list.descending;
    tail_key = run.ready_list.tail_key;
    ranked = run.ready_list.ranked;
    ready_state = run.ready_list.ready_state;
  };
  running = run.running;
  highest = run.highest;
}

module _ (y : System) (sem : ℕ) (qs xs : List ℕ) (s : IsSemaphore y sem qs) (run : Runs y xs)
    (valid : bad_pid y.kernel.currpid y ≡ false)
    (above : ltb_ℤ minkey (prio y y.kernel.currpid) ≡ true) where
  abbrev cur : ℕ
  cur = y.kernel.currpid

  abbrev sq : ℕ
  sq = squeue_of sem y

  -- The caller, in the state PR_WAIT.
  abbrev pub caller : Proc
  caller = record (proc_of cur y) { prstate = pr_wait; prsem = sem }

  abbrev pub procs : ℕ → Proc
  procs = update y.kernel.proctab cur caller

  -- The state in which the caller has joined the queue, the count being `n`.
  abbrev pub joined : ℤ → System
  joined n =
      let y' = set_proc cur caller (set_count sem n y) in
      record y' { queues = (enqueue procs cur sq y.queues).1 }

  valid_caller : is_bad_pid procs cur ≡ false
  valid_caller = let same : (cur == cur) ≡ true = ground arith in rw same (ground arith)

  not_queued : mem cur qs ≡ false
  not_queued = not_waiting y sem qs cur pr_curr s run.running refl

  not_ready : mem cur xs ≡ false
  not_ready = not_listed y xs cur pr_curr run.ready_list run.running refl

  proc-cases : (a : ℕ) → ((cur ≡ a) × (procs a ≡ caller)) ⊎ ((cur ≢ a) × (procs a ≡ proc_of a y))
  proc-cases a = elim (Bool-cases (cur == a)) [
    | inl e ↦ inl (ground arith, rw e refl)
    | inr ne ↦ inr (ground arith, rw ne refl)
  ]

  prio_same : (a : ℕ) → (procs a).prprio ≡ prio y a
  prio_same a = elim (proc-cases a) [
    | inl (e, p) ↦ ap (λ (r : Proc). r.prprio) p ∙ ap (prio y) e
    | inr (ne, p) ↦ ap (λ (r : Proc). r.prprio) p
  ]

  in_queue :
      (a : ℕ)
      → mem a (qs ++ cur ∷ []) ≡ true
      → ((procs a).prstate ≡ pr_wait) × (ltb_ℤ minkey (prio y a) ≡ true)
  in_queue a m = elim (proc-cases a) [
    | inl (e, p) ↦
        (ap (λ (r : Proc). r.prstate) p, ap (λ b. ltb_ℤ minkey (prio y b)) (sym e) ∙ above)
    | inr (ne, p) ↦
        let inside : mem a qs ≡ true = ground (arith, mem-append a qs (cur ∷ [])) in
        (ap (λ (r : Proc). r.prstate) p ∙ s.waiting a inside, s.above a inside)
  ]

  pub joined-IsSemaphore :
      (n : ℤ) → neg_part n ≡ suc (length qs) → IsSemaphore (joined n) sem (qs ++ cur ∷ [])
  joined-IsSemaphore n e =
      let at = entry_of-set_count sem n y in
      let same : squeue_of sem (joined n) ≡ sq = ap (λ (r : Sentry). r.squeue) at in
      let q = (enqueue-IsQueue procs cur sq y.queues qs s.queue valid_caller not_queued).1 in
      record {
        valid = ap (λ (r : Sentry). leb nsem sem || is_free_sem r.sstate) at ∙ s.valid;
        queue =
            subst (λ r. IsQueue (enqueue procs cur sq y.queues).1.queuetab r (qs ++ cur ∷ []))
              (sym same) q;
        balance = ap (λ (r : Sentry). neg_part r.scount) at ∙ e ∙ sym (length-snoc qs);
        waiting = λ a m. (in_queue a m).0;
        above = λ a m. ap (ltb_ℤ minkey) (prio_same a) ∙ (in_queue a m).1;
        heads = λ r. s.heads (r ∙ same);
        after = λ r. s.after (r ∙ same);
        before = λ r. s.before (ap (λ k. k + 1) (sym same) ∙ r);
      }
    where
      length-snoc : (l : List ℕ) → length (l ++ cur ∷ []) ≡ suc (length l)
      length-snoc [] = refl
      length-snoc (x ∷ l) = ap suc (length-snoc l)

  pub joined-IsReadyList : (n : ℤ) → IsReadyList (joined n) xs
  joined-IsReadyList n =
      let v = run.ready_list in
      let t = y.queues.queuetab in
      let key = qkey-enqueue procs cur sq y.queues qs s.queue valid_caller in
      let small : cur < nproc = ground (arith, valid) in
      let joins : all_processes (cur ∷ qs) ≡ true = ground (arith, small, s.queue.processes) in
      let far = v.queue.behind in
      let apart : (a : ℕ) → mem a xs ≡ true → mem a (cur ∷ qs) ≡ false = λ a m.
        let other = not_waiting y sem qs a pr_ready s (v.ready_state a m) refl in
        let ne : cur ≢ a = λ e. absurd (cc (not_ready, m, ap (λ b. mem b xs) e)) in
        ground (arith, other) in
      record {
        queue =
            other-IsQueue t (enqueue procs cur sq y.queues).1.queuetab sq (cur ∷ qs) y.readylist xs
              (enqueue-Untouched procs cur sq y.queues qs s.queue valid_caller) v.queue
              (λ e. s.heads (sym e)) s.before (λ e. s.after e)
              (not_process y.readylist (cur ∷ qs) far joins)
              (not_process (y.readylist + 1) (cur ∷ qs) (omega (arith, far)) joins) apart
              s.queue.behind;
        descending = Descending-keys (keys t) _ xs key v.descending;
        tail_key = key (y.readylist + 1) ∙ v.tail_key;
        ranked = λ a m. key a ∙ v.ranked a m ∙ sym (prio_same a);
        ready_state = λ a m. elim (proc-cases a) [
          | inl (e, p) ↦ absurd (cc (not_ready, m, ap (λ b. mem b xs) e))
          | inr (ne, p) ↦ ap (λ (r : Proc). r.prstate) p ∙ v.ready_state a m
        ];
      }
