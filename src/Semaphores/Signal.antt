-- ===== src/Semaphores/Signal.antt =====
-- `signal` and the queue of a semaphore.
use virtual_memory_xinu_f.Base.{
  ℕ, ◌+◌, ◌<◌, ◌≡◌, ◌≢◌, refl, sym, ap, ◌∙◌, subst, List, [], ◌∷◌, arith, leb, ◌||◌, true, false,
  Status, ok,
}
use virtual_memory_xinu_f.Base.Int.{ℤ, succ_ℤ, succ_int32-lt, max_int32, pos_part, neg_part, ltb_ℤ}
use virtual_memory_xinu_f.Base.Distinct.{mem, length}
use virtual_memory_xinu_f.Kernel.{nproc, pr_wait, pr_curr, pr_ready}
use virtual_memory_xinu_f.Queues.{minkey, dequeue}
use virtual_memory_xinu_f.Queues.Chain.{IsQueue, not_process}
use virtual_memory_xinu_f.Queues.Fifo.{dequeue-IsQueue}
use virtual_memory_xinu_f.Queues.Untouched.{other-IsQueue, dequeue-Untouched}
use virtual_memory_xinu_f.Queues.Sorted.{keys}
use virtual_memory_xinu_f.System.{System, Sentry, proc_of, nsem}
use virtual_memory_xinu_f.Sched.{bad_pid, ready}
use virtual_memory_xinu_f.Sched.Order.{IsReadyList, Runs, prio, Descending-keys, qkey-dequeue}
use virtual_memory_xinu_f.Sched.Resched.{Chosen, not_listed}
use virtual_memory_xinu_f.Sched.Ready.{ready-Chosen}
use virtual_memory_xinu_f.Sched.Elsewhere.{ready-Elsewhere}
use virtual_memory_xinu_f.Sched.Clock.{ready_one}
use virtual_memory_xinu_f.Semaphores.{is_free_sem, set_count, signal_once, signal}
use virtual_memory_xinu_f.Semaphores.Balance.{
  IsSemaphore, squeue_of, neg_part-succ, neg_part-succ_zero, is_neg_of, not_neg_of,
  Elsewhere-IsSemaphore,
}
use virtual_memory_xinu_f.Semaphores.Join.{
  entry_of-set_count, set_count-IsSemaphore, set_count-Runs, not_waiting,
}

module _ (y : System) (sem : ℕ) (p : ℕ) (qs xs : List ℕ) (s : IsSemaphore y sem (p ∷ qs))
    (v : IsReadyList y xs) (n : ℤ) (fits : neg_part n ≡ length qs) where
  abbrev sq : ℕ
  sq = squeue_of sem y

  -- The state in which the first process has left the queue, the count being `n`.
  abbrev left : System
  left = record (set_count sem n y) { queues = (dequeue sq y.queues).1 }

  left-IsSemaphore : IsSemaphore left sem qs
  left-IsSemaphore =
      let at = entry_of-set_count sem n y in
      let same : squeue_of sem left ≡ sq = ap (λ (r : Sentry). r.squeue) at in
      let q = (dequeue-IsQueue sq p y.queues qs s.queue).1 in
      record {
        valid = ap (λ (r : Sentry). leb nsem sem || is_free_sem r.sstate) at ∙ s.valid;
        queue = subst (λ r. IsQueue (dequeue sq y.queues).1.queuetab r qs) (sym same) q;
        balance = ap (λ (r : Sentry). neg_part r.scount) at ∙ fits;
        waiting = λ a m. s.waiting a (ground arith);
        above = λ a m. s.above a (ground arith);
        heads = λ r. s.heads (r ∙ same);
        after = λ r. s.after (r ∙ same);
        before = λ r. s.before (ap (λ k. k + 1) (sym same) ∙ r);
      }

  left-IsReadyList : IsReadyList left xs
  left-IsReadyList =
      let t = y.queues.queuetab in
      let key = qkey-dequeue sq p y.queues qs s.queue in
      let far = v.queue.behind in
      record {
        queue =
            other-IsQueue t (dequeue sq y.queues).1.queuetab sq (p ∷ qs) y.readylist xs
              (dequeue-Untouched sq p y.queues qs s.queue) v.queue (λ e. s.heads (sym e)) s.before
              (λ e. s.after e) (not_process y.readylist (p ∷ qs) far s.queue.processes)
              (not_process (y.readylist + 1) (p ∷ qs) (omega (arith, far)) s.queue.processes)
              (λ a m. not_waiting y sem (p ∷ qs) a pr_ready s (v.ready_state a m) refl)
              s.queue.behind;
        descending = Descending-keys (keys t) _ xs key v.descending;
        tail_key = key (y.readylist + 1) ∙ v.tail_key;
        ranked = λ a m. key a ∙ v.ranked a m;
        ready_state = v.ready_state;
      }

-- What `signal` comes to: the first process of the queue, if there is one, is made ready.
abbrev pub Signalled : System → System → ℕ → List ℕ → List ℕ → Type 0
Signalled y y' sem [] xs =
    IsSemaphore y' sem []
    × ((y'.semtab sem).scount ≡ succ_ℤ (y.semtab sem).scount)
    × (y'.kernel.currpid ≡ y.kernel.currpid)
    × Runs y' xs
Signalled y y' sem (p ∷ qs) xs = IsSemaphore y' sem qs × Chosen y' (y.kernel.currpid ∷ p ∷ xs)

module _ (y : System) (sem : ℕ) (xs : List ℕ) (run : Runs y xs)
    (valid : bad_pid y.kernel.currpid y ≡ false)
    (above : ltb_ℤ minkey (prio y y.kernel.currpid) ≡ true) (now : y.ndefers ≡ 0)
    (fits_int32 : pos_part (y.semtab sem).scount < max_int32) where
  abbrev count : ℤ
  count = (y.semtab sem).scount

  abbrev cur : ℕ
  cur = y.kernel.currpid

  wakes_eq :
      (p : ℕ) (qs : List ℕ) (s : IsSemaphore y sem (p ∷ qs))
      (fits : neg_part (succ_ℤ count) ≡ length qs)
      → signal sem y ≡ (ok, (ready p (left y sem p qs xs s run.ready_list (succ_ℤ count) fits)).1)
  unfolding signal signal_once
  wakes_eq p qs s fits =
      let negative = is_neg_of count _ s.balance in
      let up = succ_int32-lt count fits_int32 in
      let y1 = set_count sem (succ_ℤ count) y in
      let first = (dequeue-IsQueue (squeue_of sem y) p y.queues qs s.queue).0 in
      rw (s.valid, negative, up)
        (ap (λ (r : Sentry). (ok, ready_one (dequeue r.squeue y.queues) y1))
            (entry_of-set_count sem (succ_ℤ count) y)
          ∙ ap (λ o. (ok, ready_one (o, (dequeue (squeue_of sem y) y.queues).1) y1)) first)

  wakes :
      (p : ℕ) (qs : List ℕ) (s : IsSemaphore y sem (p ∷ qs))
      (fits : neg_part (succ_ℤ count) ≡ length qs)
      → Signalled y
          (ready p (left y sem p qs xs s run.ready_list (succ_ℤ count) fits)).1
          sem
          (p ∷ qs)
          xs
  wakes p qs s fits =
      let z = left y sem p qs xs s run.ready_list (succ_ℤ count) fits in
      let v = left-IsReadyList y sem p qs xs s run.ready_list (succ_ℤ count) fits in
      let w = left-IsSemaphore y sem p qs xs s run.ready_list (succ_ℤ count) fits in
      let waits : (proc_of p y).prstate ≡ pr_wait = s.waiting p (ground arith) in
      let small : p < nproc = ground (arith, s.queue.processes) in
      let small_cur : cur < nproc = ground (arith, valid) in
      let valid_p : bad_pid p z ≡ false = ground (arith, waits) in
      let above_p = s.above p (ground arith) in
      let out = not_listed y xs p pr_wait run.ready_list waits refl in
      let cur_out = not_waiting y sem (p ∷ qs) cur pr_curr s run.running refl in
      let ne : p ≢ cur = λ e. absurd (ground arith) in
      let chosen = ready-Chosen z xs p v valid_p above_p out now run.running valid above ne in
      let elsewhere = ready-Elsewhere z xs p v valid_p above_p out now run.running valid above ne in
      (
        Elsewhere-IsSemaphore z (ready p z).1 sem qs (cur ∷ p ∷ xs) w elsewhere v.queue.behind
            (ground (arith, small, small_cur, v.queue.processes))
            (λ a m.
              let ne_p : p ≢ a = λ e. absurd (cc (s.queue.distinct.0, m, ap (λ b. mem b qs) e)) in
              let ne_cur : cur ≢ a = λ e. absurd (ground (arith, ap (λ b. mem b (p ∷ qs)) e)) in
              let unlisted = not_listed z xs a pr_wait v (w.waiting a m) refl in
              ground (arith, unlisted)),
        chosen.1,
      )

  -- `signal` of a semaphore in use, whose count is below 2^31 - 1, the greatest `int32`, called by the
  -- process that runs as it should, valid and with a priority above the least key, with no deferral
  -- pending, returns OK. If processes wait, the first of them leaves the queue; the running process
  -- is then one of the highest priority among it and those that were ready or running, and the
  -- others are the ready list. If none waits, the count goes up by one, and the caller runs on. In
  -- both cases a count below 0 still says how many processes wait in the queue.
  pub signal-IsSemaphore :
      (qs : List ℕ)
      → IsSemaphore y sem qs
      → ((signal sem y).0 ≡ ok) × Signalled y (signal sem y).1 sem qs xs
  unfolding signal signal_once
  signal-IsSemaphore [] s =
      let free = not_neg_of count s.balance in
      let up = succ_int32-lt count fits_int32 in
      rw (s.valid, free, up)
        (
          refl,
          (
            set_count-IsSemaphore y sem [] (succ_ℤ count) s (neg_part-succ_zero count s.balance),
            ap (λ (r : Sentry). r.scount) (entry_of-set_count sem (succ_ℤ count) y),
            refl,
            set_count-Runs y xs sem (succ_ℤ count) run,
          ),
        )
  signal-IsSemaphore (p ∷ qs) s =
      let fits = neg_part-succ count (length qs) s.balance in
      subst (λ (r : Status × System). (r.0 ≡ ok) × Signalled y r.1 sem (p ∷ qs) xs)
        (sym (wakes_eq p qs s fits)) (refl, wakes p qs s fits)
