-- ===== src/Semaphores/Wait.antt =====
-- `wait` and the queue of a semaphore.
use virtual_memory_xinu_f.Base.{
  ℕ, zero, suc, ◌≡◌, refl, ap, ◌∙◌, List, [], ◌∷◌, ◌++◌, arith, ◌==◌, true, false, ok,
}
use virtual_memory_xinu_f.Base.Int.{
  ℤ, pos, negsuc, pred_ℤ, pred_int32, pred_int32-le, pos_part, neg_part, ltb_ℤ, is_neg,
}
use virtual_memory_xinu_f.Kernel.{pr_wait}
use virtual_memory_xinu_f.Queues.{minkey, enqueue}
use virtual_memory_xinu_f.System.{System, Sentry, proc_of, set_proc}
use virtual_memory_xinu_f.Queues.Sorted.{length-processes-le}
use virtual_memory_xinu_f.Sched.{is_curr, resched, bad_pid}
use virtual_memory_xinu_f.Sched.Order.{Runs, prio}
use virtual_memory_xinu_f.Sched.Resched.{not_listed}
use virtual_memory_xinu_f.Sched.Ready.{resched_blocked-Runs}
use virtual_memory_xinu_f.Sched.Elsewhere.{resched_blocked-Elsewhere}
use virtual_memory_xinu_f.Semaphores.{set_count, wait_in_queue, wait}
use virtual_memory_xinu_f.Semaphores.Balance.{
  IsSemaphore, neg_part-pred, neg_part-pred_pos, pos_part-pred, is_neg_of, not_neg_of,
  Elsewhere-IsSemaphore,
}
use virtual_memory_xinu_f.Semaphores.Join.{
  entry_of-set_count, set_count-IsSemaphore, set_count-Runs, caller, procs, joined,
  joined-IsSemaphore, joined-IsReadyList,
}

-- What `wait` comes to: at a count of 0 or less the caller joins the queue at its end, and the first
-- ready process runs; at a positive count nothing else happens.
abbrev pub Waited : System → System → ℕ → List ℕ → ℕ → List ℕ → ℕ → Type 0
Waited y y' sem qs x xs zero =
    IsSemaphore y' sem (qs ++ y.kernel.currpid ∷ []) × (y'.kernel.currpid ≡ x) × Runs y' xs
Waited y y' sem qs x xs (suc n) =
    IsSemaphore y' sem qs
    × (y'.kernel.currpid ≡ y.kernel.currpid)
    × (pos_part (y'.semtab sem).scount ≡ n)
    × Runs y' (x ∷ xs)

module _ (y : System) (sem : ℕ) (qs : List ℕ) (x : ℕ) (xs : List ℕ) (s : IsSemaphore y sem qs)
    (run : Runs y (x ∷ xs)) (valid : bad_pid y.kernel.currpid y ≡ false)
    (above : ltb_ℤ minkey (prio y y.kernel.currpid) ≡ true) (now : y.ndefers ≡ 0) where
  abbrev count : ℤ
  count = (y.semtab sem).scount

  -- No more processes wait than there are, so that the count does not go round.
  down : pred_int32 count ≡ pred_ℤ count
  down =
      pred_int32-le count
        (omega (arith, s.balance, length-processes-le qs s.queue.distinct s.queue.processes))

  abbrev after_join : System
  after_join = joined y sem qs (x ∷ xs) s run valid above (pred_ℤ count)

  wait_blocks :
      pos_part count ≡ 0
      → IsSemaphore (resched after_join) sem (qs ++ y.kernel.currpid ∷ [])
        × ((resched after_join).kernel.currpid ≡ x)
        × Runs (resched after_join) xs
  wait_blocks e =
      let z = after_join in
      let n = neg_part-pred count e ∙ ap suc s.balance in
      let sem' = joined-IsSemaphore y sem qs (x ∷ xs) s run valid above (pred_ℤ count) n in
      let list = joined-IsReadyList y sem qs (x ∷ xs) s run valid above (pred_ℤ count) in
      let cur = y.kernel.currpid in
      let blocked : is_curr (proc_of cur z).prstate ≡ false =
        let same : (cur == cur) ≡ true = ground arith in rw same refl in
      let r = resched_blocked-Runs z x xs list now blocked in
      (
        Elsewhere-IsSemaphore z (resched z) sem (qs ++ cur ∷ []) (x ∷ xs) sem'
            (resched_blocked-Elsewhere z x xs list now blocked) list.queue.behind
            list.queue.processes
            (λ a m. not_listed z (x ∷ xs) a pr_wait list (sem'.waiting a m) refl),
        r.0,
        r.1,
      )

  wait_blocks_eq : pos_part count ≡ 0 → wait sem y ≡ (ok, resched after_join)
  unfolding wait wait_in_queue
  wait_blocks_eq e =
      let cur = y.kernel.currpid in
      let y1 = set_count sem (pred_ℤ count) y in
      let at = entry_of-set_count sem (pred_ℤ count) y in
      let negative : is_neg (y1.semtab sem).scount ≡ true =
        ap (λ (r : Sentry). is_neg r.scount) at
        ∙ is_neg_of (pred_ℤ count) _ (neg_part-pred count e) in
      let procs' = procs y sem qs (x ∷ xs) s run valid above in
      let y2 = set_proc cur (caller y sem qs (x ∷ xs) s run valid above) y1 in
      rw (s.valid, down, negative)
        (ap
          (λ (r : Sentry).
            (ok, resched (record y2 { queues = (enqueue procs' cur r.squeue y.queues).1 })))
          at)

  wait_passes_eq :
      (n : ℕ) → pos_part count ≡ suc n → wait sem y ≡ (ok, set_count sem (pred_ℤ count) y)
  unfolding wait
  wait_passes_eq n e =
      let y1 = set_count sem (pred_ℤ count) y in
      let positive : is_neg (y1.semtab sem).scount ≡ false =
        ap (λ (r : Sentry). is_neg r.scount) (entry_of-set_count sem (pred_ℤ count) y)
        ∙ not_neg_of (pred_ℤ count) (neg_part-pred_pos count n e ∙ neg_part_zero count n e) in
      rw (s.valid, down, positive) refl
    where
      neg_part_zero : (k : ℤ) (m : ℕ) → pos_part k ≡ suc m → neg_part k ≡ 0
      neg_part_zero (pos k) m h = refl
      neg_part_zero (negsuc k) m h = absurd (omega (arith, h))

  -- `wait` on a semaphore in use, called by the process that runs as it should, valid and with a
  -- priority above the least key, when another process is ready and no deferral is pending, returns OK. If the count is 0 or less, the caller joins the
  -- queue of the semaphore at its end, and the first process of the ready list runs, which is one
  -- of the highest priority; if it is positive, the count goes down by one, and the caller runs
  -- on. In both cases a count below 0 still says how many processes wait in the queue.
  pub wait-IsSemaphore :
      ((wait sem y).0 ≡ ok) × Waited y (wait sem y).1 sem qs x xs (pos_part count)
  wait-IsSemaphore = go (pos_part count) refl
    where
      go :
          (n : ℕ)
          → pos_part count ≡ n
          → ((wait sem y).0 ≡ ok) × Waited y (wait sem y).1 sem qs x xs n
      go zero e = rw (wait_blocks_eq e) (refl, wait_blocks e)
      go (suc n) e = rw (wait_passes_eq n e) (
        refl,
        (
          set_count-IsSemaphore y sem qs (pred_ℤ count) s (neg_part-pred_pos count n e ∙ s.balance),
          refl,
          ap (λ (r : Sentry). pos_part r.scount) (entry_of-set_count sem (pred_ℤ count) y)
              ∙ pos_part-pred count n e,
          set_count-Runs y (x ∷ xs) sem (pred_ℤ count) run,
        ),
      )
