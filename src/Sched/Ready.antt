-- ===== src/Sched/Ready.antt =====
-- `ready`, at once and while rescheduling is deferred.
use virtual_memory_xinu_f.Base.{
  ℕ, ◌<◌, ◌≡◌, ◌≢◌, refl, ap, ◌∙◌, true, false, ltb, ◌==◌, ◌||◌, List, ◌∷◌, ◌++◌, arith, ok,
}
use virtual_memory_xinu_f.Base.Int.{ltb_ℤ}
use virtual_memory_xinu_f.Base.Distinct.{mem}
use virtual_memory_xinu_f.Kernel.{nproc, Proc, pr_curr, pr_ready}
use virtual_memory_xinu_f.Queues.{minkey}
use virtual_memory_xinu_f.System.{System, proc_of, set_prstate}
use virtual_memory_xinu_f.Sched.{insert_ready, resched, ready, bad_pid, is_curr}
use virtual_memory_xinu_f.Sched.Order.{IsReadyList, Runs, prio, switch-Runs}
use virtual_memory_xinu_f.Sched.Resched.{
  Chosen, resched-Chosen, set_prstate-IsReadyList, inserted, insert_ready-IsReadyList, listed,
}

-- `ready` up to the call of `resched`.
abbrev pub readied : ℕ → System → System
readied pid y = insert_ready pid (set_prstate pid pr_ready y)

module _ (y : System) (xs : List ℕ) (pid : ℕ) (v : IsReadyList y xs) (valid : bad_pid pid y ≡ false)
    (above : ltb_ℤ minkey (prio y pid) ≡ true) (out : mem pid xs ≡ false) where
  pub readied-IsReadyList :
      (l : List ℕ) × IsReadyList (readied pid y) l × ((a : ℕ) → mem a l ≡ mem a (pid ∷ xs))
  readied-IsReadyList =
      let y' = set_prstate pid pr_ready y in
      let v' = set_prstate-IsReadyList y xs pid pr_ready v out in
      let same : prio y' pid ≡ prio y pid = ground arith in
      let above' = ap (ltb_ℤ minkey) same ∙ above in
      let is' : (proc_of pid y').prstate ≡ pr_ready = ground arith in
      let small : pid < nproc = ground arith in
      let valid' : bad_pid pid y' ≡ false = ground arith in
      let u = inserted y' xs pid v' valid' above' is' out in
      (
        u.ys ++ pid ∷ u.zs,
        insert_ready-IsReadyList y' xs pid v' valid' above' is' out,
        listed y' xs pid v' valid' above' is' out,
      )

  -- While rescheduling is deferred `ready` puts the process into the ready list, and notes that a
  -- rescheduling was tried.
  pub ready_deferred :
      ltb 0 y.ndefers ≡ true → ready pid y ≡ (ok, record (readied pid y) { attempt = true })
  unfolding ready resched
  ready_deferred later = rw (valid, later) refl

  -- `ready` of a process that is neither ready nor running, by a process in the state PR_CURR, both
  -- valid and with priorities above the least key, with no deferral pending: it returns OK, and
  -- afterwards the running process is one of the highest priority among the
  -- process itself and those that were ready or running, and the others are the ready list, by
  -- descending priority.
  pub ready-Chosen :
      y.ndefers ≡ 0
      → (proc_of y.kernel.currpid y).prstate ≡ pr_curr
      → bad_pid y.kernel.currpid y ≡ false
      → ltb_ℤ minkey (prio y y.kernel.currpid) ≡ true
      → pid ≢ y.kernel.currpid
      → ((ready pid y).0 ≡ ok) × Chosen (ready pid y).1 (y.kernel.currpid ∷ pid ∷ xs)
  unfolding ready
  ready-Chosen now is valid_curr above_curr ne =
      let cur = y.kernel.currpid in
      let other : (pid == cur) ≡ false = ground arith in
      let (l, w, same) = readied-IsReadyList in
      let same_proc : proc_of cur (readied pid y) ≡ proc_of cur y = rw other refl in
      let is' : (proc_of cur (readied pid y)).prstate ≡ pr_curr =
        ap (λ (p : Proc). p.prstate) same_proc ∙ is in
      let small : cur < nproc = ground arith in
      let valid' : bad_pid cur (readied pid y) ≡ false = rw other valid_curr in
      let above' : ltb_ℤ minkey (prio (readied pid y) cur) ≡ true =
        ap (λ (p : Proc). ltb_ℤ minkey p.prprio) same_proc ∙ above_curr in
      let c = resched-Chosen (readied pid y) l w now is' valid' above' in
      rw valid (
        refl,
        record {
          waiting = c.waiting;
          runs = c.runs;
          same_processes = λ a. c.same_processes a ∙ ap (λ r. (a == cur) || r) (same a);
        },
      )

-- `resched` by a process that is not to run on: the first process of the ready list runs.
pub resched_blocked-Runs :
    (y : System) (x : ℕ) (xs : List ℕ)
    → IsReadyList y (x ∷ xs)
    → y.ndefers ≡ 0
    → is_curr (proc_of y.kernel.currpid y).prstate ≡ false
    → ((resched y).kernel.currpid ≡ x) × Runs (resched y) xs
unfolding resched
resched_blocked-Runs y x xs v now blocked =
    let soon = ap (ltb 0) now in rw (soon, blocked) (switch-Runs y x xs v)
