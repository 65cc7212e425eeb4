-- ===== src/Semaphores/Balance.antt =====
-- A semaphore and its queue: a count below 0 says how many processes wait.
use virtual_memory_xinu_f.Base.{
  ℕ, zero, suc, ◌+◌, ◌≤◌, ◌≡◌, ◌≢◌, refl, sym, ap, ◌∙◌, subst, List, arith, leb, ◌||◌, true, false,
}
use virtual_memory_xinu_f.Base.Int.{
  ℤ, pos, negsuc, succ_ℤ, pred_ℤ, pos_part, neg_part, ltb_ℤ, is_neg,
}
use virtual_memory_xinu_f.Base.Distinct.{mem, length}
use virtual_memory_xinu_f.Kernel.{Proc, nproc, pr_wait}
use virtual_memory_xinu_f.Queues.{minkey}
use virtual_memory_xinu_f.Queues.Chain.{IsQueue, all_processes, not_process}
use virtual_memory_xinu_f.Queues.Untouched.{other-IsQueue}
use virtual_memory_xinu_f.System.{System, Sentry, proc_of, nsem}
use virtual_memory_xinu_f.Sched.Order.{prio}
use virtual_memory_xinu_f.Sched.Elsewhere.{Elsewhere}
use virtual_memory_xinu_f.Semaphores.{bad_sem, is_free_sem}

abbrev pub squeue_of : ℕ → System → ℕ
squeue_of sem y = (y.semtab sem).squeue

-- The semaphore `sem` is in use, and the processes `qs` wait in its queue, which is not the ready
-- list.
pub record IsSemaphore (y : System) (sem : ℕ) (qs : List ℕ) : Type 0 where
  pub valid : bad_sem sem y ≡ false
  pub queue : IsQueue y.queues.queuetab (squeue_of sem y) qs
  pub balance : neg_part (y.semtab sem).scount ≡ length qs
  pub waiting : (a : ℕ) → mem a qs ≡ true → (proc_of a y).prstate ≡ pr_wait
  pub above : (a : ℕ) → mem a qs ≡ true → ltb_ℤ minkey (prio y a) ≡ true
  pub heads : y.readylist ≢ squeue_of sem y
  pub after : y.readylist + 1 ≢ squeue_of sem y
  pub before : squeue_of sem y + 1 ≢ y.readylist

pub neg_part-pred : (n : ℤ) → pos_part n ≡ 0 → neg_part (pred_ℤ n) ≡ suc (neg_part n)
unfolding pred_ℤ
neg_part-pred (pos zero) e = refl
neg_part-pred (pos (suc n)) e = absurd (omega (arith, e))
neg_part-pred (negsuc n) e = refl

pub neg_part-pred_pos : (n : ℤ) (k : ℕ) → pos_part n ≡ suc k → neg_part (pred_ℤ n) ≡ neg_part n
unfolding pred_ℤ
neg_part-pred_pos (pos zero) k e = absurd (omega (arith, e))
neg_part-pred_pos (pos (suc n)) k e = refl
neg_part-pred_pos (negsuc n) k e = absurd (omega (arith, e))

pub pos_part-pred : (n : ℤ) (k : ℕ) → pos_part n ≡ suc k → pos_part (pred_ℤ n) ≡ k
unfolding pred_ℤ
pos_part-pred (pos zero) k e = absurd (omega (arith, e))
pos_part-pred (pos (suc n)) k e = omega (arith, e)
pos_part-pred (negsuc n) k e = absurd (omega (arith, e))

pub neg_part-succ : (n : ℤ) (k : ℕ) → neg_part n ≡ suc k → neg_part (succ_ℤ n) ≡ k
unfolding succ_ℤ
neg_part-succ (pos n) k e = absurd (omega (arith, e))
neg_part-succ (negsuc zero) k e = omega (arith, e)
neg_part-succ (negsuc (suc n)) k e = omega (arith, e)

pub neg_part-succ_zero : (n : ℤ) → neg_part n ≡ 0 → neg_part (succ_ℤ n) ≡ 0
unfolding succ_ℤ
neg_part-succ_zero (pos n) e = refl
neg_part-succ_zero (negsuc n) e = absurd (omega (arith, e))

pub is_neg_of : (n : ℤ) (k : ℕ) → neg_part n ≡ suc k → is_neg n ≡ true
is_neg_of (pos n) k e = absurd (omega (arith, e))
is_neg_of (negsuc n) k e = refl

pub not_neg_of : (n : ℤ) → neg_part n ≡ 0 → is_neg n ≡ false
not_neg_of (pos n) e = refl
not_neg_of (negsuc n) e = absurd (omega (arith, e))

-- A change elsewhere keeps a semaphore.
pub Elsewhere-IsSemaphore :
    (y y' : System) (sem : ℕ) (qs ps : List ℕ)
    → IsSemaphore y sem qs
    → Elsewhere y y' ps
    → nproc ≤ y.readylist
    → all_processes ps ≡ true
    → ((a : ℕ) → mem a qs ≡ true → mem a ps ≡ false)
    → IsSemaphore y' sem qs
Elsewhere-IsSemaphore y y' sem qs ps s e list small apart =
    let sq = squeue_of sem y in
    let same : squeue_of sem y' ≡ sq = ap (λ (t : ℕ → Sentry). (t sem).squeue) e.semaphores in
    let far = s.queue.behind in
    let kept : IsQueue y'.queues.queuetab sq qs =
      other-IsQueue y.queues.queuetab y'.queues.queuetab y.readylist ps sq qs e.untouched s.queue
        s.heads s.after s.before (not_process sq ps far small)
        (not_process (sq + 1) ps (omega (arith, far)) small) apart list in
    record {
      valid =
          ap (λ (t : ℕ → Sentry). leb nsem sem || is_free_sem (t sem).sstate) e.semaphores
          ∙ s.valid;
      queue = subst (λ q. IsQueue y'.queues.queuetab q qs) (sym same) kept;
      balance = ap (λ (t : ℕ → Sentry). neg_part (t sem).scount) e.semaphores ∙ s.balance;
      waiting = λ a m. ap (λ (p : Proc). p.prstate) (e.procs a (apart a m)) ∙ s.waiting a m;
      above = λ a m. ap (λ (p : Proc). ltb_ℤ minkey p.prprio) (e.procs a (apart a m)) ∙ s.above a m;
      heads = λ q. s.heads (sym e.same_list ∙ q ∙ same);
      after = λ q. s.after (ap (λ n. n + 1) (sym e.same_list) ∙ q ∙ same);
      before = λ q. s.before (ap (λ n. n + 1) (sym same) ∙ q ∙ e.same_list);
    }
