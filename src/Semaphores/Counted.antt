-- ===== src/Semaphores/Counted.antt =====
-- `signal` and `signaln` of a semaphore on which nobody waits.
use virtual_memory_xinu_f.Base.{
  ℕ, zero, suc, ◌+◌, ◌-◌, ◌≤◌, ◌<◌, ◌≡◌, refl, ap, sym, ◌∙◌, true, false, ◌&&◌, ◌||◌, leb, ◌==◌,
  if◌then◌else◌, if_either, subst, arith, update_self, Status, ok, syserr,
}
use virtual_memory_xinu_f.Base.Int.{
  pos, succ_ℤ, succ_int32, pred_ℤ, pred_int32, succ_int32-lt, max_int32, is_neg,
}
use virtual_memory_xinu_f.System.{System, Sentry, nsem}
use virtual_memory_xinu_f.Queues.{dequeue}
use virtual_memory_xinu_f.Sched.Clock.{ready_one}
use virtual_memory_xinu_f.Sched.{resched, defer_start, defer_stop}
use virtual_memory_xinu_f.Semaphores.{
  bad_sem, is_free_sem, set_count, wait, wait_in_queue, signal, signaln, signal_once, signal_times,
}

-- The count is `m`, and nothing changes that decides whether the semaphore is in use or processes
-- are rescheduled.
abbrev pub Counted : ℕ → ℕ → System → System → Type 0
Counted sem m y y' =
    ((y'.semtab sem).scount ≡ pos m) × (bad_sem sem y' ≡ bad_sem sem y) × (y'.ndefers ≡ y.ndefers)

module _ (sem : ℕ) where
  set_count-Counted : (m : ℕ) (y : System) → Counted sem m y (set_count sem (pos m) y)
  set_count-Counted m y = (
    ap (λ (e : Sentry). e.scount) (update_self y.semtab sem _),
    ap (λ (e : Sentry). leb nsem sem || is_free_sem e.sstate) (update_self y.semtab sem _),
    refl,
  )

  signal_once_eq :
      (k : ℕ) (y : System)
      → (y.semtab sem).scount ≡ pos k
      → k < max_int32
      → signal_once sem y ≡ set_count sem (pos (suc k)) y
  unfolding succ_ℤ signal_once
  signal_once_eq k y e few =
      let counts_up =
        ap (λ n. set_count sem (succ_int32 n) y) e
        ∙ ap (λ n. set_count sem n y) (succ_int32-lt (pos k) few) in
      if_either (λ u. u ≡ set_count sem (pos (suc k)) y) (is_neg (y.semtab sem).scount)
        (ready_one
          (dequeue ((set_count sem (succ_int32 (y.semtab sem).scount) y).semtab sem).squeue
            y.queues)
          (set_count sem (succ_int32 (y.semtab sem).scount) y))
        (set_count sem (succ_int32 (y.semtab sem).scount) y)
        (λ n. let f : true ≡ false = sym n ∙ ap is_neg e in cc) (λ n. counts_up)

  signal_times-Counted :
      (n k : ℕ) (y : System)
      → (y.semtab sem).scount ≡ pos k
      → k + n ≤ max_int32
      → Counted sem (k + n) y (signal_times sem n y)
  unfolding signal_times
  signal_times-Counted zero k y e few = (e ∙ ap pos (omega arith), refl, refl)
  signal_times-Counted (suc n) k y e few =
      let y' = set_count sem (pos (suc k)) y in
      let s = set_count-Counted (suc k) y in
      let c = signal_times-Counted n (suc k) y' s.0 (omega arith) in
      subst (λ u. Counted sem (k + suc n) y (signal_times sem n u))
        (sym (signal_once_eq k y e (omega arith))) (c.0 ∙ ap pos (omega arith), c.1 ∙ s.1, c.2)

  pub signal-Counted :
      (k : ℕ) (y : System)
      → (y.semtab sem).scount ≡ pos k
      → bad_sem sem y ≡ false
      → k < max_int32
      → Counted sem (k + 1) y (signal sem y).1
  unfolding signal
  signal-Counted k y e good few =
      let s = set_count-Counted (suc k) y in
      if_either (λ (p : Status × System). Counted sem (k + 1) y p.1) (bad_sem sem y) (syserr, y)
        (ok, signal_once sem y) (λ b. let f : true ≡ false = sym b ∙ good in cc)
        (λ b.
          subst (Counted sem (k + 1) y) (sym (signal_once_eq k y e few))
            (s.0 ∙ ap pos (omega arith), s.1, s.2))

  -- Rescheduling stays deferred.
  still_deferred :
      (y : System) → 1 < y.ndefers → (defer_stop y).1 ≡ record y { ndefers = y.ndefers - 1 }
  unfolding defer_stop
  still_deferred y h =
      let later : (y.ndefers == 0) ≡ false = ground arith in
      let more : (y.ndefers - 1 == 0) ≡ false = ground arith in
      let y' = record y { ndefers = y.ndefers - 1 } in
      let runs : System = if (y.ndefers - 1 == 0) && y.attempt then resched y' else y' in
      if_either (λ (p : Status × System). p.1 ≡ y') (y.ndefers == 0) (syserr, y) (ok, runs)
        (λ b. let f : true ≡ false = sym b ∙ later in cc)
        (λ b. ap (λ c. if c && y.attempt then resched y' else y') more)

  pub signaln-Counted :
      (k n : ℕ) (y : System)
      → (y.semtab sem).scount ≡ pos k
      → bad_sem sem y ≡ false
      → 0 < y.ndefers
      → k + n ≤ max_int32
      → Counted sem (k + n) y (signaln sem (pos n) y).1
  unfolding signaln defer_start
  signaln-Counted k n y e good later few =
      let c = signal_times-Counted n k (defer_start y) e few in
      let u = signal_times sem n (defer_start y) in
      if_either (λ (p : Status × System). Counted sem (k + n) y p.1)
        ((leb nsem sem || false) || is_free_sem (y.semtab sem).sstate) (syserr, y)
        (ok, (defer_stop u).1) (λ b. let f : true ≡ false = ground (arith, good, b) in cc)
        (λ b.
          subst (Counted sem (k + n) y) (sym (still_deferred u (omega (arith, c.2))))
            (c.0, c.1, omega (arith, c.2)))

  -- A process need not wait: `wait` does nothing but to count.
  pub wait-counts :
      (k : ℕ) (y : System)
      → (y.semtab sem).scount ≡ pos (suc k)
      → bad_sem sem y ≡ false
      → wait sem y ≡ (ok, set_count sem (pos k) y)
  unfolding wait pred_int32 pred_ℤ
  wait-counts k y e good =
      let y' = set_count sem (pred_int32 (y.semtab sem).scount) y in
      let down : y' ≡ set_count sem (pos k) y = ap (λ n. set_count sem (pred_int32 n) y) e in
      let c : (y'.semtab sem).scount ≡ pos k =
        ap (λ (u : System). (u.semtab sem).scount) down ∙ (set_count-Counted k y).0 in
      let expected : Status × System = (ok, set_count sem (pos k) y) in
      if_either (λ p. p ≡ expected) (bad_sem sem y) (syserr, y)
        (ok, if is_neg (y'.semtab sem).scount then resched (wait_in_queue sem y') else y')
        (λ b. let f : true ≡ false = sym b ∙ good in cc)
        (λ b.
          if_either (λ u. ◌≡◌ {A = Status × System} (ok, u) expected)
            (is_neg (y'.semtab sem).scount) (resched (wait_in_queue sem y')) y'
            (λ n. let f : true ≡ false = sym n ∙ ap is_neg c in cc) (λ n. ap (λ u. (ok, u)) down))

  pub wait-Counted :
      (k : ℕ) (y : System)
      → (y.semtab sem).scount ≡ pos (suc k)
      → bad_sem sem y ≡ false
      → Counted sem k y (wait sem y).1
  wait-Counted k y e good =
      subst (λ (p : Status × System). Counted sem k y p.1) (sym (wait-counts k y e good))
        (set_count-Counted k y)
