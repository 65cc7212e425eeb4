-- ===== src/Sched/Elsewhere.antt =====
-- What `resched` and `ready` leave alone: the processes that are not concerned, the entries of other
-- queues, and the semaphores.
use virtual_memory_xinu_f.Base.{
  ℕ, ◌<◌, ◌≡◌, ◌≢◌, refl, sym, ap, ◌∙◌, subst, true, false, not, ltb, ◌==◌, List, [], ◌∷◌, ◌++◌,
  inl, inr, arith, Bool-cases,
}
use virtual_memory_xinu_f.Base.Int.{ltb_ℤ}
use virtual_memory_xinu_f.Base.Distinct.{mem}
use virtual_memory_xinu_f.Kernel.{Proc, PrState, pr_curr, pr_ready, nproc}
use virtual_memory_xinu_f.Queues.{minkey, dequeue}
use virtual_memory_xinu_f.Queues.Chain.{Untouched}
use virtual_memory_xinu_f.Queues.Untouched.{dequeue-Untouched}
use virtual_memory_xinu_f.System.{System, proc_of, set_prstate}
use virtual_memory_xinu_f.Sched.{is_curr, insert_ready, switch, resched, ready, firstkey, bad_pid}
use virtual_memory_xinu_f.Sched.Order.{IsReadyList, prio, switched, switch_eq}
use virtual_memory_xinu_f.Sched.Resched.{
  set_prstate-IsReadyList, insert_ready-IsReadyList, inserted, listed, not_listed,
}
use virtual_memory_xinu_f.Sched.Ready.{readied}

-- From `y` to `y'` only the processes `ps` and the ready list may have changed.
pub record Elsewhere (y y' : System) (ps : List ℕ) : Type 0 where
  pub untouched : Untouched y.queues.queuetab y'.queues.queuetab y.readylist ps
  pub procs : (a : ℕ) → mem a ps ≡ false → proc_of a y' ≡ proc_of a y
  pub semaphores : y'.semtab ≡ y.semtab
  pub same_list : y'.readylist ≡ y.readylist

pub Elsewhere-trans :
    (y y1 y2 : System) (ps qs : List ℕ)
    → Elsewhere y y1 ps
    → Elsewhere y1 y2 qs
    → ((a : ℕ) → mem a ps ≡ false → mem a qs ≡ false)
    → Elsewhere y y2 ps
Elsewhere-trans y y1 y2 ps qs e1 e2 sub = record {
  untouched = λ a n1 n2 out.
      e2.untouched a (λ e. n1 (cc (e1.same_list))) (λ e. n2 (cc (e1.same_list))) (sub a out)
      ∙ e1.untouched a n1 n2 out;
  procs = λ a out. e2.procs a (sub a out) ∙ e1.procs a out;
  semaphores = e2.semaphores ∙ e1.semaphores;
  same_list = e2.same_list ∙ e1.same_list;
}

pub set_prstate-Elsewhere :
    (y : System) (pid : ℕ) (st : PrState) (ps : List ℕ)
    → mem pid ps ≡ true
    → Elsewhere y (set_prstate pid st y) ps
set_prstate-Elsewhere y pid st ps m = record {
  untouched = λ a n1 n2 out. refl;
  procs = λ a out. let ne : (pid == a) ≡ false = ne_of pid a ps m out in rw ne refl;
  semaphores = refl;
  same_list = refl;
}
  where
    ne_of : (b a : ℕ) (l : List ℕ) → mem b l ≡ true → mem a l ≡ false → (b == a) ≡ false
    ne_of b a l m out = elim (Bool-cases (b == a)) [
      | inl e ↦ let same : b ≡ a = ground arith in absurd (cc (m, out, ap (λ c. mem c l) same))
      | inr ne ↦ ne
    ]

switched-Elsewhere :
    (y : System) (x : ℕ) (xs : List ℕ)
    → IsReadyList y (x ∷ xs)
    → Elsewhere y (switched x (dequeue y.readylist y.queues).1 y) (x ∷ xs)
switched-Elsewhere y x xs v = record {
  untouched = dequeue-Untouched y.readylist x y.queues xs v.queue;
  procs = λ a out. let ne : (x == a) ≡ false = ground arith in rw ne refl;
  semaphores = refl;
  same_list = refl;
}

pub switch-Elsewhere :
    (y : System) (x : ℕ) (xs : List ℕ) → IsReadyList y (x ∷ xs) → Elsewhere y (switch y) (x ∷ xs)
switch-Elsewhere y x xs v =
    subst (λ z. Elsewhere y z (x ∷ xs)) (sym (switch_eq y x xs v)) (switched-Elsewhere y x xs v)

switch-mid :
    (y : System) (ys zs : List ℕ) (p : ℕ)
    → IsReadyList y (ys ++ p ∷ zs)
    → Elsewhere y (switch y) (ys ++ p ∷ zs)
switch-mid y [] zs p v = switch-Elsewhere y p zs v
switch-mid y (b ∷ ys) zs p v = switch-Elsewhere y b (ys ++ p ∷ zs) v

module _ (y : System) (xs : List ℕ) (pid : ℕ) (v : IsReadyList y xs) (valid : bad_pid pid y ≡ false)
    (above : ltb_ℤ minkey (prio y pid) ≡ true) (is : (proc_of pid y).prstate ≡ pr_ready)
    (out : mem pid xs ≡ false) where
  pub insert_ready-Elsewhere : Elsewhere y (insert_ready pid y) (pid ∷ xs)
  insert_ready-Elsewhere = record {
    untouched = (inserted y xs pid v valid above is out).untouched;
    procs = λ a o. refl;
    semaphores = refl;
    same_list = refl;
  }

pub resched-Elsewhere :
    (y : System) (xs : List ℕ)
    → IsReadyList y xs
    → y.ndefers ≡ 0
    → (proc_of y.kernel.currpid y).prstate ≡ pr_curr
    → bad_pid y.kernel.currpid y ≡ false
    → ltb_ℤ minkey (prio y y.kernel.currpid) ≡ true
    → Elsewhere y (resched y) (y.kernel.currpid ∷ xs)
unfolding resched
resched-Elsewhere y xs v now is valid above =
    let old = y.kernel.currpid in
    let out = not_listed y xs old pr_curr v is refl in
    let y' = set_prstate old pr_ready y in
    let v' = set_prstate-IsReadyList y xs old pr_ready v out in
    let soon = ap (ltb 0) now in
    let runs_on = ap (λ s. not (is_curr s)) is in
    let same : prio y' old ≡ prio y old = ground arith in
    let above' = ap (ltb_ℤ minkey) same ∙ above in
    let small : old < nproc = ground arith in
    let ready' : (proc_of old y').prstate ≡ pr_ready = ground arith in
    let valid' : bad_pid old y' ≡ false = ground arith in
    let u = inserted y' xs old v' valid' above' ready' out in
    elim (Bool-cases (ltb_ℤ (firstkey y.readylist y.queues) (prio y old))) [
      | inl keeps ↦
          rw (soon, runs_on, keeps)
            (record {
              untouched = λ a n1 n2 o. refl;
              procs = λ a o. refl;
              semaphores = refl;
              same_list = refl;
            })
      | inr leaves ↦
          rw (soon, runs_on, leaves)
            (Elsewhere-trans y (insert_ready old y') _ (old ∷ xs) (u.ys ++ old ∷ u.zs)
              (Elsewhere-trans y y' (insert_ready old y') (old ∷ xs) (old ∷ xs)
                (set_prstate-Elsewhere y old pr_ready (old ∷ xs) (ground arith))
                (insert_ready-Elsewhere y' xs old v' valid' above' ready' out) (λ a o. o))
              (switch-mid (insert_ready old y') u.ys u.zs old
                (insert_ready-IsReadyList y' xs old v' valid' above' ready' out))
              (λ a o. listed y' xs old v' valid' above' ready' out a ∙ o))
    ]

-- `ready`, called as in `ready-Chosen`.
pub ready-Elsewhere :
    (y : System) (xs : List ℕ) (pid : ℕ)
    → IsReadyList y xs
    → bad_pid pid y ≡ false
    → ltb_ℤ minkey (prio y pid) ≡ true
    → mem pid xs ≡ false
    → y.ndefers ≡ 0
    → (proc_of y.kernel.currpid y).prstate ≡ pr_curr
    → bad_pid y.kernel.currpid y ≡ false
    → ltb_ℤ minkey (prio y y.kernel.currpid) ≡ true
    → pid ≢ y.kernel.currpid
    → Elsewhere y (ready pid y).1 (y.kernel.currpid ∷ pid ∷ xs)
unfolding ready
ready-Elsewhere y xs pid v valid above out now is valid_curr above_curr ne =
    let cur = y.kernel.currpid in
    let other : (pid == cur) ≡ false = ground arith in
    let y' = set_prstate pid pr_ready y in
    let v' = set_prstate-IsReadyList y xs pid pr_ready v out in
    let same : prio y' pid ≡ prio y pid = ground arith in
    let above' = ap (ltb_ℤ minkey) same ∙ above in
    let is' : (proc_of pid y').prstate ≡ pr_ready = ground arith in
    let small : pid < nproc = ground arith in
    let valid' : bad_pid pid y' ≡ false = ground arith in
    let same_proc : proc_of cur (readied pid y) ≡ proc_of cur y = rw other refl in
    let small' : cur < nproc = ground arith in
    let l =
      (inserted y' xs pid v' valid' above' is' out).ys
      ++ pid ∷ (inserted y' xs pid v' valid' above' is' out).zs in
    let w = insert_ready-IsReadyList y' xs pid v' valid' above' is' out in
    let e =
      resched-Elsewhere (readied pid y) l w now (ap (λ (p : Proc). p.prstate) same_proc ∙ is)
        (rw other valid_curr) (ap (λ (p : Proc). ltb_ℤ minkey p.prprio) same_proc ∙ above_curr) in
    let all = cur ∷ pid ∷ xs in
    rw valid (
      Elsewhere-trans y y' _ all all (set_prstate-Elsewhere y pid pr_ready all (ground arith))
        (Elsewhere-trans y' (readied pid y) _ all (cur ∷ l)
          (wider y' (readied pid y) (insert_ready-Elsewhere y' xs pid v' valid' above' is' out)) e
          (λ a o. let s = listed y' xs pid v' valid' above' is' out a in ground (arith, s)))
        (λ a o. o))
  where
    wider :
        (y1 y2 : System)
        → Elsewhere y1 y2 (pid ∷ xs)
        → Elsewhere y1 y2 (y.kernel.currpid ∷ pid ∷ xs)
    wider y1 y2 e = record {
      untouched = λ a n1 n2 o. e.untouched a n1 n2 (ground arith);
      procs = λ a o. e.procs a (ground arith);
      semaphores = e.semaphores;
      same_list = e.same_list;
    }

pub resched_blocked-Elsewhere :
    (y : System) (x : ℕ) (xs : List ℕ)
    → IsReadyList y (x ∷ xs)
    → y.ndefers ≡ 0
    → is_curr (proc_of y.kernel.currpid y).prstate ≡ false
    → Elsewhere y (resched y) (x ∷ xs)
unfolding resched
resched_blocked-Elsewhere y x xs v now blocked =
    let soon = ap (ltb 0) now in rw (soon, blocked) (switch-Elsewhere y x xs v)
