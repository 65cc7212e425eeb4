-- ===== src/Sched/Resched.antt =====
-- `resched` as the choice of a process of the highest priority.
use virtual_memory_xinu_f.Base.{
  ℕ, ◌+◌, ◌<◌, ◌≡◌, ◌≢◌, refl, sym, ap, ◌∙◌, true, false, not, ltb, ◌==◌, List, [], ◌∷◌, ◌++◌, inl,
  inr, arith, Bool-cases,
}
use virtual_memory_xinu_f.Base.Int.{ℤ, ltb_ℤ}
use virtual_memory_xinu_f.Base.Distinct.{mem, mem-cons_cases}
use virtual_memory_xinu_f.Kernel.{nproc, PrState, pr_curr, pr_ready}
use virtual_memory_xinu_f.Queues.{minkey}
use virtual_memory_xinu_f.Queues.Sorted.{all_upto, keys}
use virtual_memory_xinu_f.Queues.Insert.{Inserted, insert-Inserted}
use virtual_memory_xinu_f.System.{System, proc_of, set_prstate}
use virtual_memory_xinu_f.Sched.{
  is_curr, is_ready, insert_ready, switch, resched, firstkey, key_at, bad_pid,
}
use virtual_memory_xinu_f.Sched.Order.{IsReadyList, Runs, prio, all_upto_same, switch-Runs}

pub mem-mid : (a p : ℕ) (ys zs : List ℕ) → mem a (ys ++ p ∷ zs) ≡ mem a (p ∷ ys ++ zs)
mem-mid a p [] zs = refl
mem-mid a p (y ∷ ys) zs = ground (arith, mem-mid a p ys zs)

-- A process in the ready list is not one in another state.
pub not_listed :
    (y : System) (xs : List ℕ) (a : ℕ) (st : PrState)
    → IsReadyList y xs
    → (proc_of a y).prstate ≡ st
    → is_ready st ≡ false
    → mem a xs ≡ false
not_listed y xs a st v is e = elim (Bool-cases (mem a xs)) [
  | inl m ↦ absurd (cc (ap is_ready (v.ready_state a m), ap is_ready is, e))
  | inr out ↦ out
]

-- The state of a process outside the ready list.
pub set_prstate-IsReadyList :
    (y : System) (xs : List ℕ) (pid : ℕ) (st : PrState)
    → IsReadyList y xs
    → mem pid xs ≡ false
    → IsReadyList (set_prstate pid st y) xs
set_prstate-IsReadyList y xs pid st v out = record {
  queue = v.queue;
  descending = v.descending;
  tail_key = v.tail_key;
  ranked = λ a m. v.ranked a m ∙ ground arith;
  ready_state = λ a m. let ne : (pid == a) ≡ false = ground arith in rw ne (v.ready_state a m);
}

module _ (y : System) (xs : List ℕ) (pid : ℕ) (v : IsReadyList y xs) (valid : bad_pid pid y ≡ false)
    (above : ltb_ℤ minkey (prio y pid) ≡ true) (is : (proc_of pid y).prstate ≡ pr_ready)
    (out : mem pid xs ≡ false) where
  -- The queue after `insert` into the ready list.
  pub inserted :
      Inserted y.queues.queuetab y.readylist xs pid
        (prio y pid)
        (insert_ready pid y).queues.queuetab
  inserted =
      (insert-Inserted y.kernel.proctab pid y.readylist (prio y pid) y.queues xs v.queue
        v.descending valid out (ap (λ k. ltb_ℤ k (prio y pid)) v.tail_key ∙ above)).1

  pub listed : (a : ℕ) → mem a (inserted.ys ++ pid ∷ inserted.zs) ≡ mem a (pid ∷ xs)
  listed a = mem-mid a pid inserted.ys inserted.zs ∙ ap (λ l. mem a (pid ∷ l)) (sym inserted.parts)

  in_place :
      (a : ℕ)
      → mem a (pid ∷ xs) ≡ true
      → (((insert_ready pid y).queues.queuetab a).qkey ≡ prio y a)
        × ((proc_of a y).prstate ≡ pr_ready)
  in_place a m = elim (mem-cons_cases a pid xs m) [
    | inl e ↦ (
      ap (λ b. ((insert_ready pid y).queues.queuetab b).qkey) e
          ∙ inserted.its_key
          ∙ ap (prio y) (sym e),
      ap (λ b. (proc_of b y).prstate) e ∙ is,
    )
    | inr inside ↦
        let ne : pid ≢ a = λ e. absurd (cc (inside, out, e)) in
        (inserted.other_keys a ne ∙ v.ranked a inside, v.ready_state a inside)
  ]

  pub insert_ready-IsReadyList : IsReadyList (insert_ready pid y) (inserted.ys ++ pid ∷ inserted.zs)
  insert_ready-IsReadyList =
      let small : pid < nproc = ground arith in
      record {
        queue = inserted.queue;
        descending = inserted.descending;
        tail_key =
            inserted.other_keys (y.readylist + 1) (omega (arith, small, v.queue.behind))
            ∙ v.tail_key;
        ranked = λ a m. (in_place a (sym (listed a) ∙ m)).0;
        ready_state = λ a m. (in_place a (sym (listed a) ∙ m)).1;
      }

-- What `resched` does: the processes `zs` are ready, and with the running one they are the ones
-- that `ps` has.
pub record Chosen (y : System) (ps : List ℕ) : Type 0 where
  pub waiting : List ℕ
  pub runs : Runs y waiting
  pub same_processes : (a : ℕ) → mem a (y.kernel.currpid ∷ waiting) ≡ mem a ps

switch-Chosen :
    (y : System) (ys zs : List ℕ) (p : ℕ) (ps : List ℕ)
    → IsReadyList y (ys ++ p ∷ zs)
    → ((a : ℕ) → mem a (ys ++ p ∷ zs) ≡ mem a ps)
    → Chosen (switch y) ps
switch-Chosen y [] zs p ps v same =
    let r = switch-Runs y p zs v in
    record { waiting = zs; runs = r.1; same_processes = λ a. ap (λ b. mem a (b ∷ zs)) r.0 ∙ same a }
switch-Chosen y (b ∷ ys) zs p ps v same =
    let r = switch-Runs y b (ys ++ p ∷ zs) v in
    record {
      waiting = ys ++ p ∷ zs;
      runs = r.1;
      same_processes = λ a. ap (λ c. mem a (c ∷ ys ++ p ∷ zs)) r.0 ∙ same a;
    }

all_upto_mono :
    (k : ℕ → ℤ) (b c : ℤ) (xs : List ℕ)
    → ltb_ℤ b c ≡ true
    → all_upto k b xs ≡ true
    → all_upto k c xs ≡ true
all_upto_mono k b c [] lt h = refl
all_upto_mono k b c (x ∷ xs) lt h = ground (arith, all_upto_mono k b c xs)

-- The caller runs on when its priority is above the first key.
keeps_highest :
    (y : System) (xs : List ℕ) (b : ℤ)
    → IsReadyList y xs
    → ltb_ℤ (firstkey y.readylist y.queues) b ≡ true
    → all_upto (prio y) b xs ≡ true
keeps_highest y [] b v lt = refl
keeps_highest y (x ∷ xs) b v lt =
    let t = y.queues.queuetab in
    let first = ap (λ o. ltb_ℤ (key_at o t) b) (sym v.queue.chain.0) ∙ lt in
    let all : all_upto (keys t) b (x ∷ xs) ≡ true =
      ground (arith, first, all_upto_mono (keys t) (keys t x) b xs first v.descending.0) in
    all_upto_same (keys t) (prio y) b (x ∷ xs) (λ a m. sym (v.ranked a m)) ∙ all

-- `resched` by a process that is to run on, valid and with a priority above the least key, without
-- deferral: afterwards the running process is one of the highest priority among those that were
-- ready or running, and the others are the ready list, by descending priority.
pub resched-Chosen :
    (y : System) (xs : List ℕ)
    → IsReadyList y xs
    → y.ndefers ≡ 0
    → (proc_of y.kernel.currpid y).prstate ≡ pr_curr
    → bad_pid y.kernel.currpid y ≡ false
    → ltb_ℤ minkey (prio y y.kernel.currpid) ≡ true
    → Chosen (resched y) (y.kernel.currpid ∷ xs)
unfolding resched
resched-Chosen y xs v now is valid above =
    let old = y.kernel.currpid in
    let out = not_listed y xs old pr_curr v is refl in
    let y' = set_prstate old pr_ready y in
    let v' = set_prstate-IsReadyList y xs old pr_ready v out in
    let soon = ap (ltb 0) now in
    let runs_on = ap (λ s. not (is_curr s)) is in
    let same : prio y' old ≡ prio y old = ground arith in
    let above' = ap (ltb_ℤ minkey) same ∙ above in
    let small : old < nproc = ground arith in
    let ready' : (proc_of old y').prstate ≡ pr_ready = ground arith in
    let valid' : bad_pid old y' ≡ false = ground arith in
    let u = inserted y' xs old v' valid' above' ready' out in
    elim (Bool-cases (ltb_ℤ (firstkey y.readylist y.queues) (prio y old))) [
      | inl keeps ↦
          rw (soon, runs_on, keeps)
            (record {
              waiting = xs;
              runs = record {
                ready_list = v;
                running = is;
                highest = keeps_highest y xs (prio y old) v keeps;
              };
              same_processes = λ a. refl;
            })
      | inr leaves ↦
          rw (soon, runs_on, leaves)
            (switch-Chosen (insert_ready old y') u.ys u.zs old (old ∷ xs)
              (insert_ready-IsReadyList y' xs old v' valid' above' ready' out)
              (listed y' xs old v' valid' above' ready' out))
    ]
