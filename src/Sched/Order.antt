-- ===== src/Sched/Order.antt =====
-- The ready list, and the choice of the process that runs.
use virtual_memory_xinu_f.Base.{
  ℕ, ◌+◌, ◌<◌, ◌≡◌, refl, sym, ap, ap₂, ◌∙◌, true, false, Option, some, ◌==◌, ◌&&◌, List, [], ◌∷◌,
  arith, if◌then◌else◌,
}
use virtual_memory_xinu_f.Base.Int.{ℤ, leb_ℤ}
use virtual_memory_xinu_f.Base.Distinct.{mem}
use virtual_memory_xinu_f.Kernel.{nproc, pr_curr, pr_ready}
use virtual_memory_xinu_f.Queues.{Qentry, Queues, minkey, dequeue}
use virtual_memory_xinu_f.Queues.Chain.{IsQueue, removed, head_of, qnext-Chain}
use virtual_memory_xinu_f.Queues.Fifo.{dequeue_eq, dequeue-IsQueue}
use virtual_memory_xinu_f.Queues.Sorted.{all_upto, Descending, keys}
use virtual_memory_xinu_f.System.{System, proc_of}
use virtual_memory_xinu_f.Sched.{switch, run_first}

abbrev pub prio : System → ℕ → ℤ
prio y a = (proc_of a y).prprio

-- The ready list holds the processes `xs`, each in the state PR_READY and under the key that is its
-- priority, by descending keys.
pub record IsReadyList (y : System) (xs : List ℕ) : Type 0 where
  pub queue : IsQueue y.queues.queuetab y.readylist xs
  pub descending : Descending (keys y.queues.queuetab) xs
  pub tail_key : (y.queues.queuetab (y.readylist + 1)).qkey ≡ minkey
  pub ranked : (a : ℕ) → mem a xs ≡ true → (y.queues.queuetab a).qkey ≡ prio y a
  pub ready_state : (a : ℕ) → mem a xs ≡ true → (proc_of a y).prstate ≡ pr_ready

-- The running process is not in the ready list, whose processes have no higher priority.
pub record Runs (y : System) (xs : List ℕ) : Type 0 where
  pub ready_list : IsReadyList y xs
  pub running : (proc_of y.kernel.currpid y).prstate ≡ pr_curr
  pub highest : all_upto (prio y) (prio y y.kernel.currpid) xs ≡ true

pub all_upto_same :
    (k k' : ℕ → ℤ) (b : ℤ) (xs : List ℕ)
    → ((a : ℕ) → mem a xs ≡ true → k' a ≡ k a)
    → all_upto k' b xs ≡ all_upto k b xs
all_upto_same k k' b [] same = refl
all_upto_same k k' b (x ∷ xs) same =
    ap₂ (λ v r. leb_ℤ v b && r) (same x (ground arith))
      (all_upto_same k k' b xs (λ a m. same a (ground arith)))

pub Descending-keys :
    (k k' : ℕ → ℤ) (xs : List ℕ) → ((a : ℕ) → k' a ≡ k a) → Descending k xs → Descending k' xs
Descending-keys k k' [] same d = tt
Descending-keys k k' (x ∷ xs) same d = (
  ap (λ b. all_upto k' b xs) (same x) ∙ all_upto_same k k' (k x) xs (λ a m. same a) ∙ d.0,
  Descending-keys k k' xs same d.1,
)

qkey-removed : (x q nx : ℕ) (t : ℕ → Qentry) (a : ℕ) → (removed x q nx t a).qkey ≡ (t a).qkey
qkey-removed x q nx t a = ground arith

pub qkey-dequeue :
    (q x : ℕ) (s : Queues) (xs : List ℕ)
    → IsQueue s.queuetab q (x ∷ xs)
    → (a : ℕ) → ((dequeue q s).1.queuetab a).qkey ≡ (s.queuetab a).qkey
qkey-dequeue q x s xs v a =
    let c = v.chain in
    let small : x < nproc = ground (arith, v.processes) in
    let e =
      dequeue_eq q x s (head_of xs (q + 1)) v.in_table small c.0 c.1
        (qnext-Chain s.queuetab x xs (q + 1) c.2) in
    ap (λ (r : Option ℕ × Queues). (r.1.queuetab a).qkey) e
    ∙ qkey-removed x q (head_of xs (q + 1)) s.queuetab a

-- The state after the first process has been taken from the ready list.
abbrev pub switched : ℕ → Queues → System → System
switched x q y = run_first (some x, q) y

pub switch_eq :
    (y : System) (x : ℕ) (xs : List ℕ)
    → IsReadyList y (x ∷ xs)
    → switch y ≡ switched x (dequeue y.readylist y.queues).1 y
unfolding switch
switch_eq y x xs v =
    let first = (dequeue-IsQueue y.readylist x y.queues xs v.queue).0 in
    ap (λ o. run_first (o, (dequeue y.readylist y.queues).1) y) first

prio-switched : (x : ℕ) (q : Queues) (y : System) (a : ℕ) → prio (switched x q y) a ≡ prio y a
prio-switched x q y a = ground arith

pub prstate-switched :
    (x : ℕ) (q : Queues) (y : System) (a : ℕ)
    → (proc_of a (switched x q y)).prstate ≡ (if x == a then pr_curr else (proc_of a y).prstate)
prstate-switched x q y a = ground arith

switched-Runs :
    (y : System) (x : ℕ) (xs : List ℕ)
    → IsReadyList y (x ∷ xs)
    → Runs (switched x (dequeue y.readylist y.queues).1 y) xs
switched-Runs y x xs v =
    let q = (dequeue y.readylist y.queues).1 in
    let key = qkey-dequeue y.readylist x y.queues xs v.queue in
    let t = y.queues.queuetab in
    let left : IsReadyList (switched x q y) xs = record {
      queue = (dequeue-IsQueue y.readylist x y.queues xs v.queue).1;
      descending = Descending-keys (keys t) _ xs key v.descending.1;
      tail_key = key (y.readylist + 1) ∙ v.tail_key;
      ranked = λ a m. key a ∙ v.ranked a (ground arith) ∙ sym (prio-switched x q y a);
      ready_state = λ a m.
          let ne : (x == a) ≡ false = ground (arith, v.queue.distinct.0) in
          prstate-switched x q y a ∙ rw ne (v.ready_state a (ground arith));
    } in
    let same : (a : ℕ) → mem a xs ≡ true → prio (switched x q y) a ≡ keys t a =
      λ a m. prio-switched x q y a ∙ sym (v.ranked a (ground arith)) in
    record {
      ready_list = left;
      running = prstate-switched x q y x ∙ ground arith;
      highest =
          ap (λ b. all_upto (prio (switched x q y)) b xs)
            (prio-switched x q y x ∙ sym (v.ranked x (ground arith)))
          ∙ all_upto_same (keys t) (prio (switched x q y)) (t x).qkey xs same
          ∙ v.descending.0;
    }

-- `switch` with a process at the front of the ready list: this process runs, and the others stay.
pub switch-Runs :
    (y : System) (x : ℕ) (xs : List ℕ)
    → IsReadyList y (x ∷ xs)
    → ((switch y).kernel.currpid ≡ x) × Runs (switch y) xs
switch-Runs y x xs v = rw (switch_eq y x xs v) (refl, switched-Runs y x xs v)
