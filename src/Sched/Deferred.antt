-- ===== src/Sched/Deferred.antt =====
-- The end of a deferral under which processes were made ready.
use virtual_memory_xinu_f.Base.{
  ℕ, ◌-◌, ◌<◌, ◌≡◌, refl, sym, ap, ap₂, ◌∙◌, true, false, leb, ◌==◌, ◌||◌, ◌&&◌, List, [], ◌∷◌,
  ◌++◌, inl, inr, arith, ok,
}
use virtual_memory_xinu_f.Base.Int.{ℤ, leb_ℤ, ltb_ℤ}
use virtual_memory_xinu_f.Base.Distinct.{mem, mem-cons_cases}
use virtual_memory_xinu_f.Kernel.{nproc, Proc}
use virtual_memory_xinu_f.Queues.{minkey, is_free_state}
use virtual_memory_xinu_f.Queues.Sorted.{all_upto}
use virtual_memory_xinu_f.System.{System, proc_of}
use virtual_memory_xinu_f.Sched.{resched, defer_stop, bad_pid}
use virtual_memory_xinu_f.Sched.Order.{IsReadyList, Runs, prio}
use virtual_memory_xinu_f.Sched.Resched.{Chosen, resched-Chosen}
use virtual_memory_xinu_f.Sched.Released.{Released}

all_upto-mem :
    (k : ℕ → ℤ) (b : ℤ) (xs : List ℕ) (a : ℕ)
    → all_upto k b xs ≡ true
    → mem a xs ≡ true
    → leb_ℤ (k a) b ≡ true
all_upto-mem k b [] a h m = absurd (cc)
all_upto-mem k b (x ∷ xs) a h m = elim (mem-cons_cases a x xs m) [
  | inl e ↦ ap (λ c. leb_ℤ (k c) b) e ∙ ground arith
  | inr inside ↦ all_upto-mem k b xs a (ground arith) inside
]

all_upto-of_mem :
    (k : ℕ → ℤ) (b : ℤ) (xs : List ℕ)
    → ((a : ℕ) → mem a xs ≡ true → leb_ℤ (k a) b ≡ true)
    → all_upto k b xs ≡ true
all_upto-of_mem k b [] h = refl
all_upto-of_mem k b (x ∷ xs) h =
    ground (arith, h x (ground arith), all_upto-of_mem k b xs (λ a m. h a (ground arith)))

module _ (y y' : System) (xs : List ℕ) (run : Runs y xs)
    (valid : bad_pid y.kernel.currpid y ≡ false)
    (above : ltb_ℤ minkey (prio y y.kernel.currpid) ≡ true) (one : y'.ndefers ≡ 1) where
  abbrev cur : ℕ
  cur = y.kernel.currpid

  -- `ndefers--`.
  abbrev lowered : System
  lowered = record y' { ndefers = y'.ndefers - 1 }

  lowered-IsReadyList : (l : List ℕ) → IsReadyList y' l → IsReadyList lowered l
  lowered-IsReadyList l u = record {
    queue = u.queue;
    descending = u.descending;
    tail_key = u.tail_key;
    ranked = u.ranked;
    ready_state = u.ready_state;
  }

  Chosen-none : Released y y' [] xs → Chosen lowered (cur ∷ xs)
  Chosen-none r =
      let same : (a : ℕ) → prio y' a ≡ prio y a =
        λ a. ap (λ (p : Proc). p.prprio) (r.others a refl) in
      let same_state = ap (λ (p : Proc). p.prstate) (r.others y'.kernel.currpid refl) in
      record {
        waiting = r.now_ready;
        runs = record {
          ready_list = lowered-IsReadyList r.now_ready r.list;
          running = same_state ∙ ap (λ a. (proc_of a y).prstate) r.same_curr ∙ run.running;
          highest = all_upto-of_mem (prio y') (prio y' y'.kernel.currpid) r.now_ready λ a m.
              ap₂ leb_ℤ (same a) (same y'.kernel.currpid ∙ ap (prio y) r.same_curr)
              ∙ all_upto-mem (prio y) (prio y cur) xs a run.highest (sym (r.listed a) ∙ m);
        };
        same_processes = λ a. ap₂ (λ c b. (a == c) || b) r.same_curr (r.listed a);
      }

  Chosen-some :
      (ps : List ℕ)
      → mem cur ps ≡ false
      → Released y y' ps xs
      → Chosen (resched lowered) (cur ∷ ps ++ xs)
  Chosen-some ps out r =
      let same : proc_of y'.kernel.currpid y' ≡ proc_of cur y =
        ap (λ a. proc_of a y') r.same_curr ∙ r.others cur out in
      let small : cur < nproc = ground arith in
      let c =
        resched-Chosen lowered r.now_ready (lowered-IsReadyList r.now_ready r.list)
          (omega (arith, one)) (ap (λ (p : Proc). p.prstate) same ∙ run.running)
          (ap₂ (λ a (p : Proc). leb nproc a || is_free_state p.prstate) r.same_curr same ∙ valid)
          (ap (λ (p : Proc). ltb_ℤ minkey p.prprio) same ∙ above) in
      record {
        waiting = c.waiting;
        runs = c.runs;
        same_processes =
            λ a. c.same_processes a ∙ ap₂ (λ c b. (a == c) || b) r.same_curr (r.listed a);
      }

  -- `resched_cntl(DEFER_STOP)`, the only one pending, after the release of `ps`: the running
  -- process is one of the highest priority.
  pub defer_stop-Chosen :
      (ps : List ℕ)
      → mem cur ps ≡ false
      → y.attempt ≡ false
      → Released y y' ps xs
      → ((defer_stop y').0 ≡ ok) × Chosen (defer_stop y').1 (cur ∷ ps ++ xs)
  unfolding defer_stop
  defer_stop-Chosen [] out fresh r =
      let deferred = ap (λ n. n == 0) one in
      let last = ap (λ n. n - 1 == 0) one in
      let idle : ((y'.ndefers - 1 == 0) && y'.attempt) ≡ false =
        ap₂ (λ b c. b && c) last (r.tried ∙ fresh) in
      rw (deferred, idle) (refl, Chosen-none r)
  defer_stop-Chosen (p ∷ ps) out fresh r =
      let deferred = ap (λ n. n == 0) one in
      let last = ap (λ n. n - 1 == 0) one in
      let due : ((y'.ndefers - 1 == 0) && y'.attempt) ≡ true = ap₂ (λ b c. b && c) last r.tried in
      rw (deferred, due) (refl, Chosen-some (p ∷ ps) out r)
