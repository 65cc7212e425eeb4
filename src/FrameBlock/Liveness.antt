-- ===== src/FrameBlock/Liveness.antt =====
-- `framewakeup` with a free frame at hand wakes every process that waits for one.
use virtual_memory_xinu_f.Base.{
  ℕ, zero, suc, ◌+◌, ◌-◌, ◌<◌, ◌≡◌, refl, sym, ap, ◌∙◌, subst, true, false, Option, none, some, ltb,
  ◌==◌, List, [], ◌∷◌, ◌++◌, arith, if◌then◌else◌, Status,
}
use virtual_memory_xinu_f.Base.Int.{ltb_ℤ}
use virtual_memory_xinu_f.Base.Distinct.{mem, length}
use virtual_memory_xinu_f.Kernel.{nproc, BlockQueue, pr_ready}
use virtual_memory_xinu_f.Queues.{Queues, minkey, dequeue}
use virtual_memory_xinu_f.FrameBlock.{dequeue_fbqueue}
use virtual_memory_xinu_f.FrameBlock.Fifo.{
  IsQueue, empty, filled, length-around, dequeue_fbqueue-cons, dequeue_fbqueue-nil,
}
use virtual_memory_xinu_f.FrameBlock.Wakeup.{
  no_frames, set_blocked, wake_then, wake_blocked, framewakeup,
}
use virtual_memory_xinu_f.System.{System, set_prstate}
use virtual_memory_xinu_f.Sched.{
  bad_pid, insert_ready, switch, run_first, resched, defer_start, defer_stop,
}
use virtual_memory_xinu_f.Sched.Order.{IsReadyList, Runs, prio}
use virtual_memory_xinu_f.Sched.Resched.{Chosen}
use virtual_memory_xinu_f.Sched.Deferred.{defer_stop-Chosen}
use virtual_memory_xinu_f.Sched.Released.{
  CanWake, Released, Released-nil, Released-cons, readied_later, first_ready, first-IsReadyList,
  first_eq, rest-CanWake, deferred-IsReadyList, deferred-CanWake,
}

-- The queue of the waiting processes plays no part in the ready list.
module _ (y : System) (q : BlockQueue) (ps xs : List ℕ) where
  blocked-IsReadyList : IsReadyList y xs → IsReadyList (set_blocked q y) xs
  blocked-IsReadyList v = record {
    queue = v.queue;
    descending = v.descending;
    tail_key = v.tail_key;
    ranked = v.ranked;
    ready_state = v.ready_state;
  }

  blocked-CanWake : CanWake y ps xs → CanWake (set_blocked q y) ps xs
  blocked-CanWake w = record {
    distinct = w.distinct;
    apart = w.apart;
    valid = w.valid;
    above = w.above;
  }

  blocked-Released : (y' : System) → Released (set_blocked q y) y' ps xs → Released y y' ps xs
  blocked-Released y' r = record {
    now_ready = r.now_ready;
    list = r.list;
    listed = r.listed;
    others = r.others;
    same_curr = r.same_curr;
    same_defers = r.same_defers;
    tried = r.tried;
  }

wake_blocked-Released :
    (fuel : ℕ) (y : System) (ps xs : List ℕ)
    → length ps < fuel
    → IsQueue y.kernel.blocked ps
    → no_frames y.kernel.frames ≡ false
    → ltb 0 y.ndefers ≡ true
    → IsReadyList y xs
    → CanWake y ps xs
    → Released y (wake_blocked fuel y) ps xs × IsQueue (wake_blocked fuel y).kernel.blocked []
unfolding wake_blocked
wake_blocked-Released zero y ps xs enough q free later v w = absurd (omega arith)
wake_blocked-Released (suc fuel) y [] xs enough q free later v w =
    let e = ap (λ r. wake_then (wake_blocked fuel) r y) (dequeue_fbqueue-nil y.kernel.blocked q) in
    rw (free, e) (Released-nil y xs v, q)
wake_blocked-Released (suc fuel) y (p ∷ ps) xs enough q free later v w =
    let d = dequeue_fbqueue-cons y.kernel.blocked p ps q in
    let q' = (dequeue_fbqueue y.kernel.blocked).1 in
    let e = ap (λ o. wake_then (wake_blocked fuel) (o, q') y) d.0 in
    let z = set_blocked q' y in
    let v' = blocked-IsReadyList y q' (p ∷ ps) xs v in
    let w' = blocked-CanWake y q' (p ∷ ps) xs w in
    let step =
      ap (λ (r : Status × System). wake_blocked fuel r.1) (first_eq z p ps xs v' w' later) in
    let further =
      wake_blocked-Released fuel (readied_later p z) ps (first_ready z p ps xs v' w')
        (omega (arith, enough)) d.1 free later (first-IsReadyList z p ps xs v' w')
        (rest-CanWake z p ps xs v' w') in
    let all = Released-cons z p ps xs v' w' _ further.0 in
    rw (free, e ∙ step) (blocked-Released y q' (p ∷ ps) xs _ all, further.1)

switch_blocked : (y : System) → (switch y).kernel.blocked ≡ y.kernel.blocked
unfolding switch
switch_blocked y = go (dequeue y.readylist y.queues)
  where
    go : (r : Option ℕ × Queues) → (run_first r y).kernel.blocked ≡ y.kernel.blocked
    go (none, s) = refl
    go (some p, s) = refl

resched_blocked : (y : System) → (resched y).kernel.blocked ≡ y.kernel.blocked
unfolding resched
resched_blocked y =
    let old = y.kernel.currpid in
    ground (arith, switch_blocked y, switch_blocked (insert_ready old (set_prstate old pr_ready y)))

defer_stop_blocked : (y : System) → (defer_stop y).1.kernel.blocked ≡ y.kernel.blocked
unfolding defer_stop
defer_stop_blocked y = ground (arith, resched_blocked (record y { ndefers = y.ndefers - 1 }))

length-IsQueue : (q : BlockQueue) (ps : List ℕ) → IsQueue q ps → length ps < nproc + 1
length-IsQueue q _ (empty e) = omega arith
length-IsQueue q ps (filled n _ hi hn tail e) =
    let len = ap length e ∙ length-around q.fbqueue q.fbqhead (suc n) in omega (arith, len)

-- `framewakeup`, called by a process that runs as it should, valid, with a priority above the least
-- key and not in the queue, when E1 or E2 has a free frame and no
-- deferral is pending: every process of the queue, all of them valid and with priorities above the
-- least key, leaves it; afterwards the running process is one of the highest priority among them
-- and those that were ready or running, and the others are the ready list, by descending priority.
pub framewakeup-Chosen :
    (y : System) (ps xs : List ℕ)
    → IsQueue y.kernel.blocked ps
    → no_frames y.kernel.frames ≡ false
    → y.ndefers ≡ 0
    → Runs y xs
    → bad_pid y.kernel.currpid y ≡ false
    → ltb_ℤ minkey (prio y y.kernel.currpid) ≡ true
    → mem y.kernel.currpid ps ≡ false
    → CanWake y ps xs
    → IsQueue (framewakeup y).kernel.blocked []
      × Chosen (framewakeup y) (y.kernel.currpid ∷ ps ++ xs)
unfolding framewakeup defer_start
framewakeup-Chosen y ps xs q free now run valid above out w =
    let z = defer_start y in
    let fresh = ap (λ n. if n == 0 then false else y.attempt) now in
    let one : y.ndefers + 1 ≡ 1 = omega (arith, now) in
    let v' : Runs z xs = record {
      ready_list = deferred-IsReadyList y xs run.ready_list;
      running = run.running;
      highest = run.highest;
    } in
    let woken =
      wake_blocked-Released (nproc + 1) z ps xs (length-IsQueue y.kernel.blocked ps q) q free
        (ap (ltb 0) one) v'.ready_list (deferred-CanWake y ps xs w) in
    let y' = wake_blocked (nproc + 1) z in
    let c =
      defer_stop-Chosen z y' xs v' valid above (woken.0.same_defers ∙ one) ps out fresh woken.0 in
    (subst (λ b. IsQueue b []) (sym (defer_stop_blocked y')) woken.1, c.1)
