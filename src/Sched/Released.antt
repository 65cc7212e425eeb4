-- ===== src/Sched/Released.antt =====
-- Processes that are made ready one after the other while rescheduling is deferred.
use virtual_memory_xinu_f.Base.{
  ℕ, ◌≡◌, ◌≢◌, refl, ap, ◌∙◌, Bool, true, false, ltb, ◌==◌, List, [], ◌∷◌, ◌++◌, arith, ok,
}
use virtual_memory_xinu_f.Base.Int.{ltb_ℤ}
use virtual_memory_xinu_f.Base.Distinct.{mem, Distinct, mem-append}
use virtual_memory_xinu_f.Kernel.{Proc}
use virtual_memory_xinu_f.Queues.{minkey}
use virtual_memory_xinu_f.System.{System, proc_of}
use virtual_memory_xinu_f.Sched.{defer_start, ready, bad_pid}
use virtual_memory_xinu_f.Sched.Order.{IsReadyList, prio}
use virtual_memory_xinu_f.Sched.Ready.{readied, readied-IsReadyList, ready_deferred}

-- The processes `ps` wait elsewhere, and can be made ready.
pub record CanWake (y : System) (ps xs : List ℕ) : Type 0 where
  pub distinct : Distinct ps
  pub apart : (a : ℕ) → mem a ps ≡ true → mem a xs ≡ false
  pub valid : (a : ℕ) → mem a ps ≡ true → bad_pid a y ≡ false
  pub above : (a : ℕ) → mem a ps ≡ true → ltb_ℤ minkey (prio y a) ≡ true

abbrev pub some_of : List ℕ → Bool → Bool
some_of [] b = b
some_of (x ∷ xs) b = true

some_of-true : (ps : List ℕ) → some_of ps true ≡ true
some_of-true [] = refl
some_of-true (p ∷ ps) = refl

-- From `y` to `y'` the processes `ps` came to the ready list `xs`, and no other process changed.
pub record Released (y y' : System) (ps xs : List ℕ) : Type 0 where
  pub now_ready : List ℕ
  pub list : IsReadyList y' now_ready
  pub listed : (a : ℕ) → mem a now_ready ≡ mem a (ps ++ xs)
  pub others : (a : ℕ) → mem a ps ≡ false → proc_of a y' ≡ proc_of a y
  pub same_curr : y'.kernel.currpid ≡ y.kernel.currpid
  pub same_defers : y'.ndefers ≡ y.ndefers
  pub tried : y'.attempt ≡ some_of ps y.attempt

-- The state after one of them has been made ready.
abbrev pub readied_later : ℕ → System → System
readied_later p y = record (readied p y) { attempt = true }

other_proc : (y : System) (p a : ℕ) → p ≢ a → proc_of a (readied_later p y) ≡ proc_of a y
other_proc y p a ne = let other : (p == a) ≡ false = ground arith in rw other refl

module _ (y : System) (p : ℕ) (ps xs : List ℕ) (v : IsReadyList y xs)
    (w : CanWake y (p ∷ ps) xs) where
  first_list : (l : List ℕ) × IsReadyList (readied p y) l × ((a : ℕ) → mem a l ≡ mem a (p ∷ xs))
  first_list =
      readied-IsReadyList y xs p v (w.valid p (ground arith)) (w.above p (ground arith))
        (w.apart p (ground arith))

  pub first_ready : List ℕ
  first_ready = first_list.0

  first_listed : (a : ℕ) → mem a first_ready ≡ mem a (p ∷ xs)
  unfolding first_ready
  first_listed = first_list.2

  pub first-IsReadyList : IsReadyList (readied_later p y) first_ready
  unfolding first_ready
  first-IsReadyList =
      let u = first_list.1 in
      record {
        queue = u.queue;
        descending = u.descending;
        tail_key = u.tail_key;
        ranked = u.ranked;
        ready_state = u.ready_state;
      }

  pub first_eq : ltb 0 y.ndefers ≡ true → ready p y ≡ (ok, readied_later p y)
  first_eq =
      ready_deferred y xs p v (w.valid p (ground arith)) (w.above p (ground arith))
        (w.apart p (ground arith))

  ne : (a : ℕ) → mem a ps ≡ true → p ≢ a
  ne a m e = absurd (cc (ap (λ b. mem b ps) e, m, w.distinct.0))

  pub rest-CanWake : CanWake (readied_later p y) ps first_ready
  rest-CanWake = record {
    distinct = w.distinct.1;
    apart = λ a m. let other = ne a m in first_listed a ∙ ground (arith, w.apart a (ground arith));
    valid = λ a m.
        let same = other_proc y p a (ne a m) in
        let valid = w.valid a (ground arith) in ground (arith, ap (λ (r : Proc). r.prstate) same);
    above = λ a m.
        ap (λ (r : Proc). ltb_ℤ minkey r.prprio) (other_proc y p a (ne a m))
        ∙ w.above a (ground arith);
  }

  pub Released-cons :
      (y' : System) → Released (readied_later p y) y' ps first_ready → Released y y' (p ∷ ps) xs
  Released-cons y' r = record {
    now_ready = r.now_ready;
    list = r.list;
    listed = λ a.
        r.listed a
        ∙ mem-append a ps first_ready
        ∙ ground (arith, first_listed a, mem-append a ps xs);
    others = λ a m. r.others a (ground arith) ∙ other_proc y p a (λ e. absurd (ground arith));
    same_curr = r.same_curr;
    same_defers = r.same_defers;
    tried = r.tried ∙ some_of-true ps;
  }

pub Released-nil : (y : System) (xs : List ℕ) → IsReadyList y xs → Released y y [] xs
Released-nil y xs v = record {
  now_ready = xs;
  list = v;
  listed = λ a. refl;
  others = λ a m. refl;
  same_curr = refl;
  same_defers = refl;
  tried = refl;
}

-- `resched_cntl(DEFER_START)` leaves all queues and processes alone.
pub deferred-IsReadyList :
    (y : System) (xs : List ℕ) → IsReadyList y xs → IsReadyList (defer_start y) xs
unfolding defer_start
deferred-IsReadyList y xs v = record {
  queue = v.queue;
  descending = v.descending;
  tail_key = v.tail_key;
  ranked = v.ranked;
  ready_state = v.ready_state;
}

pub deferred-CanWake :
    (y : System) (ps xs : List ℕ) → CanWake y ps xs → CanWake (defer_start y) ps xs
unfolding defer_start
deferred-CanWake y ps xs w = record {
  distinct = w.distinct;
  apart = w.apart;
  valid = w.valid;
  above = w.above;
}
