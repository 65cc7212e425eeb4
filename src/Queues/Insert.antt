-- ===== src/Queues/Insert.antt =====
-- `insert` as an operation on lists.
use virtual_memory_xinu_f.Base.{
  ℕ, ◌+◌, ◌<◌, ◌≡◌, ◌≢◌, refl, sym, ap, ◌∙◌, subst, true, false, some, ◌==◌, ◌&&◌, List, [], ◌∷◌,
  ◌++◌, arith, update, if◌then◌else◌, ok,
}
use virtual_memory_xinu_f.Base.Int.{ℤ, leb_ℤ, ltb_ℤ}
use virtual_memory_xinu_f.Base.Distinct.{mem}
use virtual_memory_xinu_f.Kernel.{nproc, Proc}
use virtual_memory_xinu_f.Queues.{Qentry, Queues, is_bad_pid, set_qnext, set_qprev}
use virtual_memory_xinu_f.Queues.Chain.{Chain, IsQueue, Untouched, last_of, head_of, qnext-Chain}
use virtual_memory_xinu_f.Queues.Ordered.{find_place, insert_before, insert}
use virtual_memory_xinu_f.Queues.Placed.{placed, placed-Untouched}
use virtual_memory_xinu_f.Queues.Sorted.{
  all_from, all_below, all_upto, Descending, keys, front, back, front-append-back, all_from-front,
  all_below-back, find_place_lem, length-processes-le, placed-IsQueue,
}

-- The queue after `insert`.
pub record Inserted (t : ℕ → Qentry) (q : ℕ) (xs : List ℕ) (pid : ℕ) (key : ℤ) (u : ℕ → Qentry)
    : Type 0 where
  pub ys : List ℕ
  pub zs : List ℕ
  pub parts : xs ≡ ys ++ zs
  pub queue : IsQueue u q (ys ++ pid ∷ zs)
  pub above : all_from (keys t) key ys ≡ true
  pub behind : all_below (keys t) key zs ≡ true
  pub its_key : (u pid).qkey ≡ key
  pub descending : Descending (keys u) (ys ++ pid ∷ zs)
  pub other_keys : (a : ℕ) → pid ≢ a → (u a).qkey ≡ (t a).qkey
  pub untouched : Untouched t u q (pid ∷ xs)

-- Keys that change at an entry outside a list.
module _ (k k' : ℕ → ℤ) (pid : ℕ) (same : (a : ℕ) → pid ≢ a → k' a ≡ k a) where
  all_upto_same : (b : ℤ) (xs : List ℕ) → mem pid xs ≡ false → all_upto k' b xs ≡ all_upto k b xs
  all_upto_same b [] new = refl
  all_upto_same b (x ∷ xs) new =
      let e : k' x ≡ k x = same x (λ e. absurd (ground arith)) in
      rw e (ap (λ r. leb_ℤ (k x) b && r) (all_upto_same b xs (ground arith)))

  Descending-same : (xs : List ℕ) → mem pid xs ≡ false → Descending k xs → Descending k' xs
  Descending-same [] new d = tt
  Descending-same (x ∷ xs) new d =
      let e : k' x ≡ k x = same x (λ e. absurd (ground arith)) in
      (rw e (all_upto_same (k x) xs (ground arith) ∙ d.0), Descending-same xs (ground arith) d.1)

  all_upto_below :
      (key : ℤ) (xs : List ℕ)
      → mem pid xs ≡ false
      → all_below k key xs ≡ true
      → all_upto k' key xs ≡ true
  all_upto_below key xs new h = all_upto_same key xs new ∙ weaken xs h
    where
      weaken : (xs : List ℕ) → all_below k key xs ≡ true → all_upto k key xs ≡ true
      weaken [] h = refl
      weaken (x ∷ xs) h = ground (arith, weaken xs)

  all_upto-mid :
      (b : ℤ) (ys zs : List ℕ)
      → mem pid (ys ++ zs) ≡ false
      → all_upto k b (ys ++ zs) ≡ true
      → leb_ℤ (k' pid) b ≡ true
      → all_upto k' b (ys ++ pid ∷ zs) ≡ true
  all_upto-mid b [] zs new h le = ground (arith, all_upto_same b zs new)
  all_upto-mid b (y ∷ ys) zs new h le =
      let e : k' y ≡ k y = same y (λ e. absurd (ground arith)) in
      rw e (ground (arith, all_upto-mid b ys zs))

  Descending-mid :
      (key : ℤ) (ys zs : List ℕ)
      → k' pid ≡ key
      → mem pid (ys ++ zs) ≡ false
      → Descending k (ys ++ zs)
      → all_from k key ys ≡ true
      → all_below k key zs ≡ true
      → Descending k' (ys ++ pid ∷ zs)
  Descending-mid key [] zs e new d hy hz =
      (rw e (all_upto_below key zs new hz), Descending-same zs new d)
  Descending-mid key (y ∷ ys) zs e new d hy hz =
      let e' : k' y ≡ k y = same y (λ e. absurd (ground arith)) in
      let le : leb_ℤ (k' pid) (k y) ≡ true = rw e (ground arith) in
      (
        rw e' (all_upto-mid (k y) ys zs (ground arith) d.0 le),
        Descending-mid key ys zs e (ground arith) d.1 (ground arith) hz,
      )

qprev-split :
    (t : ℕ → Qentry) (p : ℕ) (ys zs : List ℕ) (n : ℕ)
    → Chain t p (ys ++ zs) n
    → (t (head_of zs n)).qprev ≡ some (last_of p ys)
qprev-split t p [] [] n c = c.1
qprev-split t p [] (z ∷ zs) n c = c.1
qprev-split t p (y ∷ ys) zs n c = qprev-split t y ys zs n c.2

insert_before_eq :
    (t : ℕ → Qentry) (pid : ℕ) (key : ℤ) (prev next : ℕ)
    → (t next).qprev ≡ some prev
    → insert_before pid key (some next) t ≡ placed pid key prev next t
insert_before_eq t pid key prev next e =
    ap
      (λ pr. set_qprev (some next) (some pid) (
        set_qnext pr (some pid)
          (update t pid (record { qkey = key; qnext = some next; qprev = pr }))))
      e

pub qkey-placed :
    (t : ℕ → Qentry) (pid : ℕ) (key : ℤ) (prev next a : ℕ)
    → (placed pid key prev next t a).qkey ≡ (if pid == a then key else (t a).qkey)
qkey-placed t pid key prev next a = ground arith

-- `insert` of a process, valid by the process table, into a queue in descending order of the keys
-- that does not hold it, with a key above that of the tail: it returns OK, and puts the process
-- behind all those whose keys are at least its own and in front of all others; the keys are in
-- descending order again, the process has the key, and no other key changes. No entry outside the
-- queue and the process changes.
pub insert-Inserted :
    (procs : ℕ → Proc) (pid q : ℕ) (key : ℤ) (s : Queues) (xs : List ℕ)
    → IsQueue s.queuetab q xs
    → Descending (keys s.queuetab) xs
    → is_bad_pid procs pid ≡ false
    → mem pid xs ≡ false
    → ltb_ℤ (s.queuetab (q + 1)).qkey key ≡ true
    → ((insert procs pid q key s).0 ≡ ok)
      × Inserted s.queuetab q xs pid key (insert procs pid q key s).1.queuetab
unfolding insert
insert-Inserted procs pid q key s xs v d valid new low =
    let t = s.queuetab in
    let k = keys t in
    let ys = front k key xs in
    let zs = back k key xs in
    let is_process : pid < nproc = ground arith in
    let parts = front-append-back k key xs in
    let stops : leb_ℤ key (t (q + 1)).qkey ≡ false = ground arith in
    let few = length-processes-le xs v.distinct v.processes in
    let chain : Chain t q (ys ++ zs) (q + 1) =
      subst (λ l. Chain t q l (q + 1)) (sym parts) v.chain in
    let place : find_place (nproc + 1) key (t q).qnext t ≡ some (head_of zs (q + 1)) =
      ap (λ c. find_place (nproc + 1) key c t) (qnext-Chain t q xs (q + 1) v.chain)
      ∙ find_place_lem t key (nproc + 1) q xs (q + 1) stops (omega (arith, few)) v.chain in
    let result =
      ap (λ c. insert_before pid key c t) place
      ∙ insert_before_eq t pid key (last_of q ys) (head_of zs (q + 1))
          (qprev-split t q ys zs (q + 1) chain) in
    let u = placed pid key (last_of q ys) (head_of zs (q + 1)) t in
    let its_key : (u pid).qkey ≡ key =
      qkey-placed t pid key (last_of q ys) (head_of zs (q + 1)) pid ∙ ground arith in
    let other_keys : (a : ℕ) → pid ≢ a → (u a).qkey ≡ (t a).qkey =
      λ a ne. qkey-placed t pid key (last_of q ys) (head_of zs (q + 1)) a ∙ ground arith in
    let above = all_from-front k key xs in
    let behind = all_below-back k key xs d in
    rw (v.in_table, valid, result)
      (
        refl,
        record {
          ys = ys;
          zs = zs;
          parts = sym parts;
          queue = placed-IsQueue t q pid key xs v is_process new ys zs (sym parts);
          above = above;
          behind = behind;
          its_key = its_key;
          descending =
              Descending-mid k (keys u) pid other_keys key ys zs its_key
                (subst (λ l. mem pid l ≡ false) (sym parts) new)
                (subst (Descending k) (sym parts) d) above behind;
          other_keys = other_keys;
          untouched =
              subst (λ l. Untouched t u q (pid ∷ l)) parts (placed-Untouched t pid key q ys zs);
        },
      )
