-- ===== src/Queues/Insertd.antt =====
-- `insertd` as an operation on delays.
use virtual_memory_xinu_f.Base.{
  ℕ, ◌+◌, ◌≤◌, ◌<◌, ◌≡◌, refl, sym, ap, ◌∙◌, true, false, not, ◌==◌, List, [], ◌∷◌, ◌++◌, arith,
  if◌then◌else◌, ok, inl, inr, Bool-cases,
}
use virtual_memory_xinu_f.Base.Int.{ℤ, pos, ◌-ℤ◌}
use virtual_memory_xinu_f.Base.Distinct.{mem}
use virtual_memory_xinu_f.Kernel.{nproc, Proc}
use virtual_memory_xinu_f.Queues.{Qentry, Queues, is_bad_pid}
use virtual_memory_xinu_f.Queues.Chain.{Chain, IsQueue, last_of, head_of, qnext-Chain, not_process}
use virtual_memory_xinu_f.Queues.Ordered.{find_delay, lower_key, insert_between, insertd}
use virtual_memory_xinu_f.Queues.Placed.{placed}
use virtual_memory_xinu_f.Queues.Sorted.{keys, length-processes-le, placed-IsQueue}
use virtual_memory_xinu_f.Queues.Insert.{qkey-placed}
use virtual_memory_xinu_f.Queues.Delta.{
  not_neg, delay_of, early, late, remaining, early-append-late, early_le, late_gt, find_delay_lem,
  late-mem,
}
use virtual_memory_xinu_f.Queues.Delays.{
  new_keys, after, delays, not_neg-after, delay_of-same, not_neg-same,
}

-- The delta list after `insertd`.
pub record Delayed (t : ℕ → Qentry) (q : ℕ) (xs : List ℕ) (pid n : ℕ) (u : ℕ → Qentry)
    : Type 0 where
  pub ys : List ℕ
  pub zs : List ℕ
  pub parts : xs ≡ ys ++ zs
  pub queue : IsQueue u q (ys ++ pid ∷ zs)
  pub keys_not_neg : not_neg (keys u) (ys ++ pid ∷ zs) ≡ true
  pub its_delay : delay_of (keys u) (ys ++ pid ∷ zs) pid ≡ n
  pub other_delays :
      (a : ℕ) → mem a xs ≡ true → delay_of (keys u) (ys ++ pid ∷ zs) a ≡ delay_of (keys t) xs a
  pub sooner : (a : ℕ) → mem a ys ≡ true → delay_of (keys t) xs a ≤ n
  pub later : (a : ℕ) → mem a zs ≡ true → n < delay_of (keys t) xs a

-- A chain depends on the links only.
Chain-links :
    (t u : ℕ → Qentry) (p : ℕ) (xs : List ℕ) (n : ℕ)
    → ((a : ℕ) → ((u a).qnext ≡ (t a).qnext) × ((u a).qprev ≡ (t a).qprev))
    → Chain t p xs n
    → Chain u p xs n
Chain-links t u p [] n same c = ((same p).0 ∙ c.0, (same n).1 ∙ c.1)
Chain-links t u p (x ∷ xs) n same c =
    ((same p).0 ∙ c.0, (same x).1 ∙ c.1, Chain-links t u x xs n same c.2)

-- The last write of `insertd`.
abbrev lowered : ℕ → ℕ → ℤ → (ℕ → Qentry) → ℕ → Qentry
lowered tail next key w = if not (next == tail) then lower_key next key w else w

lowered_links :
    (tail next : ℕ) (key : ℤ) (w : ℕ → Qentry) (a : ℕ)
    → ((lowered tail next key w a).qnext ≡ (w a).qnext)
      × ((lowered tail next key w a).qprev ≡ (w a).qprev)
lowered_links tail next key w a = (ground arith, ground arith)

qkey-lower_key :
    (w : ℕ → Qentry) (z r a : ℕ)
    → (lower_key z (pos r) w a).qkey ≡ (if z == a then (w z).qkey -ℤ pos r else (w a).qkey)
qkey-lower_key w z r a = ground arith

new_keys_lem :
    (t : ℕ → Qentry) (pid r prev tail : ℕ) (zs : List ℕ) (a : ℕ)
    → mem pid zs ≡ false
    → mem tail zs ≡ false
    → (lowered tail (head_of zs tail) (pos r) (placed pid (pos r) prev (head_of zs tail) t) a).qkey
      ≡ new_keys (keys t) pid r zs a
new_keys_lem t pid r prev tail [] a new out =
    let at_end : (tail == tail) ≡ true = ground arith in
    rw at_end (qkey-placed t pid (pos r) prev tail a)
new_keys_lem t pid r prev tail (z ∷ zs) a new out =
    let ne : (z == tail) ≡ false = ground arith in
    let w = placed pid (pos r) prev z t in
    let key = qkey-placed t pid (pos r) prev z in
    let at_z : (w z).qkey ≡ (t z).qkey = key z ∙ ground arith in
    rw ne (qkey-lower_key w z r a ∙ chosen (w z).qkey (w a).qkey at_z (key a))
  where
    chosen :
        (b c : ℤ)
        → b ≡ (t z).qkey
        → c ≡ (if pid == a then pos r else (t a).qkey)
        → (if z == a then b -ℤ pos r else c) ≡ new_keys (keys t) pid r (z ∷ zs) a
    chosen b c e e' = elim (Bool-cases (z == a)) [
      | inl here ↦
          let other : (pid == a) ≡ false = ground arith in
          let same : z ≡ a = ground arith in
          rw (here, other) (ap (λ v. v -ℤ pos r) (e ∙ ap (keys t) same))
      | inr there ↦ rw there e'
    ]

links-IsQueue :
    (t u : ℕ → Qentry) (q : ℕ) (xs : List ℕ)
    → ((a : ℕ) → ((u a).qnext ≡ (t a).qnext) × ((u a).qprev ≡ (t a).qprev))
    → IsQueue t q xs
    → IsQueue u q xs
links-IsQueue t u q xs same v = record {
  in_table = v.in_table;
  behind = v.behind;
  processes = v.processes;
  distinct = v.distinct;
  chain = Chain-links t u q xs (q + 1) same v.chain;
}

-- `insertd` of a process, valid by the process table, into a delta list that does not hold it and has
-- no negative key, with a delay that is not negative: it returns OK; the process has the delay, all
-- others keep theirs, it stands behind those whose delay is not longer and in front of the others, and
-- no key is negative.
pub insertd-Delayed :
    (procs : ℕ → Proc) (pid q n : ℕ) (s : Queues) (xs : List ℕ)
    → IsQueue s.queuetab q xs
    → not_neg (keys s.queuetab) xs ≡ true
    → is_bad_pid procs pid ≡ false
    → mem pid xs ≡ false
    → ((insertd procs pid q (pos n) s).0 ≡ ok)
      × Delayed s.queuetab q xs pid n (insertd procs pid q (pos n) s).1.queuetab
unfolding insertd
insertd-Delayed procs pid q n s xs v nn valid new =
    let t = s.queuetab in
    let k = keys t in
    let ys = early k n xs in
    let zs = late k n xs in
    let r = remaining k n xs in
    let parts = early-append-late k n xs in
    let is_process : pid < nproc = ground arith in
    let few = length-processes-le xs v.distinct v.processes in
    let out = not_process (q + 1) xs (omega (arith, v.behind)) v.processes in
    let tail_out : mem (q + 1) zs ≡ false = late_misses k n xs (q + 1) out in
    let pid_out : mem pid zs ≡ false = late_misses k n xs pid new in
    let stop =
      ap (λ c. find_delay (nproc + 1) (q + 1) (pos n) q c t) (qnext-Chain t q xs (q + 1) v.chain)
      ∙ find_delay_lem t n (nproc + 1) q xs (q + 1) nn (omega (arith, few)) out v.chain in
    let w = placed pid (pos r) (last_of q ys) (head_of zs (q + 1)) t in
    let u = lowered (q + 1) (head_of zs (q + 1)) (pos r) w in
    let result = ap (λ f. insert_between pid (q + 1) f t) stop in
    let same : (a : ℕ) → keys u a ≡ after k pid n xs a =
      λ a. new_keys_lem t pid r (last_of q ys) (q + 1) zs a pid_out tail_out in
    let all = delays k pid n xs v.distinct new nn in
    let l = ys ++ pid ∷ zs in
    rw (v.in_table, valid, result)
      (
        refl,
        record {
          ys = ys;
          zs = zs;
          parts = sym parts;
          queue =
              links-IsQueue w u q l (lowered_links (q + 1) (head_of zs (q + 1)) (pos r) w)
                (placed-IsQueue t q pid (pos r) xs v is_process new ys zs (sym parts));
          keys_not_neg =
              not_neg-same (after k pid n xs) pid (keys u) l (λ b m. same b)
                (not_neg-after k pid n xs v.distinct new nn);
          its_delay = delay_of-same (after k pid n xs) (keys u) l pid (λ b m. same b) ∙ all.0;
          other_delays =
              λ a m. delay_of-same (after k pid n xs) (keys u) l a (λ b j. same b) ∙ all.1 a m;
          sooner = early_le k n xs;
          later = λ a m. late_gt k n xs a v.distinct m;
        },
      )
  where
    late_misses :
        (k : ℕ → ℤ) (n : ℕ) (l : List ℕ) (a : ℕ) → mem a l ≡ false → mem a (late k n l) ≡ false
    late_misses k n l a out = elim (Bool-cases (mem a (late k n l))) [
      | inl inside ↦ absurd (cc (late-mem k n l a inside, out))
      | inr misses ↦ misses
    ]
