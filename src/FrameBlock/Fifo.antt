-- ===== src/FrameBlock/Fifo.antt =====
-- The circular array is a first-in first-out queue of at most NPROC processes.
use virtual_memory_xinu_f.Base.{
  ℕ, zero, suc, ◌+◌, ◌%◌, ◌^◌, ◌<◌, ◌≡◌, refl, sym, ap, ap₂, ◌∙◌, true, false, none, some, update,
  ◌==◌, List, [], ◌∷◌, ◌++◌, arith,
}
use virtual_memory_xinu_f.Base.Distinct.{length, cons-injective}
use virtual_memory_xinu_f.Kernel.{BlockQueue, nproc, syserr32}
use virtual_memory_xinu_f.FrameBlock.{insert_fbqueue, dequeue_fbqueue}

-- The `n` entries of the array from `i` on, going round at NPROC.
abbrev pub around : (ℕ → ℕ) → ℕ → ℕ → List ℕ
around a i zero = []
around a i (suc n) = a i ∷ around a ((i + 1) % nproc) n

-- The queue holds the processes `ps`, the one to be woken first at the front.
pub data IsQueue (q : BlockQueue) : List ℕ → Type 0 where
  empty : q.fbqhead ≡ syserr32 → IsQueue q []
  filled :
      (n : ℕ) (ps : List ℕ)
      → q.fbqhead < nproc
      → n < nproc
      → q.fbqtail ≡ (q.fbqhead + n) % nproc
      → ps ≡ around q.fbqueue q.fbqhead (suc n)
      → IsQueue q ps

pub length-around : (a : ℕ → ℕ) (i n : ℕ) → length (around a i n) ≡ n
length-around a i zero = refl
length-around a i (suc n) = ap suc (length-around a ((i + 1) % nproc) n)

-- A write just behind a run that does not fill the circle extends it.
around-update :
    (a : ℕ → ℕ) (v n i t : ℕ)
    → i < nproc
    → n < nproc
    → t ≡ (i + n) % nproc
    → around (update a t v) i (suc n) ≡ around a i n ++ v ∷ []
around-update a v zero i t hi hn e =
    let e' : t ≡ i = omega arith in rw e' (ap (λ x. x ∷ []) (ground arith))
around-update a v (suc n) i t hi hn e =
    ap₂ ◌∷◌ (ground arith)
      (around-update a v n ((i + 1) % nproc) t (omega arith) (omega arith) (omega arith))

-- Inserting a process into a queue of fewer than NPROC processes puts it at the end, behind the
-- others in their order.
pub insert_fbqueue-IsQueue :
    (q : BlockQueue) (ps : List ℕ) (pid : ℕ)
    → IsQueue q ps
    → length ps < nproc
    → IsQueue (insert_fbqueue pid q) (ps ++ pid ∷ [])
unfolding insert_fbqueue
insert_fbqueue-IsQueue q _ pid (empty e) short =
    rw e (filled 0 (pid ∷ []) (omega arith) (omega arith) (omega arith) refl)
insert_fbqueue-IsQueue q _ pid (filled n ps hi hn tail e) short =
    let len : length ps ≡ suc n = ap length e ∙ length-around q.fbqueue q.fbqhead (suc n) in
    let used : (q.fbqhead == syserr32) ≡ false = ground arith in
    let next : (q.fbqtail + 1) % 2 ^ 32 % nproc ≡ (q.fbqhead + suc n) % nproc = omega arith in
    rw used (
      filled (suc n) (ps ++ pid ∷ []) hi (omega arith) next (
        ap (λ l. l ++ pid ∷ []) e
        ∙ sym (around-update q.fbqueue pid (suc n) q.fbqhead _ hi (omega arith) next)))

-- On a queue of no process the removal reports an error and changes nothing.
pub dequeue_fbqueue-nil : (q : BlockQueue) → IsQueue q [] → dequeue_fbqueue q ≡ (none, q)
unfolding dequeue_fbqueue
dequeue_fbqueue-nil q (empty e) = rw e
dequeue_fbqueue-nil q (filled n ps hi hn tail e) = absurd (cc)

dequeue-filled :
    (q : BlockQueue) (p : ℕ) (ps : List ℕ) (n : ℕ)
    → q.fbqhead < nproc
    → n < nproc
    → q.fbqtail ≡ (q.fbqhead + n) % nproc
    → p ∷ ps ≡ around q.fbqueue q.fbqhead (suc n)
    → ((dequeue_fbqueue q).0 ≡ some p) × IsQueue (dequeue_fbqueue q).1 ps
unfolding dequeue_fbqueue
dequeue-filled q p ps zero hi hn tail e =
    let used : (q.fbqhead == syserr32) ≡ false = ground arith in
    let last : (q.fbqhead == q.fbqtail) ≡ true = ground arith in
    let parts = cons-injective p (q.fbqueue q.fbqhead) ps [] e in
    rw (used, last) (ap some (sym parts.0), rw parts.1 (empty refl))
dequeue-filled q p ps (suc n) hi hn tail e =
    let used : (q.fbqhead == syserr32) ≡ false = ground arith in
    let more : (q.fbqhead == q.fbqtail) ≡ false = ground arith in
    let parts = cons-injective p (q.fbqueue q.fbqhead) ps _ e in
    let next : (q.fbqhead + 1) % 2 ^ 32 % nproc ≡ (q.fbqhead + 1) % nproc = omega arith in
    rw (used, more)
      (
        ap some (sym parts.0),
        filled n ps (omega arith) (omega arith) (omega arith)
            (parts.1 ∙ ap (λ i. around q.fbqueue i (suc n)) (sym next)),
      )

-- On a queue with a process at the front the removal returns that process and leaves the queue of
-- the others, in their order.
pub dequeue_fbqueue-cons :
    (q : BlockQueue) (p : ℕ) (ps : List ℕ)
    → IsQueue q (p ∷ ps)
    → ((dequeue_fbqueue q).0 ≡ some p) × IsQueue (dequeue_fbqueue q).1 ps
dequeue_fbqueue-cons q p ps (filled n _ hi hn tail e) = dequeue-filled q p ps n hi hn tail e
