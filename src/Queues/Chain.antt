-- ===== src/Queues/Chain.antt =====
-- A queue of the table as a list of processes, and the writes of `enqueue` and `dequeue`.
use virtual_memory_xinu_f.Base.{
  ℕ, ◌+◌, ◌≤◌, ◌<◌, ◌≡◌, ◌≢◌, refl, ap, ◌∙◌, Bool, true, false, none, some, ltb, ◌&&◌, ◌==◌, List,
  [], ◌∷◌, ◌++◌, ◌⊎◌, inl, inr, arith,
}
use virtual_memory_xinu_f.Base.Distinct.{mem, Distinct}
use virtual_memory_xinu_f.Kernel.{nproc}
use virtual_memory_xinu_f.Queues.{Qentry, is_bad_qid, set_qnext, set_qprev}

-- The entries `xs` stand between `p` and `n`, linked both ways.
abbrev pub Chain : (ℕ → Qentry) → ℕ → List ℕ → ℕ → Type 0
Chain t p [] n = ((t p).qnext ≡ some n) × ((t n).qprev ≡ some p)
Chain t p (x ∷ xs) n = ((t p).qnext ≡ some x) × ((t x).qprev ≡ some p) × Chain t x xs n

abbrev pub all_processes : List ℕ → Bool
all_processes [] = true
all_processes (x ∷ xs) = ltb x nproc && all_processes xs

-- The queue `q` holds the processes `xs`.
pub record IsQueue (t : ℕ → Qentry) (q : ℕ) (xs : List ℕ) : Type 0 where
  pub in_table : is_bad_qid q ≡ false
  pub behind : nproc ≤ q
  pub processes : all_processes xs ≡ true
  pub distinct : Distinct xs
  pub chain : Chain t q xs (q + 1)

abbrev pub last_of : ℕ → List ℕ → ℕ
last_of p [] = p
last_of p (x ∷ xs) = last_of x xs

pub qprev-Chain :
    (t : ℕ → Qentry) (p : ℕ) (xs : List ℕ) (n : ℕ)
    → Chain t p xs n
    → (t n).qprev ≡ some (last_of p xs)
qprev-Chain t p [] n c = c.1
qprev-Chain t p (x ∷ xs) n c = qprev-Chain t x xs n c.2

pub last_of-mem : (x : ℕ) (xs : List ℕ) → mem (last_of x xs) (x ∷ xs) ≡ true
last_of-mem x [] = ground arith
last_of-mem x (y ∷ xs) = ground (arith, last_of-mem y xs)

-- The table after the writes of `enqueue`.
abbrev pub inserted : ℕ → ℕ → ℕ → (ℕ → Qentry) → ℕ → Qentry
inserted pid prev tail t = set_qprev (some tail) (some pid) (
    set_qnext (some prev) (some pid)
      (set_qprev (some pid) (some prev) (set_qnext (some pid) (some tail) t)))

pub Chain-inserted :
    (t : ℕ → Qentry) (pid p : ℕ) (xs : List ℕ) (n : ℕ)
    → mem p xs ≡ false
    → Distinct xs
    → mem n xs ≡ false
    → p ≢ n
    → pid ≢ p
    → pid ≢ n
    → mem pid xs ≡ false
    → Chain t p xs n
    → Chain (inserted pid (last_of p xs) n t) p (xs ++ pid ∷ []) n
Chain-inserted t pid p [] n out d tail_out pn ne ne' new c =
    (ground arith, ground arith, (ground arith, ground arith))
Chain-inserted t pid p (x ∷ xs) n out d tail_out pn ne ne' new c =
    let last = last_of-mem x xs in
    let apart : p ≢ last_of x xs = λ e. absurd (cc (out, last, ap (λ a. mem a (x ∷ xs)) e)) in
    (
      ground (arith, c.0),
      ground (arith, c.1),
      Chain-inserted t pid x xs n d.0 d.1 (ground arith) (ground arith) (ground arith) ne'
          (ground arith) c.2,
    )

pub not_process : (a : ℕ) (xs : List ℕ) → nproc ≤ a → all_processes xs ≡ true → mem a xs ≡ false
not_process a [] h ok = refl
not_process a (x ∷ xs) h ok = ground (arith, not_process a xs h (ground arith))

-- Entries that are not in a chain have no part in it.
pub Chain-frame :
    (t u : ℕ → Qentry) (p : ℕ) (xs : List ℕ) (n : ℕ)
    → (u p).qnext ≡ (t p).qnext
    → ((a : ℕ) → mem a xs ≡ true → u a ≡ t a)
    → (u n).qprev ≡ (t n).qprev
    → Chain t p xs n
    → Chain u p xs n
Chain-frame t u p [] n first same last c = (first ∙ c.0, last ∙ c.1)
Chain-frame t u p (x ∷ xs) n first same last c =
    let here = same x (ground arith) in
    (
      first ∙ c.0,
      ap (λ (e : Qentry). e.qprev) here ∙ c.1,
      Chain-frame t u x xs n (ap (λ (e : Qentry). e.qnext) here) (λ a m. same a (ground arith)) last
          c.2,
    )

-- The table after `dequeue` of `x`, the first process of the queue `q`, with `nx` behind it.
abbrev pub removed : ℕ → ℕ → ℕ → (ℕ → Qentry) → ℕ → Qentry
removed x q nx t =
    set_qnext (some x) none
      (set_qprev (some x) none (set_qprev (some nx) (some q) (set_qnext (some q) (some nx) t)))

abbrev pub head_of : List ℕ → ℕ → ℕ
head_of [] n = n
head_of (y ∷ ys) n = y

pub qnext-Chain :
    (t : ℕ → Qentry) (x : ℕ) (xs : List ℕ) (n : ℕ)
    → Chain t x xs n
    → (t x).qnext ≡ some (head_of xs n)
qnext-Chain t x [] n c = c.0
qnext-Chain t x (y ∷ ys) n c = c.0

pub Chain-removed :
    (t : ℕ → Qentry) (q x : ℕ) (xs : List ℕ)
    → nproc ≤ q
    → all_processes (x ∷ xs) ≡ true
    → Distinct (x ∷ xs)
    → Chain t q (x ∷ xs) (q + 1)
    → Chain (removed x q (head_of xs (q + 1)) t) q xs (q + 1)
Chain-removed t q x [] h ok d c = (ground arith, ground arith)
Chain-removed t q x (y ∷ ys) h ok d c = (
  ground arith,
  ground arith,
  Chain-frame t (removed x q y t) y ys (q + 1) (ground arith)
      (λ a m.
        let a_process : (a == q) ≡ false = ground (arith, not_process q ys h (ground arith)) in
        ground arith)
      (ground arith) c.2.2,
)

pub process_small : (a : ℕ) (xs : List ℕ) → mem a xs ≡ true → all_processes xs ≡ true → a < nproc
process_small a [] m ok = absurd (cc)
process_small a (x ∷ xs) m ok = ground (arith, process_small a xs)

pub last_of-cases : (p : ℕ) (xs : List ℕ) → (last_of p xs ≡ p) ⊎ (mem (last_of p xs) xs ≡ true)
last_of-cases p [] = inl refl
last_of-cases p (x ∷ xs) = elim (last_of-cases x xs) [
  | inl e ↦ inr (ground arith)
  | inr m ↦ inr (ground arith)
]

pub head_of-cases : (xs : List ℕ) (n : ℕ) → (head_of xs n ≡ n) ⊎ (mem (head_of xs n) xs ≡ true)
head_of-cases [] n = inl refl
head_of-cases (x ∷ xs) n = inr (ground arith)

-- No entry changes but those of the queue `q` and the processes `xs`.
abbrev pub Untouched : (ℕ → Qentry) → (ℕ → Qentry) → ℕ → List ℕ → Type 0
Untouched t u q xs = (a : ℕ) → q ≢ a → q + 1 ≢ a → mem a xs ≡ false → u a ≡ t a

pub last_of-ne : (p a : ℕ) (xs : List ℕ) → p ≢ a → mem a xs ≡ false → last_of p xs ≢ a
last_of-ne p a xs ne out e = elim (last_of-cases p xs) [
  | inl same ↦ ne (cc)
  | inr m ↦ absurd (cc (out, ap (λ b. mem b xs) e))
]

pub head_of-ne : (xs : List ℕ) (n a : ℕ) → n ≢ a → mem a xs ≡ false → head_of xs n ≢ a
head_of-ne xs n a ne out e = elim (head_of-cases xs n) [
  | inl same ↦ ne (cc)
  | inr m ↦ absurd (cc (out, ap (λ b. mem b xs) e))
]
