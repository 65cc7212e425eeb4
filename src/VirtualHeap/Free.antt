-- ===== src/VirtualHeap/Free.antt =====
-- The free list of a virtual heap as a list of blocks.
use virtual_memory_xinu_f.Base.{
  ℕ, suc, ◌+◌, ◌-◌, ◌*◌, ◌%◌, ◌≤◌, ◌<◌, ◌≡◌, refl, ap, ◌∙◌, true, Option, none, some, ltb, ◌==◌,
  if◌then◌else◌, List, [], ◌∷◌, arith, Bool-cases, inl, inr,
}
use virtual_memory_xinu_f.Memory.{page_number}
use virtual_memory_xinu_f.Kernel.{Memblk, Proc}
use virtual_memory_xinu_f.VirtualHeap.{minvheap}

-- MAXVHEAP.
abbrev pub maxvheap : ℕ
maxvheap = 20971520

-- A block of free memory: its address and its length, in bytes.
abbrev pub Block : Type 0
Block = ℕ × ℕ

-- A block of whole pages that lies at or behind `lo`, whose header stands in it, on a page that
-- may be accessed.
pub record IsBlock (p : Proc) (lo a n : ℕ) : Type 0 where
  pub behind : lo ≤ a
  pub aligned : a % 4096 ≡ 0
  pub pages : n % 4096 ≡ 0
  pub nonempty : 0 < n
  pub len : (p.heap a).mlength ≡ n
  pub marked : p.pralloc (page_number a) ≡ true

-- The free list from the block `c` on, in the order of the addresses, in the heap from `lo` on.
abbrev pub Free : Proc → ℕ → Option ℕ → List Block → Type 0
Free p lo c [] = (c ≡ none) × (lo ≤ maxvheap)
Free p lo c ((a, n) ∷ bs) = (c ≡ some a) × IsBlock p lo a n × Free p (a + n) (p.heap a).mnext bs

abbrev pub count : List Block → ℕ
count [] = 0
count (b ∷ bs) = suc (count bs)

abbrev pub total : List Block → ℕ
total [] = 0
total ((a, n) ∷ bs) = n + total bs

-- The free blocks of a process's virtual heap.
pub record IsHeap (p : Proc) (bs : List Block) : Type 0 where
  pub started : p.prmeminit ≡ true
  pub free : Free p minvheap p.prmemblk.mnext bs
  pub size : p.prmemblk.mlength ≡ total bs

-- A first fit: the address of the first block with enough bytes, and the blocks that are left.
abbrev pub keep_block : Block → Option (ℕ × List Block) → Option (ℕ × List Block)
keep_block b none = none
keep_block b (some (a, bs)) = some (a, b ∷ bs)

abbrev pub first_fit : ℕ → List Block → Option (ℕ × List Block)
first_fit n [] = none
first_fit n ((a, l) ∷ bs) =
    if l == n
    then some (a, bs)
    else if ltb n l
    then some (a, (a + n, l - n) ∷ bs)
    else keep_block (a, l) (first_fit n bs)

pub count-Free :
    (p : Proc) (lo : ℕ) (c : Option ℕ) (bs : List Block)
    → Free p lo c bs
    → lo + 4096 * count bs ≤ maxvheap
count-Free p lo c [] f = omega (arith, f.1)
count-Free p lo c ((a, n) ∷ bs) f =
    let b = f.1 in
    omega (arith, count-Free p (a + n) (p.heap a).mnext bs f.2, b.behind, b.pages, b.nonempty)

pub total-Free :
    (p : Proc) (lo : ℕ) (c : Option ℕ) (bs : List Block) → Free p lo c bs → lo + total bs ≤ maxvheap
total-Free p lo c [] f = omega (arith, f.1)
total-Free p lo c ((a, n) ∷ bs) f =
    omega (arith, total-Free p (a + n) (p.heap a).mnext bs f.2, f.1.behind)

-- A free list is as it was when the heap from `lo` on is, and no page is lost.
pub Free-frame :
    (p u : Proc) (lo : ℕ) (c : Option ℕ) (bs : List Block)
    → ((a : ℕ) → lo ≤ a → u.heap a ≡ p.heap a)
    → ((q : ℕ) → p.pralloc q ≡ true → u.pralloc q ≡ true)
    → Free p lo c bs
    → Free u lo c bs
Free-frame p u lo c [] same marks f = f
Free-frame p u lo c ((a, n) ∷ bs) same marks f =
    let b = f.1 in
    let e = same a b.behind in
    (
      f.0,
      record {
        behind = b.behind;
        aligned = b.aligned;
        pages = b.pages;
        nonempty = b.nonempty;
        len = ap (λ (m : Memblk). m.mlength) e ∙ b.len;
        marked = marks (page_number a) b.marked;
      },
      Free-frame p u (a + n) (u.heap a).mnext bs (λ q h. same q (omega (arith, b.behind))) marks
          (rw e f.2),
    )

pub found_eq :
    (a a' : ℕ) (xs ys : List Block)
    → ◌≡◌ {A = Option (ℕ × List Block)} (some (a, xs)) (some (a', ys))
    → xs ≡ ys
found_eq a a' xs ys e = cc

pub found_at :
    (a a' : ℕ) (xs ys : List Block)
    → ◌≡◌ {A = Option (ℕ × List Block)} (some (a, xs)) (some (a', ys))
    → a ≡ a'
found_at a a' xs ys e = cc

total-keep_block :
    (n a : ℕ) (b : Block) (bs' rest : List Block) (r : Option (ℕ × List Block))
    → ((a' : ℕ) (rest' : List Block) → r ≡ some (a', rest') → total rest ≡ total rest' + n)
    → keep_block b r ≡ some (a, bs')
    → total (b ∷ rest) ≡ total bs' + n
total-keep_block n a b bs' rest none ih e = absurd (cc)
total-keep_block n a b bs' rest (some (a', rest')) ih e =
    let same = found_eq a' a (b ∷ rest') bs' e in
    ap (λ m. b.1 + m) (ih a' rest' refl) ∙ rw (← same) (omega arith)

pub total-first_fit :
    (n a : ℕ) (bs bs' : List Block) → first_fit n bs ≡ some (a, bs') → total bs ≡ total bs' + n
total-first_fit n a [] bs' e = absurd (cc)
total-first_fit n a ((c, l) ∷ bs) bs' e = elim (Bool-cases (l == n)) [
  | inl fits ↦ let same = found_eq c a bs bs' (rw fits at e) in rw (← same) (ground arith)
  | inr differs ↦ elim (Bool-cases (ltb n l)) [
    | inl more ↦
        let same = found_eq c a ((c + n, l - n) ∷ bs) bs' (rw (differs, more) at e) in
        rw (← same) (ground arith)
    | inr less ↦
        total-keep_block n a (c, l) bs' bs (first_fit n bs)
          (λ a' rest' e'. total-first_fit n a' bs rest' e') (rw (differs, less) at e)
  ]
]
