-- ===== src/VirtualHeap/Found.antt =====
-- How the search of `vmhgetmem` finds a block, and the case of an exact match.
use virtual_memory_xinu_f.Base.{
  ℕ, zero, suc, ◌+◌, ◌*◌, ◌%◌, ◌^◌, ◌≤◌, ◌<◌, ◌≡◌, ◌≢◌, refl, ap, ◌∙◌, Bool, true, Option, none,
  some, ltb, leb, ◌&&◌, if◌then◌else◌, List, [], ◌∷◌, arith, update, for_range, update_self,
  update-ne,
}
use virtual_memory_xinu_f.Frames.{nbpg}
use virtual_memory_xinu_f.Memory.{page_number}
use virtual_memory_xinu_f.Kernel.{Memblk, Proc}
use virtual_memory_xinu_f.VirtualHeap.{
  word, sub32, set_next, shrink, set_pages_allocated, take_exact,
}
use virtual_memory_xinu_f.VirtualHeap.Free.{maxvheap, Block, IsBlock, Free, Free-frame, total-Free}

-- The field that links the successor of `prev`.
abbrev pub next_of : Option ℕ → Proc → Option ℕ
next_of none p = p.prmemblk.mnext
next_of (some q) p = (p.heap q).mnext

pub heap-set_next :
    (prev x : Option ℕ) (p : Proc) (a : ℕ) → prev ≢ some a → (set_next prev x p).heap a ≡ p.heap a
heap-set_next none x p a ne = refl
heap-set_next (some q) x p a ne = update-ne p.heap q a _ (λ e. ne (ap some e))

next_of-set_next : (prev x : Option ℕ) (p : Proc) → next_of prev (set_next prev x p) ≡ x
next_of-set_next none x p = refl
next_of-set_next (some q) x p = ap (λ (m : Memblk). m.mnext) (update_self p.heap q _)

len-set_next :
    (prev x : Option ℕ) (p : Proc) (a : ℕ)
    → ((set_next prev x p).heap a).mlength ≡ (p.heap a).mlength
len-set_next none x p a = refl
len-set_next (some q) x p a = ground arith

pub Free-weaken :
    (p : Proc) (lo lo' : ℕ) (c : Option ℕ) (bs : List Block)
    → lo' ≤ lo
    → Free p lo c bs
    → Free p lo' c bs
Free-weaken p lo lo' c [] h f = (f.0, omega (arith, f.1))
Free-weaken p lo lo' c ((a, n) ∷ bs) h f =
    let b = f.1 in
    (
      f.0,
      record {
        behind = omega (arith, b.behind);
        aligned = b.aligned;
        pages = b.pages;
        nonempty = b.nonempty;
        len = b.len;
        marked = b.marked;
      },
      f.2,
    )

size-set_next :
    (prev x : Option ℕ) (p : Proc) → (set_next prev x p).prmemblk.mlength ≡ p.prmemblk.mlength
size-set_next none x p = refl
size-set_next (some q) x p = refl

pub pralloc-set_next : (prev x : Option ℕ) (p : Proc) → (set_next prev x p).pralloc ≡ p.pralloc
pralloc-set_next none x p = refl
pralloc-set_next (some q) x p = refl

pub started-set_next : (prev x : Option ℕ) (p : Proc) → (set_next prev x p).prmeminit ≡ p.prmeminit
started-set_next none x p = refl
started-set_next (some q) x p = refl

-- The pages from an address on are marked.
page_of_step :
    (a i : ℕ)
    → a % 4096 ≡ 0
    → a + i * 4096 < 2 ^ 32
    → page_number (word (a + i * nbpg)) ≡ page_number a + i
page_of_step a i al h = omega arith

marks_pages :
    (a n i : ℕ) (t : ℕ → Bool) (q : ℕ)
    → a % 4096 ≡ 0
    → a + (i + n) * 4096 < 2 ^ 32
    → for_range n i (λ j u. update u (page_number (word (a + j * nbpg))) true) t q
      ≡ (if leb (page_number a + i) q && ltb q (page_number a + i + n) then true else t q)
unfolding for_range
marks_pages a zero i t q al h = ground arith
marks_pages a (suc n) i t q al h =
    marks_pages a n (i + 1) (update t (page_number (word (a + i * nbpg))) true) q al (omega arith)
    ∙ rw (page_of_step a i al (omega arith)) (ground arith)

pub record Marked (msize a : ℕ) (p p' : Proc) : Type 0 where
  pub marks : (q : ℕ) → p.pralloc q ≡ true → p'.pralloc q ≡ true
  pub given : (i : ℕ) → i < msize → p'.pralloc (page_number a + i) ≡ true

set_pages_allocated-Marked :
    (msize a : ℕ) (p : Proc)
    → a % 4096 ≡ 0
    → a + msize * 4096 < 2 ^ 32
    → Marked msize a p (set_pages_allocated msize a p)
unfolding set_pages_allocated
set_pages_allocated-Marked msize a p al h = record {
  marks = λ q m. rw (marks_pages a msize 0 p.pralloc q al (omega arith)) (ground arith);
  given = λ i le.
      rw (marks_pages a msize 0 p.pralloc (page_number a + i) al (omega arith)) (ground arith);
}

-- The search from `prev` on has found the block `a` and left the blocks `bs` of the heap from `lo`
-- on.
pub record Got (msize : ℕ) (prev : Option ℕ) (p : Proc) (lo a : ℕ) (bs : List Block) (p' : Proc)
    : Type 0 where
  pub link : Free p' lo (next_of prev p') bs
  pub below : (q : ℕ) → q < lo → prev ≢ some q → p'.heap q ≡ p.heap q
  pub lengths : (q : ℕ) → prev ≡ some q → (p'.heap q).mlength ≡ (p.heap q).mlength
  pub header : (q : ℕ) → prev ≡ some q → p'.prmemblk.mnext ≡ p.prmemblk.mnext
  pub size : p'.prmemblk.mlength ≡ sub32 p.prmemblk.mlength (msize * 4096)
  pub marked : Marked msize a p p'
  pub started : p'.prmeminit ≡ p.prmeminit

module _ (msize : ℕ) (prev : Option ℕ) (p : Proc) (lo c l : ℕ) (bs : List Block)
    (few : msize < 2 ^ 16) (before : (q : ℕ) → prev ≡ some q → q < lo) (b : IsBlock p lo c l)
    (rest : Free p (c + l) (p.heap c).mnext bs) where
  pub low : c + l ≤ maxvheap
  low = omega (arith, total-Free p (c + l) (p.heap c).mnext bs rest)

  pub not_prev : (q : ℕ) → lo ≤ q → prev ≢ some q
  not_prev q h e = omega (arith, before q e)

  pub nbytes_eq : word (msize * nbpg) ≡ msize * 4096
  nbytes_eq = omega arith

  -- What both ways have in common; `u` is the state in which the links and the lengths are set.
  module _ (x : Option ℕ) (bs' : List Block) (u : Proc)
      (memblk_is : u.prmemblk ≡ (set_next prev x p).prmemblk)
      (low_same : (q : ℕ) → q < lo → u.heap q ≡ (set_next prev x p).heap q)
      (keeps : (q : ℕ) → p.pralloc q ≡ true → u.pralloc q ≡ true)
      (started_same : u.prmeminit ≡ p.prmeminit) (free : Free u lo x bs')
      (enough : msize * 4096 ≤ l) where
    unfoldable pub got : Proc
    got = set_pages_allocated msize c (shrink (msize * 4096) u)

    got-Marked : Marked msize c (shrink (msize * 4096) u) got
    unfolding got
    got-Marked =
        set_pages_allocated-Marked msize c (shrink (msize * 4096) u) b.aligned (omega (arith, low))

    next_of-linked : (pr : Option ℕ) → prev ≡ pr → next_of pr u ≡ x
    next_of-linked none e =
        ap (λ (m : Memblk). m.mnext) (memblk_is ∙ ap (λ r. (set_next r x p).prmemblk) e)
    next_of-linked (some q) e =
        ap (λ (m : Memblk). m.mnext)
          (low_same q (before q e) ∙ ap (λ r. (set_next r x p).heap q) e ∙ update_self p.heap q _)

    next_of-got : (pr : Option ℕ) → next_of pr got ≡ next_of pr u
    unfolding got set_pages_allocated
    next_of-got none = refl
    next_of-got (some q) = refl

    pub got-Got : Got msize prev p lo c bs' got
    unfolding got set_pages_allocated
    got-Got = record {
      link =
          rw (next_of-got prev ∙ next_of-linked prev refl)
            (Free-frame u got lo x bs' (λ a h. refl) got-Marked.marks free);
      below = λ q h ne. low_same q h ∙ heap-set_next prev x p q ne;
      lengths =
          λ q e. ap (λ (m : Memblk). m.mlength) (low_same q (before q e)) ∙ len-set_next prev x p q;
      header =
          λ q e. ap (λ (m : Memblk). m.mnext) (memblk_is ∙ ap (λ r. (set_next r x p).prmemblk) e);
      size =
          ap (λ (m : Memblk). sub32 m.mlength (msize * 4096)) memblk_is
          ∙ ap (λ n. sub32 n (msize * 4096)) (size-set_next prev x p);
      marked = record { marks = λ q m. got-Marked.marks q (keeps q m); given = got-Marked.given };
      started = started_same;
    }

  pub exact-Got : l ≡ msize * 4096 → Got msize prev p lo c bs (take_exact msize prev c p)
  unfolding take_exact got
  exact-Got e =
      let x = (p.heap c).mnext in
      rw nbytes_eq (
        got-Got x bs (set_next prev x p) refl (λ q h. refl)
          (λ q m. ap (λ t. t q) (pralloc-set_next prev x p) ∙ m) (started-set_next prev x p)
          (Free-weaken (set_next prev x p) (c + l) lo x bs (omega (arith, b.behind)) (
            Free-frame p (set_next prev x p) (c + l) x bs
              (λ a h. heap-set_next prev x p a (not_prev a (omega (arith, b.behind))))
              (λ q m. ap (λ t. t q) (pralloc-set_next prev x p) ∙ m) rest))
          (omega arith))
