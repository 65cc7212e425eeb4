-- ===== src/Allocator/Links.antt =====
-- `prev->mnext = x` on the kernel's free list.
use virtual_memory_xinu_f.Base.{
  ℕ, ◌≤◌, ◌<◌, ◌≡◌, ◌≢◌, refl, ap, ◌∙◌, Option, none, some, arith, update_self,
}
use virtual_memory_xinu_f.Kernel.{Memblk}
use virtual_memory_xinu_f.System.{MemList}
use virtual_memory_xinu_f.Allocator.{set_next}
use virtual_memory_xinu_f.Allocator.FreeList.{Relinks, next_of, end_of, some_injective}

pub blocks-set_next :
    (prev x : Option ℕ) (h : MemList) (q : ℕ)
    → prev ≢ some q
    → (set_next prev x h).blocks q ≡ h.blocks q
blocks-set_next none x h q ne = refl
blocks-set_next (some a) x h q ne = let differs : a ≢ q = λ e. ne (ap some e) in ground arith

pub next_of-set_next : (prev x : Option ℕ) (h : MemList) → next_of prev (set_next prev x h) ≡ x
next_of-set_next none x h = refl
next_of-set_next (some a) x h = ap (λ (m : Memblk). m.mnext) (update_self h.blocks a _)

pub len-set_next :
    (prev x : Option ℕ) (h : MemList) (q : ℕ)
    → ((set_next prev x h).blocks q).mlength ≡ (h.blocks q).mlength
len-set_next none x h q = refl
len-set_next (some a) x h q = ground arith

pub header-set_next :
    (prev x : Option ℕ) (h : MemList) (q : ℕ)
    → prev ≡ some q
    → (set_next prev x h).memlist.mnext ≡ h.memlist.mnext
header-set_next none x h q e = absurd (cc)
header-set_next (some a) x h q e = refl

pub size-set_next :
    (prev x : Option ℕ) (h : MemList) → (set_next prev x h).memlist.mlength ≡ h.memlist.mlength
size-set_next none x h = refl
size-set_next (some a) x h = refl

pub minheap-set_next : (prev x : Option ℕ) (h : MemList) → (set_next prev x h).minheap ≡ h.minheap
minheap-set_next none x h = refl
minheap-set_next (some a) x h = refl

pub maxheap-set_next : (prev x : Option ℕ) (h : MemList) → (set_next prev x h).maxheap ≡ h.maxheap
maxheap-set_next none x h = refl
maxheap-set_next (some a) x h = refl

-- The block before ends in front of `e`.
pub before_end :
    (lo e : ℕ) (prev : Option ℕ) (h : MemList)
    → end_of lo prev h ≤ e
    → (q : ℕ) → prev ≡ some q
    → q ≤ e
before_end lo e none h l q d = absurd (cc)
before_end lo e (some a) h l q d = omega (arith, some_injective a q d)

-- A change of `prev->mnext`, and of blocks from `e` on.
pub set_next-Relinks :
    (h u : MemList) (e : ℕ) (prev x : Option ℕ)
    → ((q : ℕ) → prev ≡ some q → q < e)
    → ((q : ℕ) → q < e → u.blocks q ≡ (set_next prev x h).blocks q)
    → u.memlist.mnext ≡ (set_next prev x h).memlist.mnext
    → Relinks h u e prev
set_next-Relinks h u e prev x before front header = record {
  before = before;
  same = λ q l ne. front q l ∙ blocks-set_next prev x h q ne;
  lens = λ q d. ap (λ (m : Memblk). m.mlength) (front q (before q d)) ∙ len-set_next prev x h q;
  header = λ q d. header ∙ header-set_next prev x h q d;
}

pub next_of-front :
    (h u : MemList) (e : ℕ) (prev x : Option ℕ)
    → ((q : ℕ) → prev ≡ some q → q < e)
    → ((q : ℕ) → q < e → u.blocks q ≡ (set_next prev x h).blocks q)
    → u.memlist.mnext ≡ (set_next prev x h).memlist.mnext
    → next_of prev u ≡ x
next_of-front h u e none x before front header = header
next_of-front h u e (some a) x before front header =
    ap (λ (m : Memblk). m.mnext) (front a (before a refl)) ∙ next_of-set_next (some a) x h
