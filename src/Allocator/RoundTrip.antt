-- ===== src/Allocator/RoundTrip.antt =====
-- Memory that is given back leaves the heap as it was.
use virtual_memory_xinu_f.Base.{
  ℕ, ◌+◌, ◌-◌, ◌%◌, ◌^◌, ◌≤◌, ◌<◌, ◌≡◌, sym, ◌∙◌, Option, none, some, List, arith, ok, inl, inr,
  subst,
}
use virtual_memory_xinu_f.VirtualHeap.Free.{Block}
use virtual_memory_xinu_f.VirtualHeap.Covers.{covers}
use virtual_memory_xinu_f.System.{MemList}
use virtual_memory_xinu_f.Allocator.{getmem, freemem, roundmb}
use virtual_memory_xinu_f.Allocator.Blocks.{
  Separated-ends, Separated-tail, Separated-middle, covers-injective,
}
use virtual_memory_xinu_f.Allocator.FreeList.{IsFreeList}
use virtual_memory_xinu_f.Allocator.Taken.{TakesOut, SameBounds, Separated-bounds}
use virtual_memory_xinu_f.Allocator.Get.{getmem-IsFreeList, IsFirst}
use virtual_memory_xinu_f.Allocator.Freed.{PutsBack}
use virtual_memory_xinu_f.Allocator.Release.{freemem-IsFreeList}

pub taken_same :
    (a b : ℕ) (h h' : MemList)
    → ◌≡◌ {A = Option (Option ℕ × MemList)} (some (some a, h)) (some (some b, h'))
    → (a ≡ b) × (h ≡ h')
taken_same a b h h' e = (cc, cc)

pub not_taken :
    (a : ℕ) (h h' : MemList)
    → ◌≡◌ {A = Option (Option ℕ × MemList)} (some (some a, h)) (some (none, h'))
    → ⊥
not_taken a h h' e = cc

-- The first block that is big enough lies in the heap.
first_place :
    (h : MemList) (bs : List Block) (n a : ℕ)
    → IsFreeList h bs
    → IsFirst n a bs
    → (a % 8 ≡ 0) × (h.minheap ≤ a) × (a + n ≤ h.maxheap)
first_place h bs n a v f =
    let lo = h.minheap - 1 in
    let s = rw f.whole at (v.apart) in
    let t = Separated-tail lo h.maxheap f.front a f.length f.back s in
    let bound = Separated-ends (a + f.length) h.maxheap f.back t.3 in
    (
      t.1,
      omega (arith, Separated-middle lo h.maxheap f.front a f.length f.back s),
      omega (arith, f.enough),
    )

-- The bytes that are taken out and put back are those that were free.
same_bytes :
    (a n : ℕ) (bs bs1 bs2 : List Block)
    → TakesOut a n bs bs1
    → PutsBack a n bs1 bs2
    → (x : ℕ) → covers x bs2 ≡ covers x bs
same_bytes a n bs bs1 bs2 t p x = ground (arith, t x, p x)

-- What was taken out at `a` is given back.
pub gives_back :
    (h u : MemList) (bs bs1 : List Block) (nbytes a : ℕ)
    → IsFreeList h bs
    → 0 < nbytes
    → nbytes ≤ 2 ^ 32 - 8
    → IsFreeList u bs1
    → SameBounds h u
    → TakesOut a (roundmb nbytes) bs bs1
    → (a % 8 ≡ 0) × (h.minheap ≤ a) × (a + roundmb nbytes ≤ h.maxheap)
    → (h2 : MemList) × (freemem a nbytes u ≡ some (ok, h2)) × IsFreeList h2 bs
gives_back h u bs bs1 nbytes a v pos few v1 bounds t place =
    let n = roundmb nbytes in
    let (al, inside, ends) = place in
    elim (freemem-IsFreeList u bs1 a nbytes v1 pos few al (omega (arith, bounds.0))
      (omega (arith, bounds.1))) [
        | inl (e, x, c) ↦ absurd (ground (arith, t x, c))
        | inr (h2, bs2, e, v2, bounds2, p) ↦
            let s =
              Separated-bounds h.minheap h2.minheap h.maxheap h2.maxheap bs2
                (sym (bounds2.0 ∙ bounds.0)) (sym (bounds2.1 ∙ bounds.1)) v2.apart in
            let same =
              covers-injective (h.minheap - 1) h.maxheap bs2 bs s v.apart
                (same_bytes a n bs bs1 bs2 t p) in
            (h2, e, subst (IsFreeList h2) same v2)
      ]

-- On a heap with the free blocks `bs`, if `getmem` of 1 to 2^32 - 8 bytes returns the address `a`, then
-- `freemem` of `a` and as many bytes succeeds, and the heap has exactly the free blocks `bs` again.
pub freemem-getmem :
    (h h1 : MemList) (bs : List Block) (nbytes a : ℕ)
    → IsFreeList h bs
    → 0 < nbytes
    → nbytes ≤ 2 ^ 32 - 8
    → getmem nbytes h ≡ some (some a, h1)
    → (h2 : MemList) × (freemem a nbytes h1 ≡ some (ok, h2)) × IsFreeList h2 bs
freemem-getmem h h1 bs nbytes a v pos few r = elim (getmem-IsFreeList h bs nbytes v pos few) [
  | inl (e, none_fits) ↦ absurd (not_taken a h1 h (sym r ∙ e))
  | inr (b, u, bs1, e, v1, bounds, t, f) ↦
      let (at, same) = taken_same a b h1 u (sym r ∙ e) in
      rw (at, same)
        (gives_back h u bs bs1 nbytes b v pos few v1 bounds t
          (first_place h bs (roundmb nbytes) b v f))
]
