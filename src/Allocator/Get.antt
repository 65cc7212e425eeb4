-- ===== src/Allocator/Get.antt =====
-- `getmem` is a first fit on the free blocks.
use virtual_memory_xinu_f.Base.{
  ℕ, zero, suc, ◌+◌, ◌-◌, ◌%◌, ◌^◌, ◌≤◌, ◌<◌, ◌≡◌, refl, ap, ◌∙◌, false, Option, none, some, List,
  [], ◌∷◌, ◌++◌, append_nil, arith, ltb, ◌==◌, ◌⊎◌, inl, inr, Bool-cases,
}
use virtual_memory_xinu_f.VirtualHeap.{word}
use virtual_memory_xinu_f.VirtualHeap.Free.{Block, count}
use virtual_memory_xinu_f.System.{MemList}
use virtual_memory_xinu_f.Allocator.{
  getmem, first_fit, split, shrink, set_next, max_blocks, roundmb,
}
use virtual_memory_xinu_f.Allocator.Blocks.{Separated-count}
use virtual_memory_xinu_f.Allocator.FreeList.{
  Chain, IsFreeList, Located, at_header, Located-advance, append_middle,
}
use virtual_memory_xinu_f.Allocator.Links.{minheap-set_next, maxheap-set_next}
use virtual_memory_xinu_f.Allocator.Taken.{Short, TakesOut, SameBounds}
use virtual_memory_xinu_f.Allocator.Found.{exact, split-taken}

-- The block at `a`, of `l` bytes, is the first that has `n`.
pub record IsFirst (n a : ℕ) (bs : List Block) : Type 0 where
  pub front : List Block
  pub back : List Block
  pub length : ℕ
  pub whole : bs ≡ front ++ (a, length) ∷ back
  pub short : Short n front
  pub enough : n ≤ length

abbrev Searched : MemList → List Block → ℕ → Option (Option ℕ × MemList) → Type 0
Searched h bs n r =
    ((r ≡ some (none, h)) × Short n bs)
    ⊎ ((a : ℕ) × (h' : MemList) × (bs' : List Block) × (r ≡ some (some a, h'))
        × IsFreeList h' bs'
        × SameBounds h h'
        × TakesOut a n bs bs'
        × IsFirst n a bs)

pub Short-append : (n a l : ℕ) (xs : List Block) → Short n xs → l < n → Short n (xs ++ (a, l) ∷ [])
Short-append n a l [] s h = (h, tt)
Short-append n a l (x ∷ xs) s h = (s.0, Short-append n a l xs s.1 h)

module _ (n : ℕ) (pos : 0 < n) (al : n % 8 ≡ 0) (h : MemList) (bs : List Block)
    (v : IsFreeList h bs) where
  first_fit-Searched :
      (fuel : ℕ) (prev curr : Option ℕ) (front ys : List Block)
      → Located ys bs prev
      → Chain h curr ys
      → bs ≡ front ++ ys
      → Short n front
      → count ys < fuel
      → Searched h bs n (first_fit fuel n prev curr h)
  unfolding first_fit
  first_fit-Searched zero prev curr front ys w f e s enough = absurd (omega arith)
  first_fit-Searched (suc fuel) prev curr front [] w f e s enough =
      rw f (inl (refl, rw (e ∙ append_nil front) s))
  first_fit-Searched (suc fuel) prev curr front ((a, l) ∷ ys) w f e s enough =
      let test_eq : ((h.blocks a).mlength == n) ≡ (l == n) = ap (λ m. m == n) f.1 in
      let test_lt : ltb n (h.blocks a).mlength ≡ ltb n l = ap (λ m. ltb n m) f.1 in
      elim (Bool-cases (l == n)) [
        | inl fits ↦
            let same : l ≡ n = ground arith in
            let (bs', v', t) = exact h bs ys a l n prev v w same in
            rw (f.0, test_eq, fits)
              (inr (
                a,
                shrink n (set_next prev (h.blocks a).mnext h),
                bs',
                refl,
                v',
                (
                  minheap-set_next prev (h.blocks a).mnext h,
                  maxheap-set_next prev (h.blocks a).mnext h,
                ),
                t,
                record {
                  front = front;
                  back = ys;
                  length = l;
                  whole = e;
                  short = s;
                  enough = omega arith;
                },
              ))
        | inr differs ↦ elim (Bool-cases (ltb n l)) [
          | inl more ↦
              let (bs', v', t) = split-taken h bs ys a l n prev v w pos al (ground arith) in
              rw (f.0, test_eq, test_lt, differs, more)
                (inr (
                  a,
                  split n prev a h,
                  bs',
                  refl,
                  v',
                  (
                    minheap-set_next prev (some (word (a + n))) h,
                    maxheap-set_next prev (some (word (a + n))) h,
                  ),
                  t,
                  record {
                    front = front;
                    back = ys;
                    length = l;
                    whole = e;
                    short = s;
                    enough = ground arith;
                  },
                ))
          | inr less ↦
              rw (f.0, test_eq, test_lt, differs, less)
                (first_fit-Searched fuel (some a) (h.blocks a).mnext (front ++ (a, l) ∷ []) ys
                  (Located-advance a l ys bs prev w) f.2 (e ∙ append_middle front (a, l) ys)
                  (Short-append n a l front s (ground arith)) (omega arith))
        ]
      ]

-- On a heap with the free blocks `bs`, `getmem` of 1 to 2^32 - 8 bytes always returns. Either no block
-- has the bytes asked for, rounded up to a multiple of 8, and it reports an error and changes nothing;
-- or it returns the address of the first block that has: all bytes given out were free, exactly the
-- others stay free, and the heap stays well-formed, with blocks that do not touch, where it was.
pub getmem-IsFreeList :
    (h : MemList) (bs : List Block) (nbytes : ℕ)
    → IsFreeList h bs
    → 0 < nbytes
    → nbytes ≤ 2 ^ 32 - 8
    → ((getmem nbytes h ≡ some (none, h)) × Short (roundmb nbytes) bs)
      ⊎ ((a : ℕ) × (h' : MemList) × (bs' : List Block) × (getmem nbytes h ≡ some (some a, h'))
          × IsFreeList h' bs'
          × SameBounds h h'
          × TakesOut a (roundmb nbytes) bs bs'
          × IsFirst (roundmb nbytes) a bs)
unfolding getmem
getmem-IsFreeList h bs nbytes v pos few =
    let asked : (nbytes == 0) ≡ false = ground arith in
    let few_blocks = Separated-count (h.minheap - 1) h.maxheap bs v.apart in
    rw asked (
      first_fit-Searched (roundmb nbytes) (omega arith) (omega arith) h bs v (max_blocks + 1) none
        h.memlist.mnext [] bs (at_header refl) v.chain refl tt (omega (arith, few_blocks, v.high)))
