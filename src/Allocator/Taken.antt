-- ===== src/Allocator/Taken.antt =====
-- What a request takes out of the free list.
use virtual_memory_xinu_f.Base.{
  ℕ, ◌+◌, ◌-◌, ◌<◌, ◌≡◌, ap, ◌∙◌, false, not, ◌&&◌, Option, List, [], ◌∷◌, arith,
}
use virtual_memory_xinu_f.VirtualHeap.{sub32}
use virtual_memory_xinu_f.VirtualHeap.Free.{Block, total}
use virtual_memory_xinu_f.VirtualHeap.Covers.{in_block, covers}
use virtual_memory_xinu_f.System.{MemList}
use virtual_memory_xinu_f.Allocator.Blocks.{Separated, Separated-ends, SameFront}
use virtual_memory_xinu_f.Allocator.FreeList.{
  Chain, IsFreeList, Located, Relinks, relinked, next_of, end_of,
}

-- No block has `n` bytes.
abbrev pub Short : ℕ → List Block → Type 0
Short n [] = Unit {0}
Short n ((a, l) ∷ bs) = (l < n) × Short n bs

-- The `n` bytes at `a` were free, and the free bytes that are left are the others.
abbrev pub TakesOut : ℕ → ℕ → List Block → List Block → Type 0
TakesOut a n bs bs' =
    (x : ℕ)
    → ((in_block x a n && not (covers x bs)) ≡ false)
      × (covers x bs' ≡ (covers x bs && not (in_block x a n)))

-- The heap lies where it did.
abbrev pub SameBounds : MemList → MemList → Type 0
SameBounds h u = (u.minheap ≡ h.minheap) × (u.maxheap ≡ h.maxheap)

pub Separated-bounds :
    (i j m n : ℕ) (bs : List Block)
    → i ≡ j
    → m ≡ n
    → Separated (j - 1) n bs
    → Separated (i - 1) m bs
Separated-bounds i j m n bs e e' s = rw (e, e') s

-- The front of the list is not in the way.
TakesOut-front :
    (lo a n : ℕ) (bs ys bs' ys' : List Block)
    → SameFront lo bs ys bs' ys'
    → lo < a
    → TakesOut a n ys ys'
    → TakesOut a n bs bs'
TakesOut-front lo a n bs ys bs' ys' f h t x =
    let (p, e, e', clear) = f.bytes x in
    let apart : (p && in_block x a n) ≡ false = ground (arith, clear) in
    (ground (arith, e, t x), ground (arith, e, e', t x, apart))

-- The links and the lengths are set in `u`, whose tail is `ys'`.
module _ (h u : MemList) (bs ys ys' : List Block) (a n : ℕ) (prev : Option ℕ) (v : IsFreeList h bs)
    (l : Located ys bs prev) (linked : Chain u (next_of prev u) ys') (r : Relinks h u a prev)
    (order : Separated (end_of (h.minheap - 1) prev h) h.maxheap ys')
    (apart : end_of (h.minheap - 1) prev h < a)
    (len : u.memlist.mlength ≡ sub32 h.memlist.mlength n) (least : u.minheap ≡ h.minheap)
    (most : u.maxheap ≡ h.maxheap) (sizes : total ys ≡ total ys' + n)
    (bytes : TakesOut a n ys ys') where
  pub taken : (bs' : List Block) × IsFreeList u bs' × TakesOut a n bs bs'
  taken =
      let lo = h.minheap - 1 in
      let (bs', c, s, f) =
        relinked h lo h.maxheap ys bs u a ys' prev r linked order v.chain v.apart l in
      let (t, t0, t1) = f.sizes in
      let bound = Separated-ends lo h.maxheap bs v.apart in
      (
        bs',
        record {
          chain = c;
          apart = Separated-bounds u.minheap h.minheap u.maxheap h.maxheap bs' least most s;
          size = len ∙ ap (λ m. sub32 m n) v.size ∙ omega (arith, bound, v.high);
          low = rw least v.low;
          high = rw most v.high;
        },
        TakesOut-front (end_of lo prev h) a n bs ys bs' ys' f apart bytes,
      )
