-- ===== src/Allocator/Found.antt =====
-- The two ways in which `getmem` takes a block: as it is, or the front of a bigger one.
use virtual_memory_xinu_f.Base.{
  ℕ, ◌+◌, ◌-◌, ◌%◌, ◌^◌, ◌≤◌, ◌<◌, ◌≡◌, ◌≢◌, refl, ap, ◌∙◌, Option, some, List, ◌∷◌, arith,
}
use virtual_memory_xinu_f.Kernel.{Memblk}
use virtual_memory_xinu_f.VirtualHeap.{word, sub32}
use virtual_memory_xinu_f.VirtualHeap.Free.{Block}
use virtual_memory_xinu_f.System.{MemList}
use virtual_memory_xinu_f.Allocator.{split, with_leftover, shrink, set_next}
use virtual_memory_xinu_f.Allocator.Blocks.{
  Separated, Separated-ends, Separated-weaken, covers_front,
}
use virtual_memory_xinu_f.Allocator.FreeList.{
  Chain, Chain-frame, IsFreeList, Located, Located-Separated, Located-Chain, end_of,
}
use virtual_memory_xinu_f.Allocator.Links.{
  blocks-set_next, size-set_next, minheap-set_next, maxheap-set_next, before_end, set_next-Relinks,
  next_of-front,
}
use virtual_memory_xinu_f.Allocator.Taken.{TakesOut, taken}

module _ (n leftover c : ℕ) (v : MemList) where
  blocks-with_leftover :
      (q : ℕ) → leftover ≢ q → (with_leftover n leftover c v).blocks q ≡ v.blocks q
  blocks-with_leftover q ne = ground arith

  next-with_leftover : ((with_leftover n leftover c v).blocks leftover).mnext ≡ (v.blocks c).mnext
  next-with_leftover = ground arith

  len-with_leftover :
      leftover ≢ c
      → ((with_leftover n leftover c v).blocks leftover).mlength ≡ sub32 (v.blocks c).mlength n
  len-with_leftover ne = ground arith

module _ (h : MemList) (bs ys : List Block) (a l n : ℕ) (prev : Option ℕ) (v : IsFreeList h bs)
    (w : Located ((a, l) ∷ ys) bs prev) where
  abbrev lo : ℕ
  lo = end_of (h.minheap - 1) prev h

  block : Separated lo h.maxheap ((a, l) ∷ ys)
  block = (Located-Separated h (h.minheap - 1) h.maxheap ((a, l) ∷ ys) bs prev w v.chain v.apart).0

  rest : Chain h (h.blocks a).mnext ys
  rest = (Located-Chain h (h.minheap - 1) h.maxheap ((a, l) ∷ ys) bs prev w v.chain).2

  len_a : (h.blocks a).mlength ≡ l
  len_a = (Located-Chain h (h.minheap - 1) h.maxheap ((a, l) ∷ ys) bs prev w v.chain).1

  in_memory : a + l < 2 ^ 31
  in_memory = omega (arith, Separated-ends (a + l) h.maxheap ys block.4, v.high)

  before : (q : ℕ) → prev ≡ some q → q < a
  before q e = omega (arith, before_end (h.minheap - 1) lo prev h (omega arith) q e, block.0)

  not_prev : (q : ℕ) → a ≤ q → prev ≢ some q
  not_prev q i e = omega (arith, before q e)

  bytes-exact : TakesOut a l ((a, l) ∷ ys) ys
  bytes-exact x =
      let clear = covers_front (a + l) h.maxheap ys x block.4 in
      (ground (arith, clear), ground (arith, clear))

  pub exact :
      l ≡ n
      → (bs' : List Block) × IsFreeList (shrink n (set_next prev (h.blocks a).mnext h)) bs'
        × TakesOut a n bs bs'
  exact e =
      let x = (h.blocks a).mnext in
      let u = shrink n (set_next prev x h) in
      taken h u bs ((a, l) ∷ ys) ys a n prev v w
        (rw (next_of-front h u a prev x before (λ q i. refl) refl) (
          Chain-frame h u (a + l) h.maxheap x ys block.4
            (λ q i. blocks-set_next prev x h q (not_prev q (omega arith))) rest))
        (set_next-Relinks h u a prev x before (λ q i. refl) refl)
        (Separated-weaken (a + l) lo h.maxheap ys (omega (arith, block.0)) block.4) block.0
        (ap (λ m. sub32 m n) (size-set_next prev x h)) (minheap-set_next prev x h)
        (maxheap-set_next prev x h) (omega arith) (rw (← e) bytes-exact)

  module _ (pos : 0 < n) (al : n % 8 ≡ 0) (more : n < l) where
    bytes-split : TakesOut a n ((a, l) ∷ ys) ((a + n, l - n) ∷ ys)
    bytes-split x =
        let clear = covers_front (a + l) h.maxheap ys x block.4 in
        (ground (arith, clear), ground (arith, clear))

    at_leftover : word (a + n) ≡ a + n
    at_leftover = omega (arith, in_memory)

    abbrev linked : MemList
    linked = set_next prev (some (a + n)) h

    same_a : linked.blocks a ≡ h.blocks a
    same_a = blocks-set_next prev (some (a + n)) h a (not_prev a (omega arith))

    split-blocks : (q : ℕ) → a + n ≢ q → (split n prev a h).blocks q ≡ linked.blocks q
    split-blocks q ne = rw at_leftover (blocks-with_leftover n (a + n) a linked q ne)

    split_len : ((split n prev a h).blocks (a + n)).mlength ≡ l - n
    split_len = rw at_leftover (
        len-with_leftover n (a + n) a linked (omega arith)
        ∙ ap (λ (m : Memblk). sub32 m.mlength n) same_a
        ∙ omega (arith, len_a, in_memory))

    split_next : ((split n prev a h).blocks (a + n)).mnext ≡ (h.blocks a).mnext
    split_next =
        rw at_leftover (next-with_leftover n (a + n) a linked ∙ ap (λ (m : Memblk). m.mnext) same_a)

    split_rest : Chain (split n prev a h) ((split n prev a h).blocks (a + n)).mnext ys
    split_rest = rw split_next (
        Chain-frame h (split n prev a h) (a + l) h.maxheap (h.blocks a).mnext ys block.4
          (λ q i.
            split-blocks q (omega arith)
            ∙ blocks-set_next prev (some (a + n)) h q (not_prev q (omega arith)))
          rest)

    pub split-taken : (bs' : List Block) × IsFreeList (split n prev a h) bs' × TakesOut a n bs bs'
    split-taken =
        let x = some (a + n) in
        let u = split n prev a h in
        let header : u.memlist.mnext ≡ linked.memlist.mnext =
          ap (λ i. (set_next prev (some i) h).memlist.mnext) at_leftover in
        let sum : a + n + (l - n) ≡ a + l = omega arith in
        taken h u bs ((a, l) ∷ ys) ((a + n, l - n) ∷ ys) a n prev v w
          (
            next_of-front h u a prev x before (λ q i. split-blocks q (omega arith)) header,
            split_len,
            split_rest,
          )
          (set_next-Relinks h u a prev x before (λ q i. split-blocks q (omega arith)) header)
          (
            omega (arith, block.0),
            omega arith,
            omega (arith, block.2),
            omega (arith, block.3),
            rw sum block.4,
          )
          block.0 (ap (λ m. sub32 m n) (size-set_next prev (some (word (a + n))) h))
          (minheap-set_next prev (some (word (a + n))) h)
          (maxheap-set_next prev (some (word (a + n))) h) (omega arith) bytes-split
