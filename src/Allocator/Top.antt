-- ===== src/Allocator/Top.antt =====
-- `getstk` takes the top of the last block that is big enough, and `freestk` gives it back.
use virtual_memory_xinu_f.Base.{
  ℕ, ◌+◌, ◌-◌, ◌%◌, ◌^◌, ◌≤◌, ◌<◌, ◌≡◌, refl, sym, ap, ◌∙◌, false, ◌&&◌, Option, none, some, List,
  ◌∷◌, ◌++◌, arith, leb, ◌==◌, ◌⊎◌, inl, inr, Bool-cases, update_self, update-ne, subst, Status, ok,
}
use virtual_memory_xinu_f.Kernel.{Memblk}
use virtual_memory_xinu_f.VirtualHeap.{word, sub32}
use virtual_memory_xinu_f.VirtualHeap.Free.{Block, total}
use virtual_memory_xinu_f.VirtualHeap.Covers.{covers}
use virtual_memory_xinu_f.System.{MemList}
use virtual_memory_xinu_f.Allocator.{
  getstk, freestk, freemem, take_top, roundmb, shrink, set_length,
}
use virtual_memory_xinu_f.Allocator.Blocks.{
  Separated, Separated-ends, Separated-tail, Separated-middle, Separated-replace, covers_front,
  covers-append, total-append, covers_apart, Separated-weaken,
}
use virtual_memory_xinu_f.Allocator.FreeList.{
  Chain, Chain-frame, Chain-replace, Chain-tail, IsFreeList, Located,
}
use virtual_memory_xinu_f.Allocator.Links.{minheap-set_next, maxheap-set_next}
use virtual_memory_xinu_f.Allocator.Taken.{Short, TakesOut, SameBounds}
use virtual_memory_xinu_f.Allocator.Found.{exact}
use virtual_memory_xinu_f.Allocator.LastFit.{IsLast, Scanned, last_fit-Scanned}
use virtual_memory_xinu_f.Allocator.RoundTrip.{gives_back, not_taken, taken_same}

module _ (h : MemList) (bs front back : List Block) (b m n : ℕ) (v : IsFreeList h bs)
    (whole : bs ≡ front ++ (b, m) ∷ back) (pos : 0 < n) (al : n % 8 ≡ 0) where
  abbrev lo : ℕ
  lo = h.minheap - 1

  order : Separated lo h.maxheap (front ++ (b, m) ∷ back)
  order = rw whole at (v.apart)

  at_tail : (0 < m) × (b % 8 ≡ 0) × (m % 8 ≡ 0) × Separated (b + m) h.maxheap back
  at_tail = Separated-tail lo h.maxheap front b m back order

  len_b : (h.blocks b).mlength ≡ m
  len_b = (Chain-tail h h.memlist.mnext front b m back (rw whole at (v.chain))).0

  bound : b + m ≤ h.maxheap
  bound = omega (arith, Separated-ends (b + m) h.maxheap back at_tail.3)

  module _ (more : n < m) where
    abbrev shorter : MemList
    shorter = shrink n (set_length (some b) (sub32 (h.blocks b).mlength n) h)

    len-shorter : (shorter.blocks b).mlength ≡ m - n
    len-shorter =
        ap (λ (k : Memblk). k.mlength) (update_self h.blocks b _)
        ∙ ap (λ i. sub32 i n) len_b
        ∙ omega (arith, bound, v.high)

    next-shorter : (shorter.blocks b).mnext ≡ (h.blocks b).mnext
    next-shorter = ap (λ (k : Memblk). k.mnext) (update_self h.blocks b _)

    chain-shorter : Chain shorter shorter.memlist.mnext (front ++ (b, m - n) ∷ back)
    chain-shorter =
        let f = rw whole at (v.chain) in
        Chain-replace h shorter lo h.maxheap h.memlist.mnext front b m (m - n) back back order
          (λ q i. update-ne h.blocks b q _ (omega arith)) len-shorter
          (rw next-shorter (
            Chain-frame h shorter (b + m) h.maxheap (h.blocks b).mnext back at_tail.3
              (λ q i. update-ne h.blocks b q _ (omega arith))
              (Chain-tail h h.memlist.mnext front b m back f).1))
          f

    bytes-shorter : TakesOut (b + m - n) n bs (front ++ (b, m - n) ∷ back)
    bytes-shorter x =
        let e = ap (covers x) whole ∙ covers-append x front ((b, m) ∷ back) in
        let e' = covers-append x front ((b, m - n) ∷ back) in
        let clear = covers_front (b + m) h.maxheap back x at_tail.3 in
        let prefix : (leb b x && covers x front) ≡ false =
          ground (arith, covers_apart lo h.maxheap front b m back x order) in
        (ground (arith, e, clear), ground (arith, e, e', clear, prefix))

    shorter-IsFreeList : IsFreeList shorter (front ++ (b, m - n) ∷ back)
    shorter-IsFreeList = record {
      chain = chain-shorter;
      apart =
          Separated-replace lo h.maxheap front b m (m - n) back back order (omega arith)
            (omega (arith, at_tail.2))
            (Separated-weaken (b + m) (b + (m - n)) h.maxheap back (omega arith) at_tail.3);
      size =
          ap (λ i. sub32 i n) v.size
          ∙ omega (
            arith,
            ap total whole,
            total-append front ((b, m) ∷ back),
            total-append front ((b, m - n) ∷ back),
            v.high,
            Separated-ends lo h.maxheap bs v.apart,
          );
      low = v.low;
      high = v.high;
    }

  -- The highest word of the `n` bytes.
  abbrev Given : Option ℕ → Option ℕ × MemList → Type 0
  Given prev r =
      (h' : MemList) × (bs' : List Block) × (r ≡ (some (b + m - 4), h'))
      × IsFreeList h' bs'
      × SameBounds h h'
      × TakesOut (b + m - n) n bs bs'

  given :
      (prev : Option ℕ)
      → Located ((b, m) ∷ back) bs prev
      → n ≤ m
      → Given prev (take_top n (some (prev, b)) h)
  given prev w enough =
      let test : (n == (h.blocks b).mlength) ≡ (n == m) = ap (λ i. n == i) len_b in
      let left : sub32 (h.blocks b).mlength n ≡ m - n =
        ap (λ i. sub32 i n) len_b ∙ omega (arith, bound, v.high) in
      elim (Bool-cases (n == m)) [
        | inl all ↦
            let same : m ≡ n = ground arith in
            let (bs', v', t) = exact h bs back b m n prev v w same in
            let at : sub32 (word (b + n)) 4 ≡ b + m - 4 = omega (arith, bound, v.high, at_tail.2) in
            rw (test, all, at)
              (
                _,
                bs',
                refl,
                v',
                (
                  minheap-set_next prev (h.blocks b).mnext h,
                  maxheap-set_next prev (h.blocks b).mnext h,
                ),
                subst (λ i. TakesOut i n bs bs') (omega arith) t,
              )
        | inr not_all ↦
            let more : n < m = ground arith in
            let at : sub32 (word (word (b + (m - n)) + n)) 4 ≡ b + m - 4 =
              omega (arith, bound, v.high, at_tail.2) in
            rw (test, not_all)
              (
                shorter more,
                front ++ (b, m - n) ∷ back,
                ap (λ i. (some i, shorter more))
                    (ap (λ k. sub32 (word (word (b + k) + n)) 4) left ∙ at),
                shorter-IsFreeList more,
                (refl, refl),
                bytes-shorter more,
              )
      ]

elim_found :
    (n : ℕ) (h : MemList) (bs : List Block)
    → IsFreeList h bs
    → 0 < n
    → n % 8 ≡ 0
    → (found : Option (Option ℕ × ℕ)) → Scanned n bs found
    → ((some (take_top n found h) ≡ some (none, h)) × Short n bs)
      ⊎ ((prev : Option ℕ) × (b : ℕ) × (l : IsLast n prev b bs) × (h' : MemList) × (bs' : List
            Block)
          × (some (take_top n found h) ≡ some (some (b + l.length - 4), h'))
          × IsFreeList h' bs'
          × SameBounds h h'
          × TakesOut (b + l.length - n) n bs bs')
elim_found n h bs v pos al none c = inl (refl, c)
elim_found n h bs v pos al (some (prev, b)) l =
    let (h', bs', e, v', bounds, t) =
      given h bs l.front l.back b l.length n v l.whole pos al prev l.place l.enough in
    inr (prev, b, l, h', bs', ap some e, v', bounds, t)

-- Where a free block lies.
in_heap :
    (h : MemList) (bs front back : List Block) (b m : ℕ)
    → IsFreeList h bs
    → bs ≡ front ++ (b, m) ∷ back
    → (b % 8 ≡ 0) × (h.minheap ≤ b) × (b + m ≤ h.maxheap) × (m % 8 ≡ 0)
in_heap h bs front back b m v whole =
    let lo = h.minheap - 1 in
    let s = rw whole at (v.apart) in
    let t = Separated-tail lo h.maxheap front b m back s in
    (
      t.1,
      omega (arith, Separated-middle lo h.maxheap front b m back s),
      omega (arith, Separated-ends (b + m) h.maxheap back t.3),
      t.2,
    )

-- On a heap with the free blocks `bs`, `getstk` of 1 to 2^32 - 8 bytes always returns. Either no block
-- has the bytes asked for, rounded up to a multiple of 8, and it reports an error and changes nothing;
-- or it returns the address of the highest word of the last block that has: the top bytes of that
-- block are taken out, which were free, exactly the others stay free, and the heap stays well-formed,
-- where it was.
pub getstk-IsFreeList :
    (h : MemList) (bs : List Block) (nbytes : ℕ)
    → IsFreeList h bs
    → 0 < nbytes
    → nbytes ≤ 2 ^ 32 - 8
    → ((getstk nbytes h ≡ some (none, h)) × Short (roundmb nbytes) bs)
      ⊎ ((prev : Option ℕ) × (b : ℕ) × (l : IsLast (roundmb nbytes) prev b bs) × (h' : MemList)
          × (bs' : List Block) × (getstk nbytes h ≡ some (some (b + l.length - 4), h'))
          × IsFreeList h' bs'
          × SameBounds h h'
          × TakesOut (b + l.length - roundmb nbytes) (roundmb nbytes) bs bs')
unfolding getstk
getstk-IsFreeList h bs nbytes v pos few =
    let n = roundmb nbytes in
    let asked : (nbytes == 0) ≡ false = ground arith in
    let (found, r, c) = last_fit-Scanned n h bs v in
    rw (asked, r) (elim_found n h bs v (omega arith) (omega arith) found c)

-- The call succeeds and leaves the free blocks `bs`.
abbrev pub IsGiven : List Block → Option (Status × MemList) → Type 0
IsGiven bs r = (h : MemList) × (r ≡ some (ok, h)) × IsFreeList h bs

stack_back :
    (h u : MemList) (bs bs1 front back : List Block) (b m nbytes : ℕ)
    → IsFreeList h bs
    → 0 < nbytes
    → nbytes ≤ 2 ^ 32 - 8
    → bs ≡ front ++ (b, m) ∷ back
    → roundmb nbytes ≤ m
    → IsFreeList u bs1
    → SameBounds h u
    → TakesOut (b + m - roundmb nbytes) (roundmb nbytes) bs bs1
    → IsGiven bs (freestk (b + m - 4) nbytes u)
unfolding freestk
stack_back h u bs bs1 front back b m nbytes v pos few whole enough v1 bounds t =
    let n = roundmb nbytes in
    let place = in_heap h bs front back b m v whole in
    let twice : roundmb n ≡ n = omega arith in
    let start : word (sub32 (b + m - 4) n + 4) ≡ b + m - n =
      omega (arith, place.1, place.2, v.low, v.high) in
    subst (λ a. IsGiven bs (freemem a n u)) (sym start)
      (gives_back h u bs bs1 n (b + m - n) v (omega arith) (omega arith) v1 bounds
        (subst (λ k. TakesOut (b + m - n) k bs bs1) (sym twice) t)
        (omega (arith, place.0, place.3), omega (arith, place.1), omega (arith, twice, place.2)))

-- A stack of 1 to 2^32 - 8 bytes that `getstk` has given out from a heap with the free blocks `bs`:
-- `freestk` of the returned address and as many bytes succeeds, and the heap has exactly the free
-- blocks `bs` again.
pub freestk-getstk :
    (h h1 : MemList) (bs : List Block) (nbytes p : ℕ)
    → IsFreeList h bs
    → 0 < nbytes
    → nbytes ≤ 2 ^ 32 - 8
    → getstk nbytes h ≡ some (some p, h1)
    → IsGiven bs (freestk p nbytes h1)
freestk-getstk h h1 bs nbytes p v pos few r = elim (getstk-IsFreeList h bs nbytes v pos few) [
  | inl (e, none_fits) ↦ absurd (not_taken p h1 h (sym r ∙ e))
  | inr (prev, b, l, u, bs1, e, v1, bounds, t) ↦
      let (at, same) = taken_same p (b + l.length - 4) h1 u (sym r ∙ e) in
      subst (λ q. IsGiven bs (freestk q nbytes h1)) (sym at)
        (subst (λ g. IsGiven bs (freestk (b + l.length - 4) nbytes g)) (sym same)
          (stack_back h u bs bs1 l.front l.back b l.length nbytes v pos few l.whole l.enough v1
            bounds t))
]
