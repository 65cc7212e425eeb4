-- ===== src/Allocator/Freed.antt =====
-- The two ways in which `freemem` puts a block into the free list: behind another that it touches, or
-- as a block of its own.
use virtual_memory_xinu_f.Base.{
  ℕ, ◌+◌, ◌-◌, ◌%◌, ◌≤◌, ◌<◌, ◌≡◌, ◌≢◌, refl, ap, ◌∙◌, sym, Bool, true, false, ◌&&◌, ◌||◌, Option,
  none, some, List, [], ◌∷◌, ◌++◌, arith, update, update_self, update-ne, subst,
}
use virtual_memory_xinu_f.Kernel.{Memblk}
use virtual_memory_xinu_f.VirtualHeap.{word}
use virtual_memory_xinu_f.VirtualHeap.Free.{Block, total}
use virtual_memory_xinu_f.VirtualHeap.Covers.{in_block, covers}
use virtual_memory_xinu_f.System.{MemList}
use virtual_memory_xinu_f.Allocator.{set_next, grow, lengthen, join_next}
use virtual_memory_xinu_f.Allocator.Blocks.{
  Separated, Separated-ends, Separated-tail, Separated-replace, SameFront, covers_front,
  covers_before, covers-append, total-append,
}
use virtual_memory_xinu_f.Allocator.FreeList.{
  Chain, Chain-frame, Chain-replace, Chain-tail, IsFreeList, Located, relinked, end_of,
}
use virtual_memory_xinu_f.Allocator.Links.{
  before_end, blocks-set_next, size-set_next, minheap-set_next, maxheap-set_next, set_next-Relinks,
  next_of-front,
}
use virtual_memory_xinu_f.Allocator.Taken.{Separated-bounds, SameBounds}
use virtual_memory_xinu_f.Allocator.Joined.{Joined, join_next-Joined, in_block-add}

-- No byte of the block was free, and they all are, besides the others.
abbrev pub PutsBack : ℕ → ℕ → List Block → List Block → Type 0
PutsBack a n bs bs' =
    (x : ℕ)
    → ((in_block x a n && covers x bs) ≡ false) × (covers x bs' ≡ (covers x bs || in_block x a n))

or_swap : (p q r s : Bool) → (p || ((q || r) || s)) ≡ ((p || (q || s)) || r)
or_swap true q r s = refl
or_swap false true r s = refl
or_swap false false true true = refl
or_swap false false true false = refl
or_swap false false false true = refl
or_swap false false false false = refl

or_swap' : (p r s : Bool) → (p || (r || s)) ≡ ((p || s) || r)
or_swap' p r s = or_swap p false r s

-- A link is set whatever the block behind it holds.
set_next-update :
    (prev x : Option ℕ) (h : MemList) (a q n : ℕ) (k : Memblk)
    → a ≢ q
    → (set_next prev x (record (grow n h) { blocks = update h.blocks a k })).blocks q
      ≡ (set_next prev x h).blocks q
set_next-update none x h a q n k ne = update-ne h.blocks a q k ne
set_next-update (some p) x h a q n k ne = ground arith

header-update :
    (prev x : Option ℕ) (h : MemList) (a n : ℕ) (k : Memblk)
    → (set_next prev x (record (grow n h) { blocks = update h.blocks a k })).memlist.mnext
      ≡ (set_next prev x h).memlist.mnext
header-update none x h a n k = refl
header-update (some p) x h a n k = refl

module _ (h : MemList) (bs : List Block) (a n : ℕ) (v : IsFreeList h bs) (some_size : 0 < n)
    (al : n % 8 ≡ 0) (ends : a + n ≤ h.maxheap) where
  -- The heap of a state whose list is in order.
  freed :
      (u : MemList) (bs' : List Block)
      → Chain u u.memlist.mnext bs'
      → Separated (h.minheap - 1) h.maxheap bs'
      → u.memlist.mlength ≡ (grow n h).memlist.mlength
      → u.minheap ≡ h.minheap
      → u.maxheap ≡ h.maxheap
      → total bs' ≡ total bs + n
      → IsFreeList u bs'
  freed u bs' c s len least most sum =
      let bound = Separated-ends (h.minheap - 1) h.maxheap bs v.apart in
      record {
        chain = c;
        apart = Separated-bounds u.minheap h.minheap u.maxheap h.maxheap bs' least most s;
        size = len ∙ ap (λ m. word (m + n)) v.size ∙ omega (arith, bound, v.high);
        low = rw least v.low;
        high = rw most v.high;
      }

  module _ (ys : List Block) (next : Option ℕ) (linked : Chain h next ys)
      (apart : Separated (a + n - 1) h.maxheap ys) where
    -- No free byte is in the block.
    clear : (x : ℕ) → (in_block x a n && covers x ys) ≡ false
    clear x = ground (arith, covers_front (a + n - 1) h.maxheap ys x apart)

    -- The block `b` before is made longer.
    module _ (xs : List Block) (b m : ℕ) (whole : bs ≡ xs ++ (b, m) ∷ ys)
        (at_next : (h.blocks b).mnext ≡ next) (touches : b + m ≡ a) where
      abbrev longer : MemList
      longer = lengthen (some b) n (grow n h)

      order : Separated (h.minheap - 1) h.maxheap (xs ++ (b, m) ∷ ys)
      order = rw whole at (v.apart)

      len_b : (h.blocks b).mlength ≡ m
      len_b = (Chain-tail h h.memlist.mnext xs b m ys (rw whole at (v.chain))).0

      same_end : b + (m + n) - 1 ≡ a + n - 1
      same_end = omega arith

      longer_len : (longer.blocks b).mlength ≡ m + n
      longer_len =
          ap (λ (k : Memblk). k.mlength) (update_self h.blocks b _)
          ∙ ap (λ i. word (i + n)) len_b
          ∙ omega (arith, v.high)

      longer_same : (q : ℕ) → b ≢ q → longer.blocks q ≡ h.blocks q
      longer_same q ne = ground arith

      behind-Joined : Joined longer h.maxheap b (m + n) ys (join_next (some b) next longer)
      behind-Joined =
          let t = Separated-tail (h.minheap - 1) h.maxheap xs b m ys order in
          join_next-Joined longer h.maxheap b (m + n) (omega arith) (omega (arith, t.2))
            (omega arith) v.high longer_len next ys
            (ap (λ (k : Memblk). k.mnext) (update_self h.blocks b _) ∙ at_next) (rw same_end apart)
            (Chain-frame h longer (a + n - 1) h.maxheap next ys apart
              (λ q i. longer_same q (omega arith)) linked)

      -- What stands in front of `b` is not in the block.
      front_clear : (x : ℕ) → (in_block x a n && covers x xs) ≡ false
      front_clear x = ground (
        arith,
        covers-append x xs ((b, m) ∷ []),
        covers_before (h.minheap - 1) h.maxheap xs b m ys x order,
      )

      behind-bytes :
          (j : Joined longer h.maxheap b (m + n) ys (join_next (some b) next longer))
          → PutsBack a n bs (xs ++ (b, j.size) ∷ j.behind)
      behind-bytes j x =
          let e = ap (covers x) whole ∙ covers-append x xs ((b, m) ∷ ys) in
          let e' = covers-append x xs ((b, j.size) ∷ j.behind) in
          let parts : in_block x b (m + n) ≡ (in_block x b m || in_block x a n) =
            rw (← touches) (in_block-add x b m n) in
          (
            rw e (ground (arith, front_clear x, clear x)),
            rw (e, e', j.bytes x, parts)
                (or_swap (covers x xs) (in_block x b m) (in_block x a n) (covers x ys)),
          )

      pub behind-freed :
          (bs' : List Block) × IsFreeList (join_next (some b) next longer) bs'
          × SameBounds h (join_next (some b) next longer)
          × PutsBack a n bs bs'
      behind-freed =
          let j = behind-Joined in
          let u = join_next (some b) next longer in
          let bs' = xs ++ (b, j.size) ∷ j.behind in
          let header : u.memlist.mnext ≡ h.memlist.mnext = ap (λ (k : Memblk). k.mnext) j.memlist in
          (
            bs',
            freed u bs'
                (Chain-replace h u (h.minheap - 1) h.maxheap u.memlist.mnext xs b m j.size ys
                  j.behind order (λ q i. j.same q (omega arith) ∙ longer_same q (omega arith)) j.len
                  j.chain
                  (subst (λ c. Chain h c (xs ++ (b, m) ∷ ys)) (sym header) (rw whole at (v.chain))))
                (Separated-replace (h.minheap - 1) h.maxheap xs b m j.size ys j.behind order
                  (omega (arith, j.more)) j.pages j.apart)
                (ap (λ (k : Memblk). k.mlength) j.memlist) j.minheap j.maxheap
                (omega (
                  arith,
                  ap total whole,
                  total-append xs ((b, m) ∷ ys),
                  total-append xs ((b, j.size) ∷ j.behind),
                  j.sum,
                )),
            (j.minheap, j.maxheap),
            behind-bytes j,
          )

    -- The block is linked behind `prev`.
    module _ (prev : Option ℕ) (w : Located ys bs prev) (room : end_of (h.minheap - 1) prev h < a)
        (aligned : a % 8 ≡ 0) where
      abbrev new : MemList
      new =
          set_next prev (some a) (record (grow n h) {
            blocks = update h.blocks a (record { mnext = next; mlength = n });
          })

      before : (q : ℕ) → prev ≡ some q → q < a
      before q e = omega (
        arith,
        before_end (h.minheap - 1) (end_of (h.minheap - 1) prev h) prev h (omega arith) q e,
      )

      new-blocks : (q : ℕ) → a < q → new.blocks q ≡ h.blocks q
      new-blocks q i =
          blocks-set_next prev (some a) _ q (λ e. omega (arith, before q e))
          ∙ update-ne h.blocks a q _ (omega arith)

      at_new : new.blocks a ≡ record { mnext = next; mlength = n }
      at_new =
          blocks-set_next prev (some a) _ a (λ e. omega (arith, before a e))
          ∙ update_self h.blocks a _

      linked-Joined : Joined new h.maxheap a n ys (join_next (some a) next new)
      linked-Joined =
          join_next-Joined new h.maxheap a n some_size al ends v.high
            (ap (λ (k : Memblk). k.mlength) at_new) next ys (ap (λ (k : Memblk). k.mnext) at_new)
            apart
            (Chain-frame h new (a + n - 1) h.maxheap next ys apart
              (λ q i. new-blocks q (omega arith)) linked)

      linked-bytes :
          (j : Joined new h.maxheap a n ys (join_next (some a) next new)) (bs' : List Block)
          → SameFront (end_of (h.minheap - 1) prev h) bs ys bs' ((a, j.size) ∷ j.behind)
          → PutsBack a n bs bs'
      linked-bytes j bs' f x =
          let (p, e, e', front) = f.bytes x in
          (
            rw e (ground (arith, clear x, front)),
            rw (e, e', j.bytes x) (or_swap' p (in_block x a n) (covers x ys)),
          )

      pub linked-freed :
          (bs' : List Block) × IsFreeList (join_next (some a) next new) bs'
          × SameBounds h (join_next (some a) next new)
          × PutsBack a n bs bs'
      linked-freed =
          let j = linked-Joined in
          let u = join_next (some a) next new in
          let ys' = (a, j.size) ∷ j.behind in
          let front : (q : ℕ) → q < a → u.blocks q ≡ (set_next prev (some a) h).blocks q =
            λ q i. j.same q (omega arith) ∙ set_next-update prev (some a) h a q n _ (omega arith) in
          let header : u.memlist.mnext ≡ (set_next prev (some a) h).memlist.mnext =
            ap (λ (k : Memblk). k.mnext) j.memlist ∙ header-update prev (some a) h a n _ in
          let (bs', c, s, f) =
            relinked h (h.minheap - 1) h.maxheap ys bs u a ys' prev
              (set_next-Relinks h u a prev (some a) before front header)
              (next_of-front h u a prev (some a) before front header, j.len, j.chain)
              (room, omega (arith, j.more), aligned, j.pages, j.apart) v.chain v.apart w in
          (
            bs',
            freed u bs' c s
                (ap (λ (k : Memblk). k.mlength) j.memlist ∙ size-set_next prev (some a) _)
                (j.minheap ∙ minheap-set_next prev (some a) _)
                (j.maxheap ∙ maxheap-set_next prev (some a) _)
                (omega (arith, f.sizes.1, f.sizes.2, j.sum)),
            (
              j.minheap ∙ minheap-set_next prev (some a) _,
              j.maxheap ∙ maxheap-set_next prev (some a) _,
            ),
            linked-bytes j bs' f,
          )
