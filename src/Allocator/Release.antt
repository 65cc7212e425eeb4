-- ===== src/Allocator/Release.antt =====
-- `freemem` gives a block back to the free list.
use virtual_memory_xinu_f.Base.{
  ℕ, zero, suc, ◌+◌, ◌-◌, ◌%◌, ◌^◌, ◌≤◌, ◌<◌, ◌≡◌, refl, ap, ◌∙◌, true, false, ◌&&◌, ◌||◌, Option,
  none, some, List, [], ◌∷◌, arith, ltb, ◌==◌, Status, ok, syserr, ◌⊎◌, inl, inr, Bool-cases,
}
use virtual_memory_xinu_f.VirtualHeap.{word}
use virtual_memory_xinu_f.VirtualHeap.Free.{Block, count}
use virtual_memory_xinu_f.VirtualHeap.Covers.{in_block, covers}
use virtual_memory_xinu_f.System.{MemList}
use virtual_memory_xinu_f.Allocator.{
  freemem, walk, free_between, max_blocks, roundmb, top_of, below_top, reaches,
}
use virtual_memory_xinu_f.Allocator.Blocks.{
  Separated, Separated-count, Separated-ends, Separated-tail, covers-append,
}
use virtual_memory_xinu_f.Allocator.FreeList.{
  Chain, Chain-head, Chain-tail, IsFreeList, Located, at_header, behind, Located-advance,
  some_injective, end_of,
}
use virtual_memory_xinu_f.Allocator.Taken.{SameBounds}
use virtual_memory_xinu_f.Allocator.Freed.{PutsBack, behind-freed, linked-freed}

-- The list is empty, or its first block is at or behind `a`.
abbrev pub StartsAt : ℕ → List Block → Type 0
StartsAt a [] = Unit {0}
StartsAt a ((c, l) ∷ ys) = a ≤ c

-- Where the walk of `freemem` stops: between `prev`, which is in front of `a`, and `ys`.
pub record Between (h : MemList) (bs : List Block) (a : ℕ) (prev next : Option ℕ) : Type 0 where
  pub ys : List Block
  pub place : Located ys bs prev
  pub linked : Chain h next ys
  pub before : (q : ℕ) → prev ≡ some q → q < a
  pub starts : StartsAt a ys

walk-Between :
    (h : MemList) (bs : List Block) (a fuel : ℕ) (prev next : Option ℕ) (ys : List Block)
    → Located ys bs prev
    → Chain h next ys
    → ((q : ℕ) → prev ≡ some q → q < a)
    → count ys < fuel
    → (prev' : Option ℕ) × (next' : Option ℕ) × (walk fuel a prev next h ≡ some (prev', next'))
      × Between h bs a prev' next'
unfolding walk
walk-Between h bs a zero prev next ys w f before enough = absurd (omega arith)
walk-Between h bs a (suc fuel) prev next [] w f before enough = (
  prev,
  none,
  rw f refl,
  record { ys = []; place = w; linked = refl; before = before; starts = tt },
)
walk-Between h bs a (suc fuel) prev next ((c, l) ∷ ys) w f before enough =
    elim (Bool-cases (ltb c a)) [
      | inl further ↦
          let (prev', next', e, b) =
            walk-Between h bs a fuel (some c) (h.blocks c).mnext ys
              (Located-advance c l ys bs prev w) f.2 (λ q d. ground (arith, some_injective c q d))
              (omega arith) in
          (prev', next', rw (f.0, further) e, b)
      | inr stop ↦ (
        prev,
        some c,
        rw (f.0, stop) refl,
        record {
          ys = (c, l) ∷ ys;
          place = w;
          linked = (refl, f.1, f.2);
          before = before;
          starts = ground arith;
        },
      )
    ]

module _ (h : MemList) (bs : List Block) (a n : ℕ) (v : IsFreeList h bs) (some_size : 0 < n)
    (al : n % 8 ≡ 0) (aligned : a % 8 ≡ 0) (inside : h.minheap ≤ a) (ends : a + n ≤ h.maxheap) where
  abbrev Given : Option (Status × MemList) → Type 0
  Given r =
      ((r ≡ some (syserr, h)) × (x : ℕ) × ((in_block x a n && covers x bs) ≡ true))
      ⊎ ((h' : MemList) × (bs' : List Block) × (r ≡ some (ok, h'))
          × IsFreeList h' bs'
          × SameBounds h h'
          × PutsBack a n bs bs')

  module _ (next : Option ℕ) where
    -- The block behind is overlapped, or it is not.
    overlaps_next :
        (lo : ℕ) (ys : List Block)
        → Chain h next ys
        → StartsAt a ys
        → Separated lo h.maxheap ys
        → reaches (word (a + n)) next ≡ true
        → (x : ℕ) × ((in_block x a n && covers x ys) ≡ true)
    overlaps_next lo [] f st s r =
        let never : reaches (word (a + n)) none ≡ true = rw f at r in absurd (cc never)
    overlaps_next lo ((c, l) ∷ ys) f st s r =
        let reached : ltb c (word (a + n)) ≡ true = rw f.0 at r in (c, ground (arith, v.high))

    clear_next :
        (lo : ℕ) (ys : List Block)
        → Chain h next ys
        → Separated lo h.maxheap ys
        → reaches (word (a + n)) next ≡ false
        → Separated (a + n - 1) h.maxheap ys
    clear_next lo [] f s r = omega arith
    clear_next lo ((c, l) ∷ ys) f s r =
        let free : ltb c (word (a + n)) ≡ false = rw f.0 at r in
        (ground (arith, v.high), s.1, s.2, s.3, s.4)

    abbrev lo : ℕ
    lo = h.minheap - 1

    abbrev result : Option ℕ → Option (Status × MemList)
    result prev = free_between a n (some (prev, next)) h

    -- The block is linked behind `prev`, when it does not touch it.
    links :
        (prev : Option ℕ) (ys : List Block)
        → Located ys bs prev
        → Chain h next ys
        → Separated (a + n - 1) h.maxheap ys
        → end_of lo prev h < a
        → (below_top prev a h || reaches (word (a + n)) next) ≡ false
        → (top_of prev h == a) ≡ false
        → Given (result prev)
    links prev ys w f s room free apart =
        let (bs', v', b', p) =
          linked-freed h bs a n v some_size al ends ys next f s prev w room aligned in
        rw (free, apart) (inr (_, bs', refl, v', b', p))

    at_place :
        (prev : Option ℕ) (ys : List Block)
        → Located ys bs prev
        → Chain h next ys
        → ((q : ℕ) → prev ≡ some q → q < a)
        → StartsAt a ys
        → Given (result prev)
    at_place none ys (at_header e) f before st =
        let s = rw e at (v.apart) in
        elim (Bool-cases (reaches (word (a + n)) next)) [
          | inl r ↦
              let (x, c) = overlaps_next lo ys f st s r in
              rw r (inl (refl, x, ap (λ l. in_block x a n && covers x l) e ∙ c))
          | inr r ↦
              links none ys (at_header e) f (clear_next lo ys f s r) (omega (arith, v.low)) r
                (ground (arith, v.low))
        ]
    at_place (some _) ys (behind xs b m e) f before st =
        let s = rw e at (v.apart) in
        let t = Separated-tail lo h.maxheap xs b m ys s in
        let len = (Chain-tail h h.memlist.mnext xs b m ys (rw e at (v.chain))).0 in
        let bound = Separated-ends (b + m) h.maxheap ys t.3 in
        let top : word (b + (h.blocks b).mlength) ≡ b + m = omega (arith, v.high) in
        let test : ltb a (word (b + (h.blocks b).mlength)) ≡ ltb a (b + m) = ap (ltb a) top in
        let parts : (x : ℕ) → covers x bs ≡ (covers x xs || (in_block x b m || covers x ys)) =
          λ x. ap (covers x) e ∙ covers-append x xs ((b, m) ∷ ys) in
        elim (Bool-cases (ltb a (b + m))) [
          | inl o ↦ rw (test, o) (inl (refl, a, ground (arith, parts a, before b refl)))
          | inr o ↦ elim (Bool-cases (reaches (word (a + n)) next)) [
            | inl r ↦
                let (x, c) = overlaps_next (b + m) ys f st t.3 r in
                rw (test, o, r) (inl (refl, x, ground (arith, parts x, c)))
            | inr r ↦
                let clear = clear_next (b + m) ys f t.3 r in
                let free : (ltb a (word (b + (h.blocks b).mlength)) || reaches (word (a + n)) next)
                    ≡ false =
                  rw (test, o) r in
                elim (Bool-cases (word (b + (h.blocks b).mlength) == a)) [
                  | inl touch ↦
                      let (bs', v', b', p) =
                        behind-freed h bs a n v some_size al ends ys next f clear xs b m e
                          (Chain-head h ys
                            (Chain-tail h h.memlist.mnext xs b m ys (rw e at (v.chain))).1 f)
                          (ground arith) in
                      rw (free, touch) (inr (_, bs', refl, v', b', p))
                  | inr apart ↦
                      links (some b) ys (behind xs b m e) f clear (ground arith) free apart
                ]
          ]
        ]

-- A block of 1 to 2^32 - 8 bytes that starts at a multiple of 8 and lies, rounded up, in the heap.
-- `freemem` of it always returns. Either a byte of it is free already, and it reports an error and
-- changes nothing; or none is, all its bytes are free afterwards, besides those that were, and the
-- heap stays well-formed, where it was: the block is joined with those that it touches.
pub freemem-IsFreeList :
    (h : MemList) (bs : List Block) (a nbytes : ℕ)
    → IsFreeList h bs
    → 0 < nbytes
    → nbytes ≤ 2 ^ 32 - 8
    → a % 8 ≡ 0
    → h.minheap ≤ a
    → a + roundmb nbytes ≤ h.maxheap
    → ((freemem a nbytes h ≡ some (syserr, h))
        × (x : ℕ) × ((in_block x a (roundmb nbytes) && covers x bs) ≡ true))
      ⊎ ((h' : MemList) × (bs' : List Block) × (freemem a nbytes h ≡ some (ok, h'))
          × IsFreeList h' bs'
          × SameBounds h h'
          × PutsBack a (roundmb nbytes) bs bs')
unfolding freemem
freemem-IsFreeList h bs a nbytes v pos few aligned inside ends =
    let n = roundmb nbytes in
    let guard : (((nbytes == 0) || ltb a h.minheap) || ltb h.maxheap a) ≡ false = ground arith in
    let few_blocks = Separated-count (h.minheap - 1) h.maxheap bs v.apart in
    let (prev, next, e, b) =
      walk-Between h bs a (max_blocks + 1) none h.memlist.mnext bs (at_header refl) v.chain
        (λ q d. absurd (cc)) (omega (arith, few_blocks, v.high)) in
    rw (guard, e)
      (at_place h bs a n v (omega arith) (omega arith) aligned inside ends next prev b.ys b.place
        b.linked b.before b.starts)
