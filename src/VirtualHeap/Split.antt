-- ===== src/VirtualHeap/Split.antt =====
-- The case of `vmhgetmem` that splits a big block.
use virtual_memory_xinu_f.Base.{
  ℕ, ◌+◌, ◌-◌, ◌*◌, ◌^◌, ◌≤◌, ◌<◌, ◌≡◌, ◌≢◌, refl, ap, ◌∙◌, Bool, true, Option, none, some, List,
  ◌∷◌, arith, update, update_self,
}
use virtual_memory_xinu_f.Frames.{nbpg}
use virtual_memory_xinu_f.Memory.{page_number}
use virtual_memory_xinu_f.Kernel.{Memblk, Proc}
use virtual_memory_xinu_f.VirtualHeap.{word, sub32, set_next, with_leftover, take_split}
use virtual_memory_xinu_f.VirtualHeap.Free.{maxvheap, Block, IsBlock, Free, Free-frame}
use virtual_memory_xinu_f.VirtualHeap.Found.{
  Got, got, got-Got, low, not_prev, nbytes_eq, heap-set_next, pralloc-set_next, started-set_next,
}

-- The marks of pages have no part in the links.
memblk-marked :
    (prev x : Option ℕ) (p : Proc) (t : ℕ → Bool)
    → (set_next prev x (record p { pralloc = t })).prmemblk ≡ (set_next prev x p).prmemblk
memblk-marked none x p t = refl
memblk-marked (some q) x p t = refl

heap-marked :
    (prev x : Option ℕ) (p : Proc) (t : ℕ → Bool)
    → (set_next prev x (record p { pralloc = t })).heap ≡ (set_next prev x p).heap
heap-marked none x p t = refl
heap-marked (some q) x p t = refl

module _ (n leftover c : ℕ) (v : Proc) where
  heap-with_leftover : (q : ℕ) → leftover ≢ q → (with_leftover n leftover c v).heap q ≡ v.heap q
  heap-with_leftover q ne = ground arith

  mnext-with_leftover : ((with_leftover n leftover c v).heap leftover).mnext ≡ (v.heap c).mnext
  mnext-with_leftover = ground arith

  len-with_leftover :
      leftover ≢ c
      → ((with_leftover n leftover c v).heap leftover).mlength ≡ sub32 (v.heap c).mlength n
  len-with_leftover ne = ground arith

module _ (msize : ℕ) (prev : Option ℕ) (p : Proc) (lo c l : ℕ) (bs : List Block)
    (few : msize < 2 ^ 16) (before : (q : ℕ) → prev ≡ some q → q < lo) (b : IsBlock p lo c l)
    (rest : Free p (c + l) (p.heap c).mnext bs) (some_size : 0 < msize)
    (more : msize * 4096 < l) where
  abbrev leftover : ℕ
  leftover = c + msize * 4096

  in_heap : c + l ≤ maxvheap
  in_heap = low msize prev p lo c l bs few before b rest

  leftover_eq : word (c + word (msize * nbpg)) ≡ leftover
  leftover_eq = omega (arith, in_heap)

  abbrev linked : Proc
  linked =
      set_next prev (some leftover)
        (record p { pralloc = update p.pralloc (page_number leftover) true })

  abbrev split : Proc
  split = with_leftover (msize * 4096) leftover c linked

  linked-heap : (q : ℕ) → prev ≢ some q → linked.heap q ≡ p.heap q
  linked-heap q ne = heap-set_next prev (some leftover) _ q ne

  split-heap : (q : ℕ) → leftover ≢ q → prev ≢ some q → split.heap q ≡ p.heap q
  split-heap q ne ne' = heap-with_leftover (msize * 4096) leftover c linked q ne ∙ linked-heap q ne'

  at_c : linked.heap c ≡ p.heap c
  at_c = linked-heap c (not_prev msize prev p lo c l bs few before b rest c b.behind)

  split-pralloc : split.pralloc ≡ update p.pralloc (page_number leftover) true
  split-pralloc = pralloc-set_next prev (some leftover) _

  split_keeps : (q : ℕ) → p.pralloc q ≡ true → split.pralloc q ≡ true
  split_keeps q m = ap (λ t. t q) split-pralloc ∙ ground arith

  leftover-IsBlock : IsBlock split lo leftover (l - msize * 4096)
  leftover-IsBlock = record {
    behind = omega (arith, b.behind);
    aligned = omega (arith, b.aligned);
    pages = omega (arith, b.pages);
    nonempty = omega arith;
    len =
        len-with_leftover (msize * 4096) leftover c linked (omega arith)
        ∙ ap (λ (m : Memblk). sub32 m.mlength (msize * 4096)) at_c
        ∙ omega (arith, b.len, in_heap);
    marked = ap (λ t. t (page_number leftover)) split-pralloc ∙ update_self p.pralloc _ true;
  }

  split-rest : Free split (leftover + (l - msize * 4096)) (split.heap leftover).mnext bs
  split-rest =
      let e : leftover + (l - msize * 4096) ≡ c + l = omega arith in
      let f =
        mnext-with_leftover (msize * 4096) leftover c linked ∙ ap (λ (m : Memblk). m.mnext) at_c in
      rw (e, f)
        (Free-frame p split (c + l) (p.heap c).mnext bs
          (λ q h.
            split-heap q (omega arith)
              (not_prev msize prev p lo c l bs few before b rest q (omega (arith, b.behind))))
          split_keeps rest)

  pub split-Got :
      Got msize prev p lo c ((leftover, l - msize * 4096) ∷ bs) (take_split msize prev c p)
  unfolding take_split got
  split-Got =
      rw (leftover_eq, nbytes_eq msize prev p lo c l bs few before b rest)
        (got-Got msize prev p lo c l bs few before b rest (some leftover)
          ((leftover, l - msize * 4096) ∷ bs) split (memblk-marked prev (some leftover) p _)
          (λ q h.
            heap-with_leftover (msize * 4096) leftover c linked q (omega (arith, b.behind))
            ∙ ap (λ t. t q) (heap-marked prev (some leftover) p _))
          split_keeps (started-set_next prev (some leftover) _) (refl, leftover-IsBlock, split-rest)
          (omega arith))
