-- ===== src/Allocator/FreeList.antt =====
-- The free list of the kernel's heap, linked by addresses, as a list of blocks.
use virtual_memory_xinu_f.Base.{
  ℕ, ◌+◌, ◌-◌, ◌^◌, ◌≤◌, ◌<◌, ◌≡◌, ◌≢◌, refl, ap, sym, ◌∙◌, Option, none, some, List, [], ◌∷◌, ◌++◌,
  arith,
}
use virtual_memory_xinu_f.Kernel.{Memblk}
use virtual_memory_xinu_f.VirtualHeap.Free.{Block, total}
use virtual_memory_xinu_f.System.{MemList}
use virtual_memory_xinu_f.Allocator.Blocks.{
  Separated, Separated-middle, Separated-replace, Separated-tail, SameFront, append-SameFront,
  covers_before,
}

-- The blocks that are linked from the address `c` on.
abbrev pub Chain : MemList → Option ℕ → List Block → Type 0
Chain h c [] = c ≡ none
Chain h c ((a, n) ∷ bs) = (c ≡ some a) × ((h.blocks a).mlength ≡ n) × Chain h (h.blocks a).mnext bs

-- The heap between `minheap` and `maxheap` has the free blocks `bs`: they are in order, no two of
-- them touch, and `memlist.mlength` is the number of their bytes.
pub record IsFreeList (h : MemList) (bs : List Block) : Type 0 where
  pub chain : Chain h h.memlist.mnext bs
  pub apart : Separated (h.minheap - 1) h.maxheap bs
  pub size : h.memlist.mlength ≡ total bs
  pub low : 0 < h.minheap
  pub high : h.maxheap < 2 ^ 31

pub Chain-frame :
    (h u : MemList) (lo hi : ℕ) (c : Option ℕ) (bs : List Block)
    → Separated lo hi bs
    → ((q : ℕ) → lo < q → u.blocks q ≡ h.blocks q)
    → Chain h c bs
    → Chain u c bs
Chain-frame h u lo hi c [] s same f = f
Chain-frame h u lo hi c ((a, n) ∷ bs) s same f =
    let e = same a s.0 in
    let next = ap (λ (m : Memblk). m.mnext) e in
    (
      f.0,
      ap (λ (m : Memblk). m.mlength) e ∙ f.1,
      Chain-frame h u (a + n) hi (u.blocks a).mnext bs s.4 (λ q l. same q (omega (arith, s.0)))
          (rw e f.2),
    )

pub Chain-head :
    (h : MemList) (bs : List Block) {c d : Option ℕ} → Chain h c bs → Chain h d bs → c ≡ d
Chain-head h [] f g = f ∙ sym g
Chain-head h ((a, n) ∷ bs) f g = f.0 ∙ sym g.0

-- The list from the block `b` on is replaced.
pub Chain-replace :
    (h u : MemList) (lo hi : ℕ) (c : Option ℕ) (xs : List Block) (b m m' : ℕ) (ys ys' : List Block)
    → Separated lo hi (xs ++ (b, m) ∷ ys)
    → ((q : ℕ) → q < b → u.blocks q ≡ h.blocks q)
    → (u.blocks b).mlength ≡ m'
    → Chain u (u.blocks b).mnext ys'
    → Chain h c (xs ++ (b, m) ∷ ys)
    → Chain u c (xs ++ (b, m') ∷ ys')
Chain-replace h u lo hi c [] b m m' ys ys' s same len tail f = (f.0, len, tail)
Chain-replace h u lo hi c ((a, n) ∷ xs) b m m' ys ys' s same len tail f =
    let e = same a (omega (arith, Separated-middle (a + n) hi xs b m ys s.4)) in
    (
      f.0,
      ap (λ (k : Memblk). k.mlength) e ∙ f.1,
      Chain-replace h u (a + n) hi (u.blocks a).mnext xs b m m' ys ys' s.4 same len tail (rw e f.2),
    )

pub Chain-tail :
    (h : MemList) (c : Option ℕ) (xs : List Block) (b m : ℕ) (ys : List Block)
    → Chain h c (xs ++ (b, m) ∷ ys)
    → ((h.blocks b).mlength ≡ m) × Chain h (h.blocks b).mnext ys
Chain-tail h c [] b m ys f = (f.1, f.2)
Chain-tail h c ((a, n) ∷ xs) b m ys f = Chain-tail h (h.blocks a).mnext xs b m ys f.2

-- The blocks `ys` stand behind `prev` in `bs`.
pub data Located (ys bs : List Block) : Option ℕ → Type 0 where
  at_header : bs ≡ ys → Located ys bs none
  behind : (xs : List Block) (b m : ℕ) → bs ≡ xs ++ (b, m) ∷ ys → Located ys bs (some b)

pub append_middle :
    (xs : List Block) (p : Block) (ys : List Block) → xs ++ p ∷ ys ≡ (xs ++ p ∷ []) ++ ys
append_middle [] p ys = refl
append_middle (x ∷ xs) p ys = ap (λ l. x ∷ l) (append_middle xs p ys)

-- One step of a walk.
pub Located-advance :
    (a n : ℕ) (ys bs : List Block) (prev : Option ℕ)
    → Located ((a, n) ∷ ys) bs prev
    → Located ys bs (some a)
Located-advance a n ys bs none (at_header e) = behind [] a n e
Located-advance a n ys bs (some _) (behind xs b m e) =
    behind (xs ++ (b, m) ∷ []) a n (e ∙ append_middle xs (b, m) ((a, n) ∷ ys))

-- `prev->mnext`, and where the block before ends.
abbrev pub next_of : Option ℕ → MemList → Option ℕ
next_of none h = h.memlist.mnext
next_of (some a) h = (h.blocks a).mnext

abbrev pub end_of : ℕ → Option ℕ → MemList → ℕ
end_of lo none h = lo
end_of lo (some a) h = a + (h.blocks a).mlength

pub some_injective : (x y : ℕ) → some x ≡ some y → x ≡ y
some_injective x y e = cc

append_one-SameFront :
    (lo hi : ℕ) (xs : List Block) (b m : ℕ) (ys ys' : List Block)
    → Separated lo hi (xs ++ (b, m) ∷ ys)
    → SameFront (b + m) (xs ++ (b, m) ∷ ys) ys (xs ++ (b, m) ∷ ys') ys'
append_one-SameFront lo hi xs b m ys ys' s =
    rw (append_middle xs (b, m) ys, append_middle xs (b, m) ys')
      (append-SameFront (b + m) (xs ++ (b, m) ∷ []) ys ys'
        (λ x l. covers_before lo hi xs b m ys x s l))

-- From `h` to `u` nothing in front of `e` changes but the link of `prev`, which is in front of `e`.
pub record Relinks (h u : MemList) (e : ℕ) (prev : Option ℕ) : Type 0 where
  pub before : (q : ℕ) → prev ≡ some q → q < e
  pub same : (q : ℕ) → q < e → prev ≢ some q → u.blocks q ≡ h.blocks q
  pub lens : (q : ℕ) → prev ≡ some q → (u.blocks q).mlength ≡ (h.blocks q).mlength
  pub header : (q : ℕ) → prev ≡ some q → u.memlist.mnext ≡ h.memlist.mnext

module _ (h : MemList) (lo hi : ℕ) (ys bs : List Block) where
  pub Located-Separated :
      (prev : Option ℕ)
      → Located ys bs prev
      → Chain h h.memlist.mnext bs
      → Separated lo hi bs
      → Separated (end_of lo prev h) hi ys × (lo ≤ end_of lo prev h)
  Located-Separated none (at_header e) f s = (rw (← e) s, omega arith)
  Located-Separated (some _) (behind xs b m e) f s =
      let s' = rw e at s in
      let len : (h.blocks b).mlength ≡ m = (Chain-tail h h.memlist.mnext xs b m ys (rw e at f)).0 in
      (
        rw len (Separated-tail lo hi xs b m ys s').3,
        omega (arith, Separated-middle lo hi xs b m ys s'),
      )

  pub Located-Chain :
      (prev : Option ℕ)
      → Located ys bs prev
      → Chain h h.memlist.mnext bs
      → Chain h (next_of prev h) ys
  Located-Chain none (at_header e) f = rw (← e) f
  Located-Chain (some _) (behind xs b m e) f =
      (Chain-tail h h.memlist.mnext xs b m ys (rw e at f)).1

  -- `ys'` stands in the place of `ys`, in the state `u`.
  pub relinked :
      (u : MemList) (e : ℕ) (ys' : List Block) (prev : Option ℕ)
      → Relinks h u e prev
      → Chain u (next_of prev u) ys'
      → Separated (end_of lo prev h) hi ys'
      → Chain h h.memlist.mnext bs
      → Separated lo hi bs
      → Located ys bs prev
      → (bs' : List Block) × Chain u u.memlist.mnext bs'
        × Separated lo hi bs'
        × SameFront (end_of lo prev h) bs ys bs' ys'
  relinked u e ys' none r tail order f s (at_header w) =
      (ys', tail, order, rw w (append-SameFront lo [] ys ys' λ x l. refl))
  relinked u e ys' (some _) r tail order f s (behind xs b m w) =
      let s' = rw w at s in
      let f' = rw w at f in
      let len = (Chain-tail h h.memlist.mnext xs b m ys f').0 in
      let t = Separated-tail lo hi xs b m ys s' in
      (
        xs ++ (b, m) ∷ ys',
        Chain-replace h u lo hi u.memlist.mnext xs b m m ys ys' s'
            (λ q l.
              r.same q (omega (arith, r.before b refl)) λ d. omega (arith, some_injective b q d))
            (r.lens b refl ∙ len) tail (rw (r.header b refl) f'),
        Separated-replace lo hi xs b m m ys ys' s' t.0 t.2 (rw len at order),
        rw (w, len) (append_one-SameFront lo hi xs b m ys ys' s'),
      )
