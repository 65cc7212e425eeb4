-- ===== src/VirtualHeap/Get.antt =====
-- `vmhgetmem` is a first fit on the list of free blocks.
use virtual_memory_xinu_f.Base.{
  ℕ, zero, suc, ◌+◌, ◌-◌, ◌*◌, ◌^◌, ◌<◌, ◌≡◌, refl, ap, ◌∙◌, true, false, Option, none, some, ltb,
  ◌==◌, if◌then◌else◌, List, [], ◌∷◌, arith, ◌⊎◌, inl, inr, Bool-cases,
}
use virtual_memory_xinu_f.Frames.{nbpg}
use virtual_memory_xinu_f.Memory.{page_number}
use virtual_memory_xinu_f.Kernel.{Memblk, Proc}
use virtual_memory_xinu_f.VirtualHeap.{
  getmem_from, initialized, word, sub32, minvheap, maxhsize, search, take_exact, take_split,
  vmhgetmem, vmhinit,
}
use virtual_memory_xinu_f.VirtualHeap.Free.{
  Block, IsBlock, Free, count, IsHeap, first_fit, keep_block, count-Free, total-Free,
  total-first_fit,
}
use virtual_memory_xinu_f.VirtualHeap.Found.{Got, next_of, exact-Got}
use virtual_memory_xinu_f.VirtualHeap.Split.{split-Got}

some_injective : (x y : ℕ) → some x ≡ some y → x ≡ y
some_injective x y e = cc

abbrev Searched : ℕ → Option ℕ → Proc → ℕ → List Block → Option (Option ℕ × Proc) → Type 0
Searched msize prev p lo bs r =
    ((first_fit (msize * 4096) bs ≡ none) × (r ≡ some (none, p)))
    ⊎ ((a : ℕ) × (bs' : List Block) × (p' : Proc) × (first_fit (msize * 4096) bs ≡ some (a, bs'))
        × (r ≡ some (some a, p'))
        × Got msize prev p lo a bs' p')

-- A block that does not fit is kept.
module _ (msize : ℕ) (prev : Option ℕ) (p : Proc) (lo c l : ℕ) (bs : List Block)
    (before : (q : ℕ) → prev ≡ some q → q < lo) (at_c : next_of prev p ≡ some c)
    (b : IsBlock p lo c l) (a : ℕ) (p' : Proc) (g : Got msize (some c) p (c + l) a bs p') where
  unchanged : (q : ℕ) → q < lo → p'.heap q ≡ p.heap q
  unchanged q h =
      g.below q (omega (arith, b.behind)) λ e. omega (arith, b.behind, some_injective c q e)

  still_linked : (pr : Option ℕ) → prev ≡ pr → next_of pr p ≡ some c → next_of pr p' ≡ some c
  still_linked none e n = g.header c refl ∙ n
  still_linked (some q) e n = ap (λ (m : Memblk). m.mnext) (unchanged q (before q e)) ∙ n

  Got-keep_block : Got msize prev p lo a ((c, l) ∷ bs) p'
  Got-keep_block = record {
    link = (
      still_linked prev refl at_c,
      record {
        behind = b.behind;
        aligned = b.aligned;
        pages = b.pages;
        nonempty = b.nonempty;
        len = g.lengths c refl ∙ b.len;
        marked = g.marked.marks (page_number c) b.marked;
      },
      g.link,
    );
    below = λ q h ne. unchanged q h;
    lengths = λ q e. ap (λ (m : Memblk). m.mlength) (unchanged q (before q e));
    header = λ q e. g.header c refl;
    size = g.size;
    marked = g.marked;
    started = g.started;
  }

module _ (msize : ℕ) (some_size : 0 < msize) (few : msize < 2 ^ 16) (p : Proc) where
  search-Searched :
      (fuel : ℕ) (prev curr : Option ℕ) (lo : ℕ) (bs : List Block)
      → ((q : ℕ) → prev ≡ some q → q < lo)
      → next_of prev p ≡ curr
      → Free p lo curr bs
      → count bs < fuel
      → Searched msize prev p lo bs (search fuel msize prev curr p)
  unfolding search
  search-Searched zero prev curr lo bs before at_curr f enough = absurd (omega arith)
  search-Searched (suc fuel) prev curr lo [] before at_curr f enough = rw f.0 (inl (refl, refl))
  search-Searched (suc fuel) prev curr lo ((c, l) ∷ bs) before at_curr f enough =
      let b = f.1 in
      let same : word (msize * nbpg) ≡ msize * 4096 = omega arith in
      let test_eq : ((p.heap c).mlength == word (msize * nbpg)) ≡ (l == msize * 4096) =
        rw (b.len, same) refl in
      let test_lt : ltb (word (msize * nbpg)) (p.heap c).mlength ≡ ltb (msize * 4096) l =
        rw (b.len, same) refl in
      elim (Bool-cases (l == msize * 4096)) [
        | inl fits ↦
            rw (f.0, test_eq, fits)
              (inr (
                c,
                bs,
                take_exact msize prev c p,
                refl,
                refl,
                exact-Got msize prev p lo c l bs few before b f.2 (ground arith),
              ))
        | inr differs ↦ elim (Bool-cases (ltb (msize * 4096) l)) [
          | inl more ↦
              rw (f.0, test_eq, test_lt, differs, more)
                (inr (
                  c,
                  (c + msize * 4096, l - msize * 4096) ∷ bs,
                  take_split msize prev c p,
                  refl,
                  refl,
                  split-Got msize prev p lo c l bs few before b f.2 some_size (ground arith),
                ))
          | inr less ↦
              rw (f.0, test_eq, test_lt, differs, less)
                (elim (search-Searched fuel (some c) (p.heap c).mnext (c + l) bs
                  (λ q e. omega (arith, b.nonempty, some_injective c q e)) refl f.2 (omega arith)) [
                    | inl (e, r) ↦ inl (ap (keep_block (c, l)) e, r)
                    | inr (a, bs', p', e, r, g) ↦ inr (
                      a,
                      (c, l) ∷ bs',
                      p',
                      ap (keep_block (c, l)) e,
                      r,
                      Got-keep_block msize prev p lo c l bs' before (at_curr ∙ f.0) b a p' g,
                    )
                  ])
        ]
      ]

-- The first call in a process makes one free block of the whole virtual heap.
pub vmhinit-IsHeap :
    (p : Proc) → p.prmeminit ≡ false → IsHeap (vmhinit p) ((minvheap, maxhsize * nbpg) ∷ [])
unfolding vmhinit
vmhinit-IsHeap p first = rw first (record {
  started = refl;
  free = (
    refl,
    record {
      behind = omega arith;
      aligned = refl;
      pages = refl;
      nonempty = omega arith;
      len = refl;
      marked = refl;
    },
    (refl, omega arith),
  );
  size = refl;
})

module _ (msize : ℕ) (p : Proc) (started : p.prmeminit ≡ true) where
  vmhinit-started : vmhinit p ≡ p
  unfolding vmhinit
  vmhinit-started = ap (λ t. if t then p else initialized p) started

  no_memory : p.prmemblk.mlength ≡ 0 → vmhgetmem msize p ≡ some (none, p)
  unfolding vmhgetmem getmem_from
  no_memory e = ap (getmem_from msize) vmhinit-started ∙ ground arith

  searches :
      0 < msize
      → msize < 2 ^ 16
      → 0 < p.prmemblk.mlength
      → vmhgetmem msize p ≡ search (maxhsize + 1) msize none p.prmemblk.mnext p
  unfolding vmhgetmem getmem_from
  searches some_size few some_memory =
      let nonzero : (word (msize * nbpg) == 0) ≡ false = ground arith in
      let memory : (p.prmemblk.mlength == 0) ≡ false = ground arith in
      ap (getmem_from msize) vmhinit-started ∙ rw (nonzero, memory)

-- On a well-formed heap with the free blocks `bs`, in the order of their addresses, `vmhgetmem` of
-- 1 to 2^16 - 1 pages is a first fit and always returns: if no block has enough bytes it reports an
-- error and changes nothing; else it returns the address of the first block that has, all pages of
-- the memory that it gives out may be accessed, and the heap stays well-formed, with the free blocks
-- that a first fit leaves.
pub vmhgetmem-IsHeap :
    (p : Proc) (bs : List Block) (msize : ℕ)
    → IsHeap p bs
    → 0 < msize
    → msize < 2 ^ 16
    → ((first_fit (msize * 4096) bs ≡ none) × (vmhgetmem msize p ≡ some (none, p)))
      ⊎ ((a : ℕ) × (bs' : List Block) × (p' : Proc) × (first_fit (msize * 4096) bs ≡ some (a, bs'))
          × (vmhgetmem msize p ≡ some (some a, p'))
          × IsHeap p' bs'
          × ((i : ℕ) → i < msize → p'.pralloc (page_number a + i) ≡ true))
vmhgetmem-IsHeap p [] msize v some_size few = inl (refl, no_memory msize p v.started v.size)
vmhgetmem-IsHeap p (b ∷ bs) msize v some_size few =
    let few_blocks = count-Free p minvheap p.prmemblk.mnext (b ∷ bs) v.free in
    let bound = total-Free p minvheap p.prmemblk.mnext (b ∷ bs) v.free in
    let runs =
      searches msize p v.started some_size few (omega (arith, v.size, v.free.1.nonempty)) in
    elim (search-Searched msize some_size few p (maxhsize + 1) none p.prmemblk.mnext minvheap
      (b ∷ bs) (λ q e. absurd (cc)) refl v.free (omega (arith, few_blocks))) [
        | inl (e, r) ↦ inl (e, runs ∙ r)
        | inr (a, bs', p', e, r, g) ↦ inr (
          a,
          bs',
          p',
          e,
          runs ∙ r,
          record {
            started = g.started ∙ v.started;
            free = g.link;
            size =
                g.size
                ∙ ap (λ n. sub32 n (msize * 4096)) v.size
                ∙ omega (arith, total-first_fit (msize * 4096) a (b ∷ bs) bs' e, bound);
          },
          g.marked.given,
        )
      ]
