-- ===== src/VirtualHeap/Covers.antt =====
-- What `vmhgetmem` gives out, byte by byte.
use virtual_memory_xinu_f.Base.{
  ℕ, ◌+◌, ◌-◌, ◌*◌, ◌≤◌, ◌<◌, ◌≡◌, refl, sym, ◌∙◌, Bool, false, not, ◌&&◌, ◌||◌, Option, none, some,
  ltb, leb, ◌==◌, List, [], ◌∷◌, arith, inl, inr, ◌^◌, Bool-cases,
}
use virtual_memory_xinu_f.Kernel.{Proc}
use virtual_memory_xinu_f.VirtualHeap.{minvheap, vmhgetmem}
use virtual_memory_xinu_f.VirtualHeap.Free.{
  Block, Free, IsHeap, first_fit, keep_block, found_eq, found_at,
}
use virtual_memory_xinu_f.VirtualHeap.Get.{vmhgetmem-IsHeap}

abbrev pub in_block : ℕ → ℕ → ℕ → Bool
in_block x a n = leb a x && ltb x (a + n)

-- The byte at `x` is in a free block.
abbrev pub covers : ℕ → List Block → Bool
covers x [] = false
covers x ((a, n) ∷ bs) = in_block x a n || covers x bs

-- The free list has nothing in front of the address that it starts from.
covers_below :
    (p : Proc) (lo : ℕ) (c : Option ℕ) (bs : List Block) (x : ℕ)
    → Free p lo c bs
    → x < lo
    → covers x bs ≡ false
covers_below p lo c [] x f h = refl
covers_below p lo c ((a, n) ∷ bs) x f h = ground (
  arith,
  f.1.behind,
  covers_below p (a + n) (p.heap a).mnext bs x f.2 (omega (arith, f.1.behind)),
)

-- What is given out was free, and what is left is the rest.
abbrev Takes : ℕ → ℕ → ℕ → List Block → List Block → Type 0
Takes x a n bs bs' =
    ((in_block x a n && not (covers x bs)) ≡ false)
    × (covers x bs' ≡ (covers x bs && not (in_block x a n)))

module _ (p : Proc) (n x : ℕ) where
  Takes-kept :
      (lo : ℕ) (b : Block) (a : ℕ) (bs bs' : List Block) (r : Option (ℕ × List Block))
      → ((a' : ℕ) (rest' : List Block)
          → r ≡ some (a', rest')
          → (b.0 + b.1 ≤ a') × Takes x a' n bs rest')
      → lo ≤ b.0
      → keep_block b r ≡ some (a, bs')
      → (lo ≤ a) × Takes x a n (b ∷ bs) bs'
  Takes-kept lo b a bs bs' none ih h e = absurd (cc)
  Takes-kept lo b a bs bs' (some (a', rest')) ih h e =
      let same = found_eq a' a (b ∷ rest') bs' e in
      let same_a = found_at a' a (b ∷ rest') bs' e in
      let t = ih a' rest' refl in
      rw (← same, ← same_a)
        (omega (arith, t.0), (ground (arith, t.0, t.1.0), ground (arith, t.0, t.1.1)))

  Takes-first_fit :
      (lo : ℕ) (c : Option ℕ) (a : ℕ) (bs bs' : List Block)
      → Free p lo c bs
      → first_fit n bs ≡ some (a, bs')
      → (lo ≤ a) × Takes x a n bs bs'
  Takes-first_fit lo c a [] bs' f e = absurd (cc)
  Takes-first_fit lo c a ((s, l) ∷ bs) bs' f e = elim (Bool-cases (l == n)) [
    | inl fits ↦
        let same = found_eq s a bs bs' (rw fits at e) in
        let same_a = found_at s a bs bs' (rw fits at e) in
        let clear = covers_below p (s + l) (p.heap s).mnext bs x f.2 in
        rw (← same, ← same_a) (f.1.behind, (ground (arith, clear), ground (arith, clear)))
    | inr differs ↦ elim (Bool-cases (ltb n l)) [
      | inl more ↦
          let same = found_eq s a ((s + n, l - n) ∷ bs) bs' (rw (differs, more) at e) in
          let same_a = found_at s a ((s + n, l - n) ∷ bs) bs' (rw (differs, more) at e) in
          let clear = covers_below p (s + l) (p.heap s).mnext bs x f.2 in
          rw (← same, ← same_a) (f.1.behind, (ground (arith, clear), ground (arith, clear)))
      | inr less ↦
          Takes-kept lo (s, l) a bs bs' (first_fit n bs)
            (λ a' rest' e'. Takes-first_fit (s + l) (p.heap s).mnext a' bs rest' f.2 e') f.1.behind
            (rw (differs, less) at e)
    ]
  ]

same_result :
    (a b : ℕ) (p q : Proc)
    → ◌≡◌ {A = Option (Option ℕ × Proc)} (some (some a, p)) (some (some b, q))
    → (a ≡ b) × (p ≡ q)
same_result a b p q e = (cc, cc)

failed :
    (a : ℕ) (p q : Proc)
    → ◌≡◌ {A = Option (Option ℕ × Proc)} (some (some a, p)) (some (none, q))
    → ⊥
failed a p q e = cc

-- On a well-formed heap with the free blocks `bs`, whenever `vmhgetmem` of 1 to 2^16 - 1 pages
-- returns the address `a`, the heap stays well-formed, with free blocks `bs'` such that, for each
-- address `x`: if `x` is in the memory given out it was free, and `x` is free afterwards exactly if
-- it was free and is not in that memory.
pub vmhgetmem-covers :
    (p p' : Proc) (bs : List Block) (msize a : ℕ)
    → IsHeap p bs
    → 0 < msize
    → msize < 2 ^ 16
    → vmhgetmem msize p ≡ some (some a, p')
    → (bs' : List Block) × IsHeap p' bs'
      × ((x : ℕ)
          → ((in_block x a (msize * 4096) && not (covers x bs)) ≡ false)
            × (covers x bs' ≡ (covers x bs && not (in_block x a (msize * 4096)))))
vmhgetmem-covers p p' bs msize a v some_size few r =
    elim (vmhgetmem-IsHeap p bs msize v some_size few) [
      | inl (e, r') ↦ absurd (failed a p' p (sym r ∙ r'))
      | inr (b, bs', q, e, r', v', given) ↦
          let (same_a, same_p) = same_result a b p' q (sym r ∙ r') in
          (
            bs',
            rw same_p v',
            λ x.
                rw same_a
                  (Takes-first_fit p (msize * 4096) x minvheap p.prmemblk.mnext b bs bs' v.free
                    e).1,
          )
    ]
