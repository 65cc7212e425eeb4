-- ===== src/Allocator/LastFit.antt =====
-- The scan of `getstk` finds the last block that is big enough.
use virtual_memory_xinu_f.Base.{
  ℕ, zero, suc, ◌+◌, ◌-◌, ◌≤◌, ◌<◌, ◌≡◌, refl, ap, ◌∙◌, Option, none, some, List, [], ◌∷◌, ◌++◌,
  append_nil, arith, leb, inl, inr, Bool-cases, subst,
}
use virtual_memory_xinu_f.VirtualHeap.Free.{Block, count}
use virtual_memory_xinu_f.System.{MemList}
use virtual_memory_xinu_f.Allocator.{last_fit, max_blocks}
use virtual_memory_xinu_f.Allocator.Blocks.{Separated-count}
use virtual_memory_xinu_f.Allocator.FreeList.{
  Chain, IsFreeList, Located, at_header, Located-advance, append_middle,
}
use virtual_memory_xinu_f.Allocator.Taken.{Short}
use virtual_memory_xinu_f.Allocator.Get.{Short-append}

-- The block at `b`, of `m` bytes, is the last in `bs` that has `n`, and stands behind `prev`.
pub record IsLast (n : ℕ) (prev : Option ℕ) (b : ℕ) (bs : List Block) : Type 0 where
  pub front : List Block
  pub back : List Block
  pub length : ℕ
  pub whole : bs ≡ front ++ (b, length) ∷ back
  pub place : Located ((b, length) ∷ back) bs prev
  pub enough : n ≤ length
  pub short : Short n back

-- The last block that fits in the part `seen` of the list, before `ys`.
record Last (n : ℕ) (bs ys : List Block) (prev : Option ℕ) (b : ℕ) : Type 0 where
  pub front : List Block
  pub middle : List Block
  pub length : ℕ
  pub whole : bs ≡ front ++ (b, length) ∷ (middle ++ ys)
  pub place : Located ((b, length) ∷ (middle ++ ys)) bs prev
  pub enough : n ≤ length
  pub short : Short n middle

abbrev Candidate : ℕ → List Block → List Block → Option (Option ℕ × ℕ) → Type 0
Candidate n bs ys none = (seen : List Block) × (bs ≡ seen ++ ys) × Short n seen
Candidate n bs ys (some (prev, b)) = Last n bs ys prev b

-- A block that is too short is passed.
pass :
    (n a l : ℕ) (bs ys : List Block) (fits : Option (Option ℕ × ℕ))
    → l < n
    → Candidate n bs ((a, l) ∷ ys) fits
    → Candidate n bs ys fits
pass n a l bs ys none h (seen, e, s) =
    (seen ++ (a, l) ∷ [], e ∙ append_middle seen (a, l) ys, Short-append n a l seen s h)
pass n a l bs ys (some (prev, b)) h c =
    let e = append_middle c.middle (a, l) ys in
    record {
      front = c.front;
      middle = c.middle ++ (a, l) ∷ [];
      length = c.length;
      whole = c.whole ∙ ap (λ t. c.front ++ (b, c.length) ∷ t) e;
      place = rw (← e) c.place;
      enough = c.enough;
      short = Short-append n a l c.middle c.short h;
    }

module _ (n : ℕ) (h : MemList) (bs : List Block) where
  last_fit-Candidate :
      (fuel : ℕ) (fits : Option (Option ℕ × ℕ)) (prev curr : Option ℕ) (front ys : List Block)
      → Located ys bs prev
      → Chain h curr ys
      → bs ≡ front ++ ys
      → Candidate n bs ys fits
      → count ys < fuel
      → (found : Option (Option ℕ × ℕ)) × (last_fit fuel n fits prev curr h ≡ some found)
        × Candidate n bs [] found
  unfolding last_fit
  last_fit-Candidate zero fits prev curr front ys w f e c enough = absurd (omega arith)
  last_fit-Candidate (suc fuel) fits prev curr front [] w f e c enough = (fits, rw f refl, c)
  last_fit-Candidate (suc fuel) fits prev curr front ((a, l) ∷ ys) w f e c enough =
      let test : leb n (h.blocks a).mlength ≡ leb n l = ap (leb n) f.1 in
      elim (Bool-cases (leb n l)) [
        | inl fit ↦
            let (found, r, c') =
              last_fit-Candidate fuel (some (prev, a)) (some a) (h.blocks a).mnext
                (front ++ (a, l) ∷ []) ys (Located-advance a l ys bs prev w) f.2
                (e ∙ append_middle front (a, l) ys)
                (record {
                  front = front;
                  middle = [];
                  length = l;
                  whole = e;
                  place = w;
                  enough = ground arith;
                  short = tt;
                })
                (omega arith) in
            (found, rw (f.0, test, fit) r, c')
        | inr unfit ↦
            let (found, r, c') =
              last_fit-Candidate fuel fits (some a) (h.blocks a).mnext (front ++ (a, l) ∷ []) ys
                (Located-advance a l ys bs prev w) f.2 (e ∙ append_middle front (a, l) ys)
                (pass n a l bs ys fits (ground arith) c) (omega arith) in
            (found, rw (f.0, test, unfit) r, c')
      ]

append_nil-Last :
    (n : ℕ) (bs : List Block) (prev : Option ℕ) (b : ℕ) → Last n bs [] prev b → IsLast n prev b bs
append_nil-Last n bs prev b c =
    let e = append_nil c.middle in
    record {
      front = c.front;
      back = c.middle;
      length = c.length;
      whole = c.whole ∙ ap (λ t. c.front ++ (b, c.length) ∷ t) e;
      place = subst (λ t. Located ((b, c.length) ∷ t) bs prev) e c.place;
      enough = c.enough;
      short = c.short;
    }

abbrev pub Scanned : ℕ → List Block → Option (Option ℕ × ℕ) → Type 0
Scanned n bs none = Short n bs
Scanned n bs (some (prev, b)) = IsLast n prev b bs

scanned :
    (n : ℕ) (bs : List Block) (found : Option (Option ℕ × ℕ))
    → Candidate n bs [] found
    → Scanned n bs found
scanned n bs none (seen, e, s) = rw (e ∙ append_nil seen) s
scanned n bs (some (prev, b)) c = append_nil-Last n bs prev b c

pub last_fit-Scanned :
    (n : ℕ) (h : MemList) (bs : List Block)
    → IsFreeList h bs
    → (found : Option (Option ℕ × ℕ)) × (last_fit (max_blocks + 1) n none none h.memlist.mnext h
        ≡ some found)
      × Scanned n bs found
last_fit-Scanned n h bs v =
    let few_blocks = Separated-count (h.minheap - 1) h.maxheap bs v.apart in
    let (found, r, c) =
      last_fit-Candidate n h bs (max_blocks + 1) none none h.memlist.mnext [] bs (at_header refl)
        v.chain refl ([], refl, tt) (omega (arith, few_blocks, v.high)) in
    (found, r, scanned n bs found c)
