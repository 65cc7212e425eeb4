-- ===== src/Allocator/Joined.antt =====
-- The end of `freemem`: a block is joined with the one behind it when they touch.
use virtual_memory_xinu_f.Base.{
  ℕ, ◌+◌, ◌-◌, ◌%◌, ◌^◌, ◌≤◌, ◌<◌, ◌≡◌, ◌≢◌, refl, ◌∙◌, ◌||◌, Option, some, List, [], ◌∷◌, arith,
  ◌==◌, inl, inr, Bool-cases,
}
use virtual_memory_xinu_f.VirtualHeap.{word}
use virtual_memory_xinu_f.VirtualHeap.Free.{Block, total}
use virtual_memory_xinu_f.VirtualHeap.Covers.{in_block, covers}
use virtual_memory_xinu_f.System.{MemList}
use virtual_memory_xinu_f.Allocator.{join_next, set_next, set_length}
use virtual_memory_xinu_f.Allocator.Blocks.{Separated, Separated-ends, Separated-weaken}
use virtual_memory_xinu_f.Allocator.FreeList.{Chain, Chain-frame}

-- In `u` the block `b`, of `m` bytes, was in front of `ys`; in `u'` it has `m'` and is in front of
-- `ys'`, and no other block touches it.
pub record Joined (u : MemList) (hi b m : ℕ) (ys : List Block) (u' : MemList) : Type 0 where
  pub size : ℕ
  pub behind : List Block
  pub len : (u'.blocks b).mlength ≡ size
  pub chain : Chain u' (u'.blocks b).mnext behind
  pub more : m ≤ size
  pub pages : size % 8 ≡ 0
  pub apart : Separated (b + size) hi behind
  pub bytes : (x : ℕ) → (in_block x b size || covers x behind) ≡ (in_block x b m || covers x ys)
  pub sum : size + total behind ≡ m + total ys
  pub same : (q : ℕ) → b ≢ q → u'.blocks q ≡ u.blocks q
  pub memlist : u'.memlist ≡ u.memlist
  pub minheap : u'.minheap ≡ u.minheap
  pub maxheap : u'.maxheap ≡ u.maxheap

-- What `join_next` makes of two blocks that touch.
abbrev both : ℕ → ℕ → MemList → MemList
both b c u =
    let u' = set_length (some b) (word ((u.blocks b).mlength + (u.blocks c).mlength)) u in
    set_next (some b) (u'.blocks c).mnext u'

module _ (b c : ℕ) (u : MemList) where
  both_len : ((both b c u).blocks b).mlength ≡ word ((u.blocks b).mlength + (u.blocks c).mlength)
  both_len = ground arith

  both_next : b ≢ c → ((both b c u).blocks b).mnext ≡ (u.blocks c).mnext
  both_next ne = ground arith

  both_same : (q : ℕ) → b ≢ q → (both b c u).blocks q ≡ u.blocks q
  both_same q ne = ground arith

-- The bytes of two parts of a block.
pub in_block-add : (x a m n : ℕ) → in_block x a (m + n) ≡ (in_block x a m || in_block x (a + m) n)
in_block-add x a m n = ground arith

module _ (u : MemList) (hi b m : ℕ) (pos : 0 < m) (al : m % 8 ≡ 0) (below : b + m ≤ hi)
    (high : hi < 2 ^ 31) (len : (u.blocks b).mlength ≡ m) where
  join_next-apart :
      (ys : List Block)
      → Separated (b + m) hi ys
      → Chain u (u.blocks b).mnext ys
      → Joined u hi b m ys u
  join_next-apart ys s f = record {
    size = m;
    behind = ys;
    len = len;
    chain = f;
    more = omega arith;
    pages = al;
    apart = s;
    bytes = λ x. refl;
    sum = refl;
    same = λ q ne. refl;
    memlist = refl;
    minheap = refl;
    maxheap = refl;
  }

  pub join_next-Joined :
      (next : Option ℕ) (ys : List Block)
      → (u.blocks b).mnext ≡ next
      → Separated (b + m - 1) hi ys
      → Chain u next ys
      → Joined u hi b m ys (join_next (some b) next u)
  join_next-Joined next [] e s f = rw f (join_next-apart [] below (e ∙ f))
  join_next-Joined next ((c, l) ∷ ys) e s f =
      let bound = Separated-ends (c + l) hi ys s.4 in
      let ends : word (b + (u.blocks b).mlength) ≡ b + m = rw len (omega arith) in
      elim (Bool-cases (word (b + (u.blocks b).mlength) == c)) [
        | inl touch ↦
            let at : b + m ≡ c = ground arith in
            let sum : word ((u.blocks b).mlength + (u.blocks c).mlength) ≡ m + l =
              rw (len, f.1) (omega arith) in
            rw (f.0, touch)
              (record {
                size = m + l;
                behind = ys;
                len = both_len b c u ∙ sum;
                chain = rw (both_next b c u (omega arith)) (
                    Chain-frame u (both b c u) (c + l) hi (u.blocks c).mnext ys s.4
                      (λ q i. both_same b c u q (omega arith)) f.2);
                more = omega arith;
                pages = omega (arith, s.3);
                apart = Separated-weaken (c + l) (b + (m + l)) hi ys (omega arith) s.4;
                bytes = λ x. ground (arith, in_block-add x b m l);
                sum = omega arith;
                same = both_same b c u;
                memlist = refl;
                minheap = refl;
                maxheap = refl;
              })
        | inr not_touch ↦
            rw (f.0, not_touch)
              (join_next-apart ((c, l) ∷ ys) (ground arith, s.1, s.2, s.3, s.4)
                (rw e (f.0, f.1, f.2)))
      ]
