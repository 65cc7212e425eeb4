-- ===== src/Allocator/Blocks.antt =====
-- Lists of free blocks in the order of their addresses, seen as sets of bytes: the abstract view of the
-- kernel's heap of xinu-fall2022-paging/system/getmem.c and freemem.c.
use virtual_memory_xinu_f.Base.{
  ℕ, ◌+◌, ◌*◌, ◌%◌, ◌≤◌, ◌<◌, ◌≡◌, refl, ap, ap₂, ◌∙◌, Bool, true, false, ◌||◌, List, [], ◌∷◌, ◌++◌,
  arith,
}
use virtual_memory_xinu_f.VirtualHeap.Free.{Block, count, total}
use virtual_memory_xinu_f.VirtualHeap.Covers.{in_block, covers}

-- Blocks of whole multiples of 8 bytes behind `lo`, none of which touches another, up to `hi`.
abbrev pub Separated : ℕ → ℕ → List Block → Type 0
Separated lo hi [] = lo ≤ hi
Separated lo hi ((a, n) ∷ bs) =
    (lo < a) × (0 < n) × (a % 8 ≡ 0) × (n % 8 ≡ 0) × Separated (a + n) hi bs

pub Separated-weaken :
    (lo lo' hi : ℕ) (bs : List Block) → lo' ≤ lo → Separated lo hi bs → Separated lo' hi bs
Separated-weaken lo lo' hi [] h s = omega arith
Separated-weaken lo lo' hi ((a, n) ∷ bs) h s = (omega arith, s.1, s.2, s.3, s.4)

pub Separated-ends : (lo hi : ℕ) (bs : List Block) → Separated lo hi bs → lo + total bs ≤ hi
Separated-ends lo hi [] s = omega arith
Separated-ends lo hi ((a, n) ∷ bs) s = omega (arith, Separated-ends (a + n) hi bs s.4)

pub Separated-count : (lo hi : ℕ) (bs : List Block) → Separated lo hi bs → lo + 8 * count bs ≤ hi
Separated-count lo hi [] s = omega arith
Separated-count lo hi ((a, n) ∷ bs) s = omega (arith, Separated-count (a + n) hi bs s.4)

-- What the front of a list ends at.
pub Separated-middle :
    (lo hi : ℕ) (xs : List Block) (b m : ℕ) (ys : List Block)
    → Separated lo hi (xs ++ (b, m) ∷ ys)
    → lo < b
Separated-middle lo hi [] b m ys s = s.0
Separated-middle lo hi ((a, n) ∷ xs) b m ys s =
    omega (arith, Separated-middle (a + n) hi xs b m ys s.4)

-- The blocks from one on, and another list in their place.
pub Separated-tail :
    (lo hi : ℕ) (xs : List Block) (b m : ℕ) (ys : List Block)
    → Separated lo hi (xs ++ (b, m) ∷ ys)
    → (0 < m) × (b % 8 ≡ 0) × (m % 8 ≡ 0) × Separated (b + m) hi ys
Separated-tail lo hi [] b m ys s = (s.1, s.2, s.3, s.4)
Separated-tail lo hi ((a, n) ∷ xs) b m ys s = Separated-tail (a + n) hi xs b m ys s.4

pub Separated-replace :
    (lo hi : ℕ) (xs : List Block) (b m m' : ℕ) (ys ys' : List Block)
    → Separated lo hi (xs ++ (b, m) ∷ ys)
    → 0 < m'
    → m' % 8 ≡ 0
    → Separated (b + m') hi ys'
    → Separated lo hi (xs ++ (b, m') ∷ ys')
Separated-replace lo hi [] b m m' ys ys' s pos al t = (s.0, pos, s.2, al, t)
Separated-replace lo hi ((a, n) ∷ xs) b m m' ys ys' s pos al t =
    (s.0, s.1, s.2, s.3, Separated-replace (a + n) hi xs b m m' ys ys' s.4 pos al t)

-- The two lists have the same front, which ends at `e`, before the tails `ys` and `ys'`.
pub record SameFront (e : ℕ) (bs ys bs' ys' : List Block) : Type 0 where
  pub bytes :
      (x : ℕ)
      → (p : Bool) × (covers x bs ≡ (p || covers x ys))
        × (covers x bs' ≡ (p || covers x ys'))
        × (e ≤ x → p ≡ false)
  pub sizes : (t : ℕ) × (total bs ≡ t + total ys) × (total bs' ≡ t + total ys')

or_assoc : (a b c : Bool) → (a || (b || c)) ≡ ((a || b) || c)
or_assoc true b c = refl
or_assoc false b c = refl

pub covers-append :
    (x : ℕ) (xs ys : List Block) → covers x (xs ++ ys) ≡ (covers x xs || covers x ys)
covers-append x [] ys = refl
covers-append x ((a, n) ∷ xs) ys =
    ap (λ t. in_block x a n || t) (covers-append x xs ys)
    ∙ or_assoc (in_block x a n) (covers x xs) (covers x ys)

pub total-append : (xs ys : List Block) → total (xs ++ ys) ≡ total xs + total ys
total-append [] ys = omega arith
total-append ((a, n) ∷ xs) ys = omega (arith, total-append xs ys)

pub append-SameFront :
    (e : ℕ) (xs ys ys' : List Block)
    → ((x : ℕ) → e ≤ x → covers x xs ≡ false)
    → SameFront e (xs ++ ys) ys (xs ++ ys') ys'
append-SameFront e xs ys ys' clear = record {
  bytes = λ x. (covers x xs, covers-append x xs ys, covers-append x xs ys', clear x);
  sizes = (total xs, total-append xs ys, total-append xs ys');
}

pub covers_before :
    (lo hi : ℕ) (xs : List Block) (b m : ℕ) (ys : List Block) (x : ℕ)
    → Separated lo hi (xs ++ (b, m) ∷ ys)
    → b + m ≤ x
    → covers x (xs ++ (b, m) ∷ []) ≡ false
covers_before lo hi [] b m ys x s h = ground arith
covers_before lo hi ((a, n) ∷ xs) b m ys x s h =
    ground
      (arith, covers_before (a + n) hi xs b m ys x s.4 h, Separated-middle (a + n) hi xs b m ys s.4)

pub covers_apart :
    (lo hi : ℕ) (xs : List Block) (b m : ℕ) (ys : List Block) (x : ℕ)
    → Separated lo hi (xs ++ (b, m) ∷ ys)
    → b ≤ x
    → covers x xs ≡ false
covers_apart lo hi [] b m ys x s h = refl
covers_apart lo hi ((a, n) ∷ xs) b m ys x s h =
    ground
      (arith, covers_apart (a + n) hi xs b m ys x s.4 h, Separated-middle (a + n) hi xs b m ys s.4)

-- Nothing at `lo` or in front of it is covered.
pub covers_front :
    (lo hi : ℕ) (bs : List Block) (x : ℕ) → Separated lo hi bs → x ≤ lo → covers x bs ≡ false
covers_front lo hi [] x s h = refl
covers_front lo hi ((a, n) ∷ bs) x s h =
    ground (arith, covers_front (a + n) hi bs x s.4 (omega arith))

covers_behind :
    (lo hi : ℕ) (bs : List Block) (x : ℕ) → Separated lo hi bs → hi ≤ x → covers x bs ≡ false
covers_behind lo hi [] x s h = refl
covers_behind lo hi ((a, n) ∷ bs) x s h =
    ground (arith, covers_behind (a + n) hi bs x s.4 h, Separated-ends (a + n) hi bs s.4)

-- The set of the free bytes determines the list.
pub covers-injective :
    (lo hi : ℕ) (bs bs' : List Block)
    → Separated lo hi bs
    → Separated lo hi bs'
    → ((x : ℕ) → covers x bs ≡ covers x bs')
    → bs ≡ bs'
covers-injective lo hi [] [] s s' same = refl
covers-injective lo hi [] ((b, m) ∷ bs') s s' same = absurd (ground (arith, same b))
covers-injective lo hi ((a, n) ∷ bs) [] s s' same = absurd (ground (arith, same a))
covers-injective lo hi ((a, n) ∷ bs) ((b, m) ∷ bs') s s' same =
    let starts : a ≡ b = ground (
      arith,
      same a,
      same b,
      covers_front (a + n) hi bs b s.4,
      covers_front (b + m) hi bs' a s'.4,
    ) in
    let lengths : n ≡ m = ground (
      arith,
      starts,
      same (a + n),
      same (b + m),
      covers_front (a + n) hi bs (a + n) s.4,
      covers_front (b + m) hi bs' (b + m) s'.4,
      covers_front (a + n) hi bs (b + m) s.4,
      covers_front (b + m) hi bs' (a + n) s'.4,
    ) in
    let tails : bs ≡ bs' =
      covers-injective (a + n) hi bs bs' s.4
        (Separated-weaken (b + m) (a + n) hi bs' (omega arith) s'.4)
        (λ x. ground (
          arith,
          same x,
          starts,
          lengths,
          covers_front (a + n) hi bs x s.4,
          covers_front (b + m) hi bs' x s'.4,
        )) in
    ap₂ (λ (p : Block) ps. p ∷ ps) (ap₂ (λ (i j : ℕ). (i, j)) starts lengths) tails
