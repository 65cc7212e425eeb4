-- ===== src/Frames/Seg.antt =====
-- Doubly linked segments of the inverted page table: the `fr_next` and `fr_prev` fields of a run of
-- frames, and what writes to these fields do to them.
use virtual_memory_xinu_f.Base.{
  update-ne, update_self, sym, ap, ◌∙◌, ℕ, ◌≡◌, ◌≢◌, refl, true, false, Option, none, some, arith,
  update, List, [], ◌∷◌, ◌++◌,
}
use virtual_memory_xinu_f.Base.Distinct.{ne_of_mem, mem, Distinct}
use virtual_memory_xinu_f.Frames.{Frame, link_next, link_prev, points_to}

-- The first and the last node of a list, or what stands there if it is empty.
abbrev pub head_or : List ℕ → Option ℕ → Option ℕ
head_or [] n = n
head_or (x ∷ xs) n = some x

abbrev pub last_or : Option ℕ → List ℕ → Option ℕ
last_or p [] = p
last_or p (x ∷ xs) = last_or (some x) xs

-- The nodes `xs` are linked both ways, behind `p` and in front of `n`.
abbrev pub Seg : (ℕ → Frame) → Option ℕ → List ℕ → Option ℕ → Type 0
Seg t p [] n = Unit {0}
Seg t p (x ∷ xs) n = ((t x).fr_prev ≡ p) × ((t x).fr_next ≡ head_or xs n) × Seg t (some x) xs n

-- `u` links the nodes of `xs` as `t` does.
abbrev pub SameLinks : (ℕ → Frame) → (ℕ → Frame) → List ℕ → Type 0
SameLinks t u xs =
    (a : ℕ) → mem a xs ≡ true → ((u a).fr_prev ≡ (t a).fr_prev) × ((u a).fr_next ≡ (t a).fr_next)

head_or-append : (xs ys : List ℕ) (n : Option ℕ) → head_or (xs ++ ys) n ≡ head_or xs (head_or ys n)
head_or-append [] ys n = refl
head_or-append (x ∷ xs) ys n = refl

pub last_or-append :
    (p : Option ℕ) (xs ys : List ℕ) → last_or p (xs ++ ys) ≡ last_or (last_or p xs) ys
last_or-append p [] ys = refl
last_or-append p (x ∷ xs) ys = last_or-append (some x) xs ys

-- The last node of a list is one of its nodes.
last_or-mem :
    (p : Option ℕ) (x : ℕ) (xs : List ℕ)
    → (q : ℕ) × (last_or p (x ∷ xs) ≡ some q) × (mem q (x ∷ xs) ≡ true)
last_or-mem p x [] = (x, refl, ground arith)
last_or-mem p x (y ∷ xs) = let (q, e, m) = last_or-mem (some x) y xs in (q, e, ground arith)

-- What the link writes leave alone.
fr_prev-link_next :
    (p q : Option ℕ) (t : ℕ → Frame) (a : ℕ) → (link_next p q t a).fr_prev ≡ (t a).fr_prev
unfolding link_next
fr_prev-link_next p q t a = ground arith

module _ (t : ℕ → Frame) where
  pub Seg-frame :
      (u : ℕ → Frame) (p : Option ℕ) (xs : List ℕ) (n : Option ℕ)
      → SameLinks t u xs
      → Seg t p xs n
      → Seg u p xs n
  Seg-frame u p [] n same s = tt
  Seg-frame u p (x ∷ xs) n same s =
      let here : ((u x).fr_prev ≡ (t x).fr_prev) × ((u x).fr_next ≡ (t x).fr_next) =
        same x (ground arith) in
      (ground arith, ground arith, Seg-frame u (some x) xs n (λ a m. same a (ground arith)) s.2)

  -- Splitting and joining.
  pub Seg-split :
      (p : Option ℕ) (ys zs : List ℕ) (n : Option ℕ)
      → Seg t p (ys ++ zs) n
      → Seg t p ys (head_or zs n) × Seg t (last_or p ys) zs n
  Seg-split p [] zs n s = (tt, s)
  Seg-split p (y ∷ ys) zs n s =
      let (l, r) = Seg-split (some y) ys zs n s.2 in
      ((s.0, rw (← head_or-append ys zs n) s.1, l), r)

  pub Seg-join :
      (p : Option ℕ) (ys zs : List ℕ) (n : Option ℕ)
      → Seg t p ys (head_or zs n)
      → Seg t (last_or p ys) zs n
      → Seg t p (ys ++ zs) n
  Seg-join p [] zs n s r = r
  Seg-join p (y ∷ ys) zs n s r =
      (s.0, rw (head_or-append ys zs n) s.1, Seg-join (some y) ys zs n s.2 r)

  -- The last node of a segment is given another successor.
  pub Seg-link_next :
      (p : Option ℕ) (ys : List ℕ) (n m : Option ℕ)
      → Distinct ys
      → Seg t p ys n
      → Seg (link_next (last_or p ys) m t) p ys m
  unfolding link_next
  Seg-link_next p [] n m dis s = tt
  Seg-link_next p (y ∷ []) n m dis s = (ground arith, ground arith, tt)
  Seg-link_next p (y ∷ z ∷ ys) n m dis s =
      let (q, e, inside) = last_or-mem (some y) z ys in
      (
        fr_prev-link_next (last_or (some z) ys) m t y ∙ s.0,
        rw e (
            ap (λ (fr : Frame). fr.fr_next)
              (update-ne t q y _ (ne_of_mem q y (z ∷ ys) inside dis.0))
            ∙ s.1),
        Seg-link_next (some y) (z ∷ ys) n m dis.1 s.2,
      )

  -- The first node of a segment is given another predecessor.
  pub Seg-link_prev :
      (p q : Option ℕ) (zs : List ℕ) (n : Option ℕ)
      → Distinct zs
      → Seg t p zs n
      → Seg (link_prev (head_or zs none) q t) q zs n
  unfolding link_prev
  Seg-link_prev p q [] n dis s = tt
  Seg-link_prev p q (z ∷ zs) n dis s =
      let u : ℕ → Frame = update t z (record (t z) { fr_prev = q }) in
      (ground arith, ground arith, Seg-frame u (some z) zs n (λ a m. ground arith) s.2)

-- A pointer other than to `f` leaves the entry of `f` alone.
pub link_next-ne :
    (p q : Option ℕ) (t : ℕ → Frame) (f : ℕ) → points_to p f ≡ false → link_next p q t f ≡ t f
unfolding link_next
link_next-ne p q t f h = ground arith

pub link_prev-ne :
    (p q : Option ℕ) (t : ℕ → Frame) (f : ℕ) → points_to p f ≡ false → link_prev p q t f ≡ t f
unfolding link_prev
link_prev-ne p q t f h = ground arith

pub last_or-ne : (xs : List ℕ) (f : ℕ) → mem f xs ≡ false → points_to (last_or none xs) f ≡ false
last_or-ne [] f h = refl
last_or-ne (x ∷ xs) f h =
    let (q, e, m) = last_or-mem none x xs in
    let ne : q ≢ f = ne_of_mem q f (x ∷ xs) m h in rw e (ground arith)

pub head_or-ne : (xs : List ℕ) (f : ℕ) → mem f xs ≡ false → points_to (head_or xs none) f ≡ false
head_or-ne [] f h = refl
head_or-ne (x ∷ xs) f h = ground arith

pub same_of_eq :
    (t u : ℕ → Frame) (xs : List ℕ) → ((a : ℕ) → mem a xs ≡ true → u a ≡ t a) → SameLinks t u xs
same_of_eq t u xs h a m =
    (ap (λ (fr : Frame). fr.fr_prev) (h a m), ap (λ (fr : Frame). fr.fr_next) (h a m))

pub insert-Seg :
    (f : ℕ) (xs : List ℕ) (t : ℕ → Frame) (tail : Option ℕ)
    → tail ≡ last_or none xs
    → Distinct xs
    → mem f xs ≡ false
    → Seg t none xs none
    → Seg
        (link_next tail (some f) (update t f (record (t f) { fr_prev = tail; fr_next = none })))
        none
        (xs ++ f ∷ [])
        none
insert-Seg f xs t tail e dis out s =
    let last = last_or none xs in
    let v : Frame = record (t f) { fr_prev = last; fr_next = none } in
    let t1 : ℕ → Frame = update t f v in
    let l1 =
      Seg-frame t t1 none xs none
        (same_of_eq t t1 xs λ a m. update-ne t f a v (λ e. ne_of_mem a f xs m out (sym e))) s in
    let same : link_next last (some f) t1 f ≡ v =
      link_next-ne last (some f) t1 f (last_or-ne xs f out) ∙ update_self t f v in
    rw e (
      Seg-join (link_next last (some f) t1) none xs (f ∷ []) none
        (Seg-link_next t1 none xs none (some f) dis l1)
        (ap (λ (fr : Frame). fr.fr_prev) same, ap (λ (fr : Frame). fr.fr_next) same, tt))
