-- ===== src/Frames/UsedList.antt =====
-- The FIFO list of used E1 frames: `__insert_to_used_ll` and `__remove_from_used_ll` of
-- framemgmt.c against a list of frame numbers.
use virtual_memory_xinu_f.Base.{
  ◌==◌, ◌∙◌, refl, update-ne, sym, subst, ℕ, ◌≡◌, true, false, Option, none, some, arith,
  if◌then◌else◌, update, List, [], ◌∷◌, ◌++◌, Bool-cases, inl, inr,
}
use virtual_memory_xinu_f.Base.Distinct.{
  ne_of_mem, Distinct-apart_right, mem-tail, mem-tail_false, Distinct-drop_mid, erase, mem-split,
  Distinct-apart, Distinct-right, Distinct-left, mem-head, mem, Distinct, Distinct-snoc,
}
use virtual_memory_xinu_f.Frames.{
  Frame, FrameTable, link_next, link_prev, remove_from_used_ll, insert_to_used_ll, points_to,
  is_null,
}
use virtual_memory_xinu_f.Frames.Seg.{
  head_or, last_or, Seg, SameLinks, Seg-frame, Seg-split, Seg-join, Seg-link_next, Seg-link_prev,
  last_or-append, link_next-ne, link_prev-ne, last_or-ne, head_or-ne, same_of_eq, insert-Seg,
}

-- `evicthead` and `evicttail` hold the list `xs`, in FIFO order.
pub record IsUsedList (s : FrameTable) (xs : List ℕ) : Type 0 where
  pub head_is : s.evicthead ≡ head_or xs none
  pub tail_is : s.evicttail ≡ last_or none xs
  pub linked : Seg s.invpt none xs none
  pub distinct : Distinct xs

unlinked : ℕ → Option ℕ → Option ℕ → FrameTable → FrameTable
unlinked f prev next s =
    let t2 = link_prev next prev (link_next prev next s.invpt) in
    record s {
      evicthead = if points_to s.evicthead f then next else s.evicthead;
      evicttail = if points_to s.evicttail f then prev else s.evicttail;
      invpt = update t2 f (record (t2 f) { fr_next = none; fr_prev = none });
    }

remove_eq :
    (f : ℕ) (prev next : Option ℕ) (s : FrameTable)
    → (s.invpt f).fr_prev ≡ prev
    → (s.invpt f).fr_next ≡ next
    → points_to prev f ≡ false
    → points_to next f ≡ false
    → remove_from_used_ll f s ≡ unlinked f prev next s
unfolding remove_from_used_ll unlinked
remove_eq f prev next s hp hn pf nf = rw (
  hp,
  hn,
  link_next-ne prev next s.invpt f pf,
  hp,
  hn,
  link_prev-ne next prev (link_next prev next s.invpt) f nf,
  link_next-ne prev next s.invpt f pf,
  hp,
  hn,
)

head-snoc :
    (f : ℕ) (xs : List ℕ) (h : Option ℕ)
    → h ≡ head_or xs none
    → (if is_null h then some f else h) ≡ head_or (xs ++ f ∷ []) none
head-snoc f [] h e = rw e
head-snoc f (x ∷ xs) h e = rw e

module _ (f : ℕ) (ys zs : List ℕ) (dis : Distinct (ys ++ f ∷ zs)) where
  out_left : mem f ys ≡ false
  out_left = elim (Bool-cases (mem f ys)) [
    | inl m ↦ absurd (cc (Distinct-apart ys (f ∷ zs) f dis m, mem-head f zs))
    | inr m ↦ m
  ]

  out_right : mem f zs ≡ false
  out_right = (Distinct-right ys (f ∷ zs) dis).0

  -- What becomes of the ends of the list.
  head-unlinked :
      (h : Option ℕ)
      → h ≡ head_or (ys ++ f ∷ zs) none
      → (if points_to h f then head_or zs none else h) ≡ head_or (ys ++ zs) none
  head-unlinked h e = rw e (at_head ys out_left)
    where
      at_head :
          (l : List ℕ)
          → mem f l ≡ false
          → (if points_to (head_or (l ++ f ∷ zs) none) f
              then head_or zs none
              else head_or (l ++ f ∷ zs) none)
            ≡ head_or (l ++ zs) none
      at_head [] m = ground arith
      at_head (y ∷ l) m = ground arith

  tail-unlinked :
      (h : Option ℕ)
      → h ≡ last_or none (ys ++ f ∷ zs)
      → (if points_to h f then last_or none ys else h) ≡ last_or none (ys ++ zs)
  tail-unlinked h e =
      rw (e, last_or-append none ys (f ∷ zs), last_or-append none ys zs) (at_tail zs out_right)
    where
      at_tail :
          (l : List ℕ)
          → mem f l ≡ false
          → (if points_to (last_or (some f) l) f then last_or none ys else last_or (some f) l)
            ≡ last_or (last_or none ys) l
      at_tail [] m = ground arith
      at_tail (z ∷ l) m = rw (last_or-ne (z ∷ l) f m)

  unlinked-Seg :
      (t : ℕ → Frame)
      → Seg t none (ys ++ f ∷ zs) none
      → let t2 =
          link_prev
            (head_or zs none)
            (last_or none ys)
            (link_next (last_or none ys) (head_or zs none) t) in
        Seg (update t2 f (record (t2 f) { fr_next = none; fr_prev = none })) none (ys ++ zs) none
  unlinked-Seg t s =
      let prev = last_or none ys in
      let next = head_or zs none in
      let (l, r) = Seg-split t none ys (f ∷ zs) none s in
      let apart : (a : ℕ) → mem a zs ≡ true → mem a ys ≡ false =
        λ a m. Distinct-apart_right ys (f ∷ zs) a dis (mem-tail f a zs m) in
      let t1 : ℕ → Frame = link_next prev next t in
      let l1 = Seg-link_next t none ys (some f) next (Distinct-left ys (f ∷ zs) dis) l in
      let r1 =
        Seg-frame t t1 (some f) zs none
          (same_of_eq t t1 zs λ a m. link_next-ne prev next t a (last_or-ne ys a (apart a m)))
          r.2 in
      let t2 : ℕ → Frame = link_prev next prev t1 in
      let r2 = Seg-link_prev t1 (some f) prev zs none (Distinct-right ys (f ∷ zs) dis).1 r1 in
      let l2 =
        Seg-frame t1 t2 none ys next
          (same_of_eq t1 t2 ys λ a m.
            link_prev-ne next prev t1 a
              (head_or-ne zs a (mem-tail_false f a zs (Distinct-apart ys (f ∷ zs) a dis m))))
          l1 in
      let v : Frame = record (t2 f) { fr_next = none; fr_prev = none } in
      let kept : (xs : List ℕ) → mem f xs ≡ false → SameLinks t2 (update t2 f v) xs = λ xs out.
        same_of_eq t2 (update t2 f v) xs
          λ a m. update-ne t2 f a v (λ e. ne_of_mem a f xs m out (sym e)) in
      Seg-join (update t2 f v) none ys zs none
        (Seg-frame t2 (update t2 f v) none ys next (kept ys out_left) l2)
        (Seg-frame t2 (update t2 f v) prev zs none (kept zs out_right) r2)

  -- Removal takes the frame out of the list and keeps the order of the others.
  pub remove-append :
      (s : FrameTable)
      → IsUsedList s (ys ++ f ∷ zs)
      → IsUsedList (remove_from_used_ll f s) (ys ++ zs)
  unfolding unlinked
  remove-append s u =
      let r = (Seg-split s.invpt none ys (f ∷ zs) none u.linked).1 in
      rw
        (remove_eq f (last_or none ys) (head_or zs none) s r.0 r.1 (last_or-ne ys f out_left)
          (head_or-ne zs f out_right))
        (record {
          head_is = head-unlinked s.evicthead u.head_is;
          tail_is = tail-unlinked s.evicttail u.tail_is;
          linked = unlinked-Seg s.invpt u.linked;
          distinct = Distinct-drop_mid f ys zs dis;
        })

-- `__remove_from_used_ll` of a listed frame erases it from the list.
pub remove-IsUsedList :
    (f : ℕ) (xs : List ℕ) (s : FrameTable)
    → IsUsedList s xs
    → mem f xs ≡ true
    → IsUsedList (remove_from_used_ll f s) (erase f xs)
remove-IsUsedList f xs s u m =
    let (ys, zs, e, r) = mem-split f xs m in
    rw r (remove-append f ys zs (subst Distinct e u.distinct) s (subst (IsUsedList s) e u))

-- `__insert_to_used_ll` of a frame that is not listed puts it at the end of the list.
pub insert-IsUsedList :
    (f : ℕ) (xs : List ℕ) (s : FrameTable)
    → IsUsedList s xs
    → mem f xs ≡ false
    → IsUsedList (insert_to_used_ll f s) (xs ++ f ∷ [])
unfolding insert_to_used_ll
insert-IsUsedList f xs s u out = record {
  head_is = head-snoc f xs s.evicthead u.head_is;
  tail_is = sym (last_or-append none xs (f ∷ []));
  linked = insert-Seg f xs s.invpt s.evicttail u.tail_is u.distinct out u.linked;
  distinct = Distinct-snoc xs f u.distinct out;
}

-- A frame's entry without its place in the eviction list.
abbrev pub unlisted : Frame → Frame
unlisted fr = record fr { fr_next = none; fr_prev = none }

-- `u` differs from `t` at most in the links of the eviction list.
abbrev pub LinksOnly : (ℕ → Frame) → (ℕ → Frame) → Type 0
LinksOnly t u = (a : ℕ) → unlisted (u a) ≡ unlisted (t a)

link_next-LinksOnly : (p q : Option ℕ) (t : ℕ → Frame) → LinksOnly t (link_next p q t)
unfolding link_next
link_next-LinksOnly p q t a = ground arith

link_prev-LinksOnly : (p q : Option ℕ) (t : ℕ → Frame) → LinksOnly t (link_prev p q t)
unfolding link_prev
link_prev-LinksOnly p q t a = ground arith

update-LinksOnly :
    (f : ℕ) (v : Frame) (t : ℕ → Frame) → unlisted v ≡ unlisted (t f) → LinksOnly t (update t f v)
update-LinksOnly f v t e a = elim (Bool-cases (f == a)) [
  | inl same ↦ let e' : f ≡ a = ground arith in rw same (rw (← e') e)
  | inr other ↦ rw other
]

pub insert-LinksOnly : (f : ℕ) (s : FrameTable) → LinksOnly s.invpt (insert_to_used_ll f s).invpt
unfolding insert_to_used_ll
insert-LinksOnly f s a =
    let v : Frame = record (s.invpt f) { fr_prev = s.evicttail; fr_next = none } in
    link_next-LinksOnly s.evicttail (some f) (update s.invpt f v) a
    ∙ update-LinksOnly f v s.invpt refl a

pub remove-LinksOnly : (f : ℕ) (s : FrameTable) → LinksOnly s.invpt (remove_from_used_ll f s).invpt
unfolding remove_from_used_ll
remove-LinksOnly f s a =
    let t1 : ℕ → Frame = link_next (s.invpt f).fr_prev (s.invpt f).fr_next s.invpt in
    let t2 : ℕ → Frame = link_prev (t1 f).fr_next (t1 f).fr_prev t1 in
    update-LinksOnly f (record (t2 f) { fr_next = none; fr_prev = none }) t2 refl a
    ∙ link_prev-LinksOnly (t1 f).fr_next (t1 f).fr_prev t1 a
    ∙ link_next-LinksOnly (s.invpt f).fr_prev (s.invpt f).fr_next s.invpt a

-- The list operations leave the stacks alone.
pub stack-insert : (f : ℕ) (s : FrameTable) → (insert_to_used_ll f s).stack ≡ s.stack
unfolding insert_to_used_ll
stack-insert f s = refl

pub stack-remove : (f : ℕ) (s : FrameTable) → (remove_from_used_ll f s).stack ≡ s.stack
unfolding remove_from_used_ll
stack-remove f s = refl
