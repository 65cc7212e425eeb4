-- ===== src/Frames/Valid/Free.antt =====
-- `invfreeframe` on a well-formed state.
use virtual_memory_xinu_f.Base.{
  ℕ, ◌-◌, ◌≤◌, ◌≡◌, ◌≢◌, refl, ap, ◌∙◌, true, false, not, none, some, arith, ◌==◌, ◌&&◌,
  if◌then◌else◌, update, List, ◌∷◌, Bool-cases, inl, inr, ok,
}
use virtual_memory_xinu_f.Base.Distinct.{
  mem, Distinct, pigeonhole, erase, mem-cons_cases, mem-erase_lem, erase-not_mem,
}
use virtual_memory_xinu_f.Frames.{
  Region, e1, same_region, region_size, frame0, fr_free, fr_used, Frame, FrameTable, fidxtoregion,
  invfreeframe, give_back, remove_from_used_ll, push_frame, set_stack, set_free,
}
use virtual_memory_xinu_f.Frames.Seg.{Seg-frame}
use virtual_memory_xinu_f.Frames.Stacks.{
  free_list, free_slots-push, length-slots_from, by_region, same_region_self, same_region-eq,
}
use virtual_memory_xinu_f.Frames.UsedList.{
  IsUsedList, LinksOnly, remove-IsUsedList, remove-LinksOnly, stack-remove, unlisted,
}
use virtual_memory_xinu_f.Frames.Valid.{IsValid, Held, fidxtoregion-range}

abbrev pushed : FrameTable → Region → ℕ → FrameTable
pushed s r f = record s { stack = set_stack s.stack r (push_frame f (s.stack r)) }

module _ (s : FrameTable) (xs : List ℕ) (v : IsValid s xs) (f : ℕ) (r : Region)
    (at_r : fidxtoregion f ≡ some r) (was_used : (s.invpt f).fr_state ≡ fr_used) where
  -- A used frame is on no free list.
  used-Held : Held s f
  used-Held q = elim (Bool-cases (mem f (free_list s q))) [
    | inl m ↦ absurd (cc ((v.free_frames q f m).1))
    | inr out ↦ out
  ]

  -- So the stack of its region has room: not all frames of the region can be free.
  not_full : (s.stack r).frsp ≢ 0
  not_full e =
      let all : List ℕ = f ∷ free_list s r in
      let many =
        pigeonhole (region_size r) (frame0 r) all (used-Held r, v.free_distinct r)
          λ a m. fidxtoregion-range r a (in_region a m) in
      omega (
        arith,
        many,
        length-slots_from (s.stack r).frstack (s.stack r).frsp (region_size r - (s.stack r).frsp),
      )
    where
      in_region : (a : ℕ) → mem a (f ∷ free_list s r) ≡ true → fidxtoregion a ≡ some r
      in_region a m = elim (mem-cons_cases a f (free_list s r) m) [
        | inl e ↦ rw e at_r
        | inr inside ↦ (v.free_frames r a inside).0
      ]

  pushed_list : free_list (pushed s r f) r ≡ f ∷ free_list s r
  pushed_list =
      rw (same_region_self r) (free_slots-push (region_size r) f (s.stack r) not_full (v.bounded r))

  pushed_other : (q : Region) → same_region r q ≡ false → free_list (pushed s r f) q ≡ free_list s q
  pushed_other q ne = rw ne

  -- The entry of `f` is set free in a state `u` that has its number on the stack.
  module _ (u : FrameTable) (xs' : List ℕ) (same : u.stack ≡ (pushed s r f).stack)
      (links : LinksOnly s.invpt u.invpt) (listed : IsUsedList u xs')
      (mems : (a : ℕ) → mem a xs' ≡ (mem a xs && not (f == a))) where
    state_after :
        (a : ℕ)
        → ((set_free f u).invpt a).fr_state ≡ (if f == a then fr_free else (s.invpt a).fr_state)
    state_after a =
        let e : (u.invpt a).fr_state ≡ (s.invpt a).fr_state =
          ap (λ (fr : Frame). fr.fr_state) (links a) in
        ground arith

    idx_after : (a : ℕ) → ((set_free f u).invpt a).fr_idx ≡ (s.invpt a).fr_idx
    idx_after a =
        let e : (u.invpt a).fr_idx ≡ (s.invpt a).fr_idx =
          ap (λ (fr : Frame). fr.fr_idx) (links a) in
        ground arith

    free-IsUsedList : IsUsedList (set_free f u) xs'
    free-IsUsedList = record {
      head_is = listed.head_is;
      tail_is = listed.tail_is;
      linked =
          Seg-frame u.invpt (set_free f u).invpt none xs' none (λ a m. ground arith) listed.linked;
      distinct = listed.distinct;
    }

    freed-free_frames :
        (q : Region) (a : ℕ)
        → mem a (free_list (pushed s r f) q) ≡ true
        → (fidxtoregion a ≡ some q) × (((set_free f u).invpt a).fr_state ≡ fr_free)
    freed-free_frames =
        by_region
          (λ q.
            (a : ℕ)
            → mem a (free_list (pushed s r f) q) ≡ true
            → (fidxtoregion a ≡ some q) × (((set_free f u).invpt a).fr_state ≡ fr_free))
          r
          (λ a m. elim (mem-cons_cases a f (free_list s r) (rw pushed_list at m)) [
            | inl e ↦ rw e (at_r, state_after f ∙ ground arith)
            | inr inside ↦
                ((v.free_frames r a inside).0, state_after a ∙ keeps a (v.free_frames r a inside).1)
          ])
          λ q ne a m.
            let inside : mem a (free_list s q) ≡ true = rw (pushed_other q ne) at m in
            ((v.free_frames q a inside).0, state_after a ∙ keeps a (v.free_frames q a inside).1)
      where
        keeps :
            (a : ℕ)
            → (s.invpt a).fr_state ≡ fr_free
            → (if f == a then fr_free else (s.invpt a).fr_state) ≡ fr_free
        keeps a e = ground arith

    freed-IsValid : IsValid (set_free f u) xs'
    freed-IsValid = record {
      bounded = λ q. rw same (
          by_region (λ q. ((pushed s r f).stack q).frsp ≤ region_size q) r
            (rw (same_region_self r) (omega (arith, v.bounded r))) (λ q ne. rw ne (v.bounded q)) q);
      free_distinct = λ q. rw same (
          by_region (λ q. Distinct (free_list (pushed s r f) q)) r
            (rw pushed_list (used-Held r, v.free_distinct r))
            (λ q ne. rw (pushed_other q ne) (v.free_distinct q)) q);
      free_frames = λ q a m. freed-free_frames q a (rw same at m);
      used = free-IsUsedList;
      used_frames = λ a m. ground (arith, mems a, v.used_frames a, state_after a);
      used_listed = λ a at_e1 k. ground (arith, mems a, v.used_listed a at_e1, state_after a);
      indexed = λ q a at_q. idx_after a ∙ v.indexed q a at_q;
    }

  -- The state that `invfreeframe` leaves.
  abbrev given_back : FrameTable
  given_back =
      set_free f (if same_region r e1 then remove_from_used_ll f (pushed s r f) else pushed s r f)

  gives_back : invfreeframe f s ≡ (ok, given_back)
  unfolding invfreeframe
  gives_back =
      let ne : (s.stack r).frsp ≢ 0 = not_full in
      let room : ((s.stack r).frsp == 0) ≡ false = ground arith in
      rw (was_used, at_r, give_back, room)

  pushed-IsUsedList : (ys : List ℕ) → IsUsedList s ys → IsUsedList (pushed s r f) ys
  pushed-IsUsedList ys u = record {
    head_is = u.head_is;
    tail_is = u.tail_is;
    linked = u.linked;
    distinct = u.distinct;
  }

  not_listed : same_region r e1 ≡ false → mem f xs ≡ false
  not_listed other = elim (Bool-cases (mem f xs)) [
    | inl m ↦
        let at_e1 : fidxtoregion f ≡ some e1 = (v.used_frames f m).0 in
        ground (arith, at_r, same_region_self e1)
    | inr out ↦ out
  ]

  given_back-IsValid : IsValid given_back (erase f xs)
  given_back-IsValid = elim (Bool-cases (same_region r e1)) [
    | inl at_e1 ↦ rw at_e1 (
        freed-IsValid (remove_from_used_ll f (pushed s r f)) (erase f xs)
          (stack-remove f (pushed s r f)) (remove-LinksOnly f (pushed s r f))
          (remove-IsUsedList f xs (pushed s r f) (pushed-IsUsedList xs v.used)
            (v.used_listed f (at_r ∙ ap some (same_region-eq r e1 at_e1)) was_used))
          λ a. mem-erase_lem a f xs v.used.distinct)
    | inr other ↦ rw other (
        freed-IsValid (pushed s r f) (erase f xs) refl (λ a. refl)
          (rw (erase-not_mem f xs (not_listed other)) (pushed-IsUsedList xs v.used))
          λ a. mem-erase_lem a f xs v.used.distinct)
  ]

  given_back-stack : given_back.stack ≡ (pushed s r f).stack
  given_back-stack = elim (Bool-cases (same_region r e1)) [
    | inl at_e1 ↦ rw at_e1 (stack-remove f (pushed s r f))
    | inr other ↦ rw other
  ]

  set_free-entry :
      (u : FrameTable) (a : ℕ)
      → LinksOnly s.invpt u.invpt
      → unlisted ((set_free f u).invpt a)
        ≡ unlisted (update s.invpt f (record (s.invpt f) { fr_state = fr_free }) a)
  set_free-entry u a links = elim (Bool-cases (f == a)) [
    | inl same ↦ rw same (ap (λ (fr : Frame). record fr { fr_state = fr_free }) (links f))
    | inr other ↦ rw other (links a)
  ]

  given_back-entry :
      (a : ℕ)
      → unlisted (given_back.invpt a)
        ≡ unlisted (update s.invpt f (record (s.invpt f) { fr_state = fr_free }) a)
  given_back-entry a = elim (Bool-cases (same_region r e1)) [
    | inl at_e1 ↦ rw at_e1 (
        set_free-entry (remove_from_used_ll f (pushed s r f)) a (remove-LinksOnly f (pushed s r f)))
    | inr other ↦ rw other (set_free-entry (pushed s r f) a λ b. refl)
  ]

-- What a caller may rely on when the frame `f` has been given back.
pub record Freed (s : FrameTable) (xs : List ℕ) (f : ℕ) (r : Region) (s' : FrameTable)
    : Type 0 where
  pub valid : IsValid s' (erase f xs)
  pub on_top : free_list s' r ≡ f ∷ free_list s r
  pub others : (q : Region) → same_region r q ≡ false → free_list s' q ≡ free_list s q
  pub entries :
      (a : ℕ)
      → unlisted (s'.invpt a)
        ≡ unlisted (update s.invpt f (record (s.invpt f) { fr_state = fr_free }) a)

-- On a well-formed state `invfreeframe` of a used frame of a region never fails: the frame becomes
-- free and the first of the free list of its region, it leaves the eviction list, no other entry
-- and no other free list changes, and the state stays well-formed.
pub invfreeframe-IsValid :
    (s : FrameTable) (xs : List ℕ) (f : ℕ) (r : Region)
    → IsValid s xs
    → fidxtoregion f ≡ some r
    → (s.invpt f).fr_state ≡ fr_used
    → ((invfreeframe f s).0 ≡ ok) × Freed s xs f r (invfreeframe f s).1
invfreeframe-IsValid s xs f r v at_r was_used = rw (gives_back s xs v f r at_r was_used) (
  refl,
  record {
    valid = given_back-IsValid s xs v f r at_r was_used;
    on_top = rw (given_back-stack s xs v f r at_r was_used) (pushed_list s xs v f r at_r was_used);
    others = λ q ne.
        rw (given_back-stack s xs v f r at_r was_used) (pushed_other s xs v f r at_r was_used q ne);
    entries = given_back-entry s xs v f r at_r was_used;
  },
)
