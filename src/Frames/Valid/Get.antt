-- ===== src/Frames/Valid/Get.antt =====
-- `getfreeframe` on a well-formed state.
use virtual_memory_xinu_f.Base.{
  ℕ, ◌≤◌, ◌≡◌, ap, ◌∙◌, true, false, none, some, arith, List, [], Bool-cases, inl, inr, ◌⊎◌, subst,
}
use virtual_memory_xinu_f.Base.Distinct.{mem, Distinct, mem-tail, mem-head}
use virtual_memory_xinu_f.Frames.{
  Region, same_region, region_size, fr_free, FrameTable, fidxtoregion, getfreeframe,
}
use virtual_memory_xinu_f.Frames.Stacks.{
  free_list, free_slots, Popped, getfreeframe_lem, by_region, same_region_self,
}
use virtual_memory_xinu_f.Frames.Valid.{IsValid, Held}

module _ (r : Region) (s : FrameTable) (xs : List ℕ) (v : IsValid s xs) (f : ℕ) (s' : FrameTable)
    (p : Popped r s f s') where
  other_list : (q : Region) → same_region r q ≡ false → free_list s' q ≡ free_list s q
  other_list q ne = ap (free_slots (region_size q)) (p.others q ne)

  -- Every other free list is as before, and that of `r` is a part of what it was.
  still_free : (q : Region) (a : ℕ) → mem a (free_list s' q) ≡ true → mem a (free_list s q) ≡ true
  still_free =
      by_region (λ q. (a : ℕ) → mem a (free_list s' q) ≡ true → mem a (free_list s q) ≡ true) r
        (λ a m. rw p.list_is (mem-tail f a (free_list s' r) m))
        (λ q ne a m. rw (← other_list q ne) m)

  frame_is : (fidxtoregion f ≡ some r) × ((s.invpt f).fr_state ≡ fr_free)
  frame_is = v.free_frames r f (rw p.list_is (mem-head f (free_list s' r)))

  Popped-Held : Held s' f
  Popped-Held =
      by_region (λ q. mem f (free_list s' q) ≡ false) r
        (subst Distinct p.list_is (v.free_distinct r)).0
        λ q ne. elim (Bool-cases (mem f (free_list s' q))) [
          | inl m ↦
              let at_q : fidxtoregion f ≡ some q = (v.free_frames q f (still_free q f m)).0 in
              ground (arith, frame_is, same_region_self r)
          | inr out ↦ out
        ]

  Popped-IsValid : IsValid s' xs
  Popped-IsValid = record {
    bounded =
        by_region (λ q. (s'.stack q).frsp ≤ region_size q) r p.bounded
          λ q ne. rw (p.others q ne) (v.bounded q);
    free_distinct =
        by_region (λ q. Distinct (free_list s' q)) r
          (subst Distinct p.list_is (v.free_distinct r)).1
          λ q ne. rw (other_list q ne) (v.free_distinct q);
    free_frames = λ q a m. rw p.invpt_is (v.free_frames q a (still_free q a m));
    used = record {
      head_is = p.head_is ∙ v.used.head_is;
      tail_is = p.tail_is ∙ v.used.tail_is;
      linked = rw p.invpt_is v.used.linked;
      distinct = v.used.distinct;
    };
    used_frames = λ a m. rw p.invpt_is (v.used_frames a m);
    used_listed = λ a at_e1 u. v.used_listed a at_e1 (rw p.invpt_is at u);
    indexed = λ q a at_q. rw p.invpt_is (v.indexed q a at_q);
  }

-- What a caller of `getfreeframe` may rely on when it is given the frame `f`.
pub record Gave (r : Region) (s : FrameTable) (xs : List ℕ) (f : ℕ) (s' : FrameTable) : Type 0 where
  pub popped : Popped r s f s'
  pub valid : IsValid s' xs
  pub held : Held s' f
  pub in_region : fidxtoregion f ≡ some r
  pub was_free : (s'.invpt f).fr_state ≡ fr_free

-- On a well-formed state `getfreeframe` either reports that the region has no free frame, and
-- changes nothing, or gives out the first frame of the free list of the region: a free frame of
-- that region, which then stands on no free list; the state stays well-formed.
pub getfreeframe-IsValid :
    (r : Region) (s : FrameTable) (xs : List ℕ)
    → IsValid s xs
    → ((getfreeframe r s ≡ (none, s)) × (free_list s r ≡ []))
      ⊎ ((f : ℕ) × (s' : FrameTable) × (getfreeframe r s ≡ (some f, s')) × Gave r s xs f s')
getfreeframe-IsValid r s xs v = elim (getfreeframe_lem r s (v.bounded r)) [
  | inl out ↦ inl out
  | inr (f, s', e, p) ↦ inr (
    f,
    s',
    e,
    record {
      popped = p;
      valid = Popped-IsValid r s xs v f s' p;
      held = Popped-Held r s xs v f s' p;
      in_region = (frame_is r s xs v f s' p).0;
      was_free = rw p.invpt_is (frame_is r s xs v f s' p).1;
    },
  )
]
